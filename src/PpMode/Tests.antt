-- ===== src/PpMode/Tests.antt =====
-- Runs of the motor program, and its theorems at concrete drives.
use e_rob_canopen_node_demo.Base.{
  ℕ, zero, suc, ◌≡◌, refl, List, [], ◌∷◌, true, false, none, some, arith,
}
use e_rob_canopen_node_demo.PpMode.{
  App, Frame, Link, hears, sent, did_read, ◌>>=◌, request, await, receive_sdo_response, read_sdo,
  write_sdo, hear, send_nmt_command,
}
use e_rob_canopen_node_demo.PpMode.Motion.{
  is_out_of_range, execute_position_move, place, raise, release, finish, wait_status,
  print_command_help,
}
use e_rob_canopen_node_demo.PpMode.Commands.{
  velocity, index_of, get, run, scan_decimal, command, session, store, set_param, increase,
  decrease, check_can_connection, drive, work, init_pp_mode, enable, quit,
}
use e_rob_canopen_node_demo.PpMode.Rules.{runs}
use e_rob_canopen_node_demo.PpMode.Handshake.{
  Phase, idle, is_done, handshake, execute_position_move_follows,
}
use e_rob_canopen_node_demo.PpMode.Parameters.{drive_value}
use e_rob_canopen_node_demo.PpMode.Answers.{upload_response, read_sdo_gets}

abbrev started : List Link → App
started links = record {
  current_motor_id = 2;
  current_target_position = 0;
  current_profile_velocity = 5566;
  current_profile_acceleration = 5566;
  current_profile_deceleration = 5566;
  motor_enabled = false;
  running = true;
  object_dict = [];
  inbox = [];
  links = links;
}

-- What the drive answers to a read and to a write.
abbrev value : ℕ → Link
value v = hears (upload_response 2 0x43 0x6064 v ∷ [])

abbrev accepts : Link
accepts = hears (upload_response 2 0x60 0x6064 0 ∷ [])

abbrev cooperative : App
cooperative = started (
    value 7
    ∷ accepts
    ∷ value 0x0F
    ∷ accepts
    ∷ value 0x0237
    ∷ value 0x1237
    ∷ accepts
    ∷ value 0x0237
    ∷ value 1007
    ∷ value 1007
    ∷ [])

moves : (execute_position_move 1000 cooperative).0 ≡ true
unfolding execute_position_move is_out_of_range place raise release finish wait_status
    print_command_help read_sdo write_sdo await hear receive_sdo_response ◌>>=◌
moves = refl

execute_position_move_follows_example :
    let out = execute_position_move 1000 cooperative in
    (q : Phase) × (runs (handshake 1000) idle out.2 ≡ some q)
    × (out.0 ≡ is_done q)
    × (is_out_of_range 1000 ≡ true → out.2 ≡ [])
execute_position_move_follows_example = execute_position_move_follows 1000 cooperative

-- A foreign frame in the socket, and one before the answer.
abbrev heartbeat : Frame
heartbeat = record { can_id = 0x702; bytes = 5 ∷ [] }

read_sdo_gets_example :
    read_sdo 0x6041
      (record (started
        (hears (heartbeat ∷ upload_response 2 0x4B 0x6041 0x1237 ∷ heartbeat ∷ []) ∷ [])) {
          inbox = heartbeat ∷ [];
        })
    ≡ (
      some 0x1237,
      record (started []) { inbox = heartbeat ∷ [] },
      sent (request (started []) 0x6041 0 0 false) ∷ did_read 0x6041 (some 0x1237) ∷ [],
    )
unfolding request
read_sdo_gets_example =
    read_sdo_gets
      (record (started
        (hears (heartbeat ∷ upload_response 2 0x4B 0x6041 0x1237 ∷ heartbeat ∷ []) ∷ [])) {
          inbox = heartbeat ∷ [];
        })
      0x6041 0x6041 0x4B 0x1237 (heartbeat ∷ []) (heartbeat ∷ []) [] (refl, tt) (refl, tt) refl refl
      (omega arith)

reads_number : scan_decimal (b' ' ∷ b'-' ∷ b'4' ∷ b'2' ∷ b'x' ∷ []) ≡ 0xFFFFFFD6
unfolding scan_decimal
reads_number = refl

abbrev keys : List (List ℕ)
keys =
    (b'v' ∷ b' ' ∷ b'9' ∷ b'0' ∷ [])
    ∷ (b'+' ∷ b'v' ∷ [])
    ∷ (b'-' ∷ b'v' ∷ [])
    ∷ (b'q' ∷ [])
    ∷ (b'+' ∷ b'v' ∷ [])
    ∷ []

connects : (run keys (started [])).0 ≡ true
unfolding run drive work ◌>>=◌ check_can_connection
connects = refl

final_velocity : get velocity (run keys (started [])).1 ≡ 90
unfolding run drive work ◌>>=◌ check_can_connection init_pp_mode enable send_nmt_command write_sdo
    read_sdo print_command_help await hear receive_sdo_response session command set_param store
    increase decrease quit scan_decimal
final_velocity = refl

-- The drive accepts every write of the run.
abbrev answers : ℕ → List Link
answers zero = []
answers (suc n) = accepts ∷ answers n

abbrev answered : App
answered = started (answers 20)

accepted_velocity : drive_value (index_of velocity) none (run keys answered).2 ≡ some 90
unfolding run drive work ◌>>=◌ check_can_connection init_pp_mode enable send_nmt_command write_sdo
    read_sdo print_command_help await hear receive_sdo_response session command set_param store
    increase decrease quit scan_decimal drive_value
accepted_velocity = refl
