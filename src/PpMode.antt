-- ===== src/PpMode.antt =====
-- example/pp_mode_control.c: the program that moves a motor in profile position mode over SDO. This
-- file has its objects and the SDO client; PpMode.Motion has the moves and the keyboard commands.
-- An `int32_t` is its bit pattern. Waiting times and what is only printed are left out, but for the
-- lines that `write_sdo` and `read_sdo` print.
pub mod Motion
pub mod Commands
pub mod Rules
pub mod Handshake
pub mod Parameters
pub mod Agreement
pub mod Answers
mod Tests
use e_rob_canopen_node_demo.Base.{
  ℕ, ◌+◌, ◌*◌, ◌/◌, ◌%◌, bit_and, List, [], ◌∷◌, ◌++◌, Bool, true, false, ◌&&◌, ◌||◌, Option, none,
  some, get_or, ◌==◌, if◌then◌else◌,
}

-- `struct can_frame`, without `can_dlc`
pub record Frame : Type 0 where
  pub can_id : ℕ
  pub bytes : List ℕ

-- `object_dict_entry_t`
pub record Entry : Type 0 where
  pub index : ℕ
  pub subindex : ℕ
  pub data_size : ℕ

-- What becomes of a frame: `write` fails, or the frames that come in until the timeout.
pub data Link : Type 0 where
  lost : Link
  hears : List Frame → Link

-- The global variables, and the socket: the frames that wait in it, and what the next frames meet.
pub record App : Type 0 where
  pub current_motor_id : ℕ
  pub current_target_position : ℕ
  pub current_profile_velocity : ℕ
  pub current_profile_acceleration : ℕ
  pub current_profile_deceleration : ℕ
  pub motor_enabled : Bool
  pub running : Bool
  pub object_dict : List Entry
  pub inbox : List Frame
  pub links : List Link

-- A frame handed to `write`, and the lines that end `write_sdo` and `read_sdo`.
pub data Event : Type 0 where
  sent : Frame → Event
  wrote : ℕ → ℕ → Bool → Event
  did_read : ℕ → Option ℕ → Event

-- A function of the program: its result, the variables after it, and what it has done.
abbrev pub M : Type 0 → Type 0
M A = App → A × App × List Event

abbrev pub pure : {A : Type 0} → A → M A
pure a s = (a, s, [])

infixl 5 ◌>>=◌ ◌>>◌
unfoldable pub ◌>>=◌ : {A B : Type 0} → M A → (A → M B) → M B
◌>>=◌ m f s = let r = m s in let q = f r.0 r.1 in (q.0, q.1, r.2 ++ q.2)

abbrev pub ◌>>◌ : {A B : Type 0} → M A → M B → M B
m >> k = m >>= λ _. k

-- `get_object_size`
unfoldable pub get_object_size : List Entry → ℕ → ℕ → ℕ
get_object_size [] index subindex = if index == 0x6040 then 2 else if index == 0x6060 then 1 else 4
get_object_size (e ∷ entries) index subindex =
    if (e.index == index) && (e.subindex == subindex)
    then e.data_size
    else get_object_size entries index subindex

-- The frame of `send_sdo_request`.
unfoldable pub request : App → ℕ → ℕ → ℕ → Bool → Frame
unfolding get_object_size
request s index subindex value is_write =
    let size = get_object_size s.object_dict index subindex in
    let command =
      if is_write then if size == 1 then 0x2F else if size == 2 then 0x2B else 0x23 else 0x40 in
    let v = if is_write then value else 0 in
    record {
      can_id = 0x600 + s.current_motor_id;
      bytes =
          command
          ∷ index % 256
          ∷ index / 256 % 256
          ∷ subindex
          ∷ v % 256
          ∷ v / 256 % 256
          ∷ v / 65536 % 256
          ∷ v / 16777216 % 256
          ∷ [];
    }

-- What `receive_sdo_response` returns, 0 with `*data`, or -1 for an error or the timeout.
pub data Answer : Type 0 where
  answered : ℕ → Answer
  refused timed_out : Answer

abbrev pub payload : Frame → ℕ
payload f =
    get_or f.bytes 4 0
    + 256 * get_or f.bytes 5 0
    + 65536 * get_or f.bytes 6 0
    + 16777216 * get_or f.bytes 7 0

abbrev pub kind : Frame → ℕ
kind f = bit_and (get_or f.bytes 0 0) 0xE0

-- `receive_sdo_response` on the frames until the timeout, with those that it leaves in the socket.
unfoldable pub receive_sdo_response : ℕ → List Frame → Answer × List Frame
receive_sdo_response motor [] = (timed_out, [])
receive_sdo_response motor (f ∷ frames) =
    let rest = receive_sdo_response motor frames in
    if f.can_id == 0x580 + motor
    then if kind f == 0x40
      then (answered (payload f), frames)
      else if kind f == 0x60
      then (answered 0, frames)
      else if kind f == 0x80
      then (refused, frames)
      else rest
    else rest

abbrev pub next_link : List Link → Link × List Link
next_link [] = (hears [], [])
next_link (l ∷ links) = (l, links)

abbrev pub value_of : Answer → Option ℕ
value_of (answered v) = some v
value_of refused = none
value_of timed_out = none

-- The answer to the frame that has been handed to `write`, `none` for any failure, and the frames
-- that stay in the socket.
unfoldable pub hear : ℕ → List Frame → Link → Option ℕ × List Frame
unfolding receive_sdo_response
hear motor inbox lost = (none, inbox)
hear motor inbox (hears frames) =
    let r = receive_sdo_response motor (inbox ++ frames) in (value_of r.0, r.1)

unfoldable pub await : App → Option ℕ × App
unfolding hear
await s =
    let r = hear s.current_motor_id s.inbox (next_link s.links).0 in
    (r.0, record s { links = (next_link s.links).1; inbox = r.1 })

abbrev pub exchange : Frame → M (Option ℕ)
exchange frame s = ((await s).0, (await s).1, sent frame ∷ [])

abbrev pub is_some : Option ℕ → Bool
is_some none = false
is_some (some v) = true

-- `write_sdo` and `read_sdo`; the program only uses sub-index 0.
unfoldable pub write_sdo : ℕ → ℕ → M Bool
unfolding await request
write_sdo index value s =
    let r = exchange (request s index 0 value true) s in
    (is_some r.0, r.1, r.2 ++ wrote index value (is_some r.0) ∷ [])

unfoldable pub read_sdo : ℕ → M (Option ℕ)
unfolding await request
read_sdo index s =
    let r = exchange (request s index 0 0 false) s in (r.0, r.1, r.2 ++ did_read index r.0 ∷ [])

-- `send_nmt_command`; no caller looks at its result.
unfoldable pub send_nmt_command : ℕ → M (Unit {0})
send_nmt_command command s =
    (tt, s, sent (record { can_id = 0; bytes = command ∷ s.current_motor_id ∷ [] }) ∷ [])
