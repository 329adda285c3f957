-- ===== src/Emergency/Tests.antt =====
-- Runs of the emergency producer, and its theorems at concrete states.
use e_rob_canopen_node_demo.Base.{◌+◌, ◌≡◌, refl, [], ◌∷◌, arith, true, false, ◌||◌, if◌then◌else◌}
use e_rob_canopen_node_demo.Emergency.{Em, no_msg, Event, error, is_error}
use e_rob_canopen_node_demo.Emergency.Process.{process, calculate_register}
use e_rob_canopen_node_demo.Emergency.Objects.{write_1014}
use e_rob_canopen_node_demo.Emergency.StatusBits.{HasBytes, message, is_error-error}
use e_rob_canopen_node_demo.Emergency.Queue.{IsValid, pending, Queued, error-Queued}
use e_rob_canopen_node_demo.Emergency.Sending.{Processed, process-Processed}
use e_rob_canopen_node_demo.Emergency.History.{Recorded, error-Recorded}
use e_rob_canopen_node_demo.Emergency.CobId.{Outcome, write_1014-Outcome}
use e_rob_canopen_node_demo.Emergency.Register.{any_error, calculate_register_lem}

-- A node with a queue for two messages, and error 0x1B set.
abbrev node : Em
node = record {
  error_status_bits = 0 ∷ 0 ∷ 0 ∷ 8 ∷ 0 ∷ 0 ∷ 0 ∷ 0 ∷ 0 ∷ 0 ∷ [];
  error_register = 0;
  can_error_status_old = 0;
  fifo = no_msg ∷ no_msg ∷ record { msg = 0x1B008130; info = 5 } ∷ [];
  fifo_size = 3;
  fifo_wr_ptr = 0;
  fifo_pp_ptr = 2;
  fifo_overflow = 0;
  fifo_count = 1;
  producer_enabled = true;
  node_id = 7;
  producer_can_id = 0x80;
  inhibit_em_time_us = 0;
  inhibit_em_timer = 0;
  has_signal_rx = true;
  has_signal_pre = true;
}

node-IsValid : IsValid node
node-IsValid = omega arith

node-HasBytes : HasBytes node
node-HasBytes = (refl, λ i. grind arith)

-- The waiting message goes out with the communication bit in the register.
process-node :
    (process node true 0 0 false 1000).events
    ≡ Event.can_send (record { msg = 0x1B108130; info = 5 })
      ∷ Event.signal_rx 0 0x8130 0x10 0x1B 5
      ∷ []
unfolding process
process-node = refl

-- An unsupported error bit sets bit 0x28, and the message carries the unsupported bit.
wrong_report-node :
    pending (error node true 200 0x1000 1).0
    ≡ record { msg = 0x1B008130; info = 5 } ∷ record { msg = 0xC8006100; info = 200 } ∷ []
unfolding error
wrong_report-node = refl

is_error-error_example : is_error (error node true 200 0x1000 1).0 0x28 ≡ true
unfolding is_error
is_error-error_example = is_error-error node true 200 0x1000 1 0x28 node-HasBytes (omega arith)

error-Queued_example : Queued node false 0x1B 0 5 (error node false 0x1B 0 5)
error-Queued_example = error-Queued node false 0x1B 0 5 node-IsValid

process-Processed_example :
    Processed node true 1000 0x0003 false (process node true 1000 0x0003 false 5000)
process-Processed_example =
    process-Processed node true 1000 0x0003 5000 false node-IsValid node-HasBytes

error-Recorded_example : Recorded node (message false 0x1B 0 5) (error node false 0x1B 0 5).0
unfolding is_error
error-Recorded_example = error-Recorded node false 0x1B 0 5 node-IsValid (omega arith) refl

write_1014-Outcome_example : Outcome node 0x80000087 (write_1014 node 0 4 0x80000087)
write_1014-Outcome_example = write_1014-Outcome node 0x80000087 (omega arith)

calculate_register_lem_example :
    calculate_register node
    ≡ (if any_error node 0x28 then 0x01 else 0)
      + (if any_error node 0x10 || any_error node 0x18 then 0x10 else 0)
      + (if any_error node 0x40 || any_error node 0x48 then 0x80 else 0)
calculate_register_lem_example = calculate_register_lem node node-HasBytes
