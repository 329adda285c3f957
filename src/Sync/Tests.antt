-- ===== src/Sync/Tests.antt =====
-- Runs of the SYNC object, and its theorems at concrete objects.
use e_rob_canopen_node_demo.Base.{ℕ, ◌≡◌, refl, [], ◌∷◌, arith, Bool, true, false, some}
use e_rob_canopen_node_demo.Od.{Odr}
use e_rob_canopen_node_demo.Emergency.{Em, is_error}
use e_rob_canopen_node_demo.Emergency.StatusBits.{HasBytes}
use e_rob_canopen_node_demo.Sync.{Sync, sync_sent, process, write_1019, sync_passed_window}
use e_rob_canopen_node_demo.Sync.Timing.{process-times_out, process-produces}

abbrev em : ℕ → Em
em byte = record {
  error_status_bits = 0 ∷ 0 ∷ 0 ∷ byte ∷ 0 ∷ 0 ∷ 0 ∷ 0 ∷ 0 ∷ 0 ∷ [];
  error_register = 0;
  can_error_status_old = 0;
  fifo = [];
  fifo_size = 0;
  fifo_wr_ptr = 0;
  fifo_pp_ptr = 0;
  fifo_overflow = 0;
  fifo_count = 0;
  producer_enabled = false;
  node_id = 7;
  producer_can_id = 0x80;
  inhibit_em_time_us = 0;
  inhibit_em_timer = 0;
  has_signal_rx = false;
  has_signal_pre = false;
}

em-HasBytes : HasBytes (em 0)
em-HasBytes = (refl, λ i. grind arith)

late-HasBytes : HasBytes (em 1)
late-HasBytes = (refl, λ i. grind arith)

abbrev sync : Bool → Bool → ℕ → ℕ → Sync
sync producer new timeout byte = record {
  em = em byte;
  can_rx_new = new;
  receive_error = 0;
  can_rx_toggle = false;
  timeout_error = timeout;
  counter_overflow_value = 3;
  counter = 0;
  sync_is_outside_window = false;
  timer = 400;
  od_1006_period = 1000;
  od_1007_window = some 900;
  is_producer = producer;
  can_id = 0x80;
  has_signal_pre = false;
}

window-passed : (process (sync false false 0 0) true 600 0).status ≡ sync_passed_window
unfolding process
window-passed = refl

overflow_value-refused : (write_1019 (sync true false 0 0) 0 1 4 true).0 ≡ Odr.data_dev_state
unfolding write_1019
overflow_value-refused = refl

process-times_out_example :
    (is_error (process (sync false false 1 0) true 1101 0).sync.em 0x18 ≡ true)
    × ((process (sync false false 1 0) true 1101 0).sync.timeout_error ≡ 2)
process-times_out_example =
    process-times_out (sync false false 1 0) 1101 0 em-HasBytes refl refl refl (omega arith)
      (omega arith) (omega arith) (omega arith)

process-produces_example :
    ((process (sync true false 0 0) true 600 0).events ≡ sync_sent 1 ∷ [])
    × ((process (sync true false 0 0) true 600 0).sync.timer ≡ 0)
process-produces_example =
    process-produces (sync true false 0 0) 600 0 refl refl (omega arith) (omega arith)
