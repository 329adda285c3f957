-- ===== src/Nmt/Tests.antt =====
-- Runs of the NMT slave, and its theorems at concrete objects.
use e_rob_canopen_node_demo.Base.{◌≡◌, refl, [], ◌∷◌, ◌++◌, arith, Bool, true, false}
use e_rob_canopen_node_demo.Emergency.{Em, is_error}
use e_rob_canopen_node_demo.Nmt.{
  Nmt, operational, pre_operational, heartbeat, init, process, state_code, has_nmt_error, react,
  receive, reset_comm,
}
use e_rob_canopen_node_demo.Nmt.Steps.{processed, Trace, none_yet, next, Booted, trace-Booted}
use e_rob_canopen_node_demo.Nmt.Heartbeat.{IsSteady, elapse, elapse-heartbeat}
use e_rob_canopen_node_demo.Nmt.Faults.{IsHeaded, stays, Reacted, process-Reacted}

-- An emergency object with the status bit of a heartbeat consumer error, and one with none.
abbrev em : Bool → Em
em late = record {
  error_status_bits = 0 ∷ 0 ∷ 0 ∷ (elim late [ true ↦ 8 | false ↦ 0 ]) ∷ 0 ∷ 0 ∷ 0 ∷ 0 ∷ 0 ∷ 0 ∷ [];
  error_register = 0;
  can_error_status_old = 0;
  fifo = [];
  fifo_size = 0;
  fifo_wr_ptr = 0;
  fifo_pp_ptr = 0;
  fifo_overflow = 0;
  fifo_count = 0;
  producer_enabled = false;
  node_id = 7;
  producer_can_id = 0x80;
  inhibit_em_time_us = 0;
  inhibit_em_timer = 0;
  has_signal_rx = false;
  has_signal_pre = false;
}

abbrev slave : Nmt
slave = record {
  operating_state = operational;
  operating_state_prev = operational;
  internal_command = 0;
  node_id = 7;
  nmt_control = 0x1000;
  hb_producer_time_us = 1000;
  hb_producer_timer = 500;
  has_signal_pre = false;
  has_funct_nmt = true;
}

-- A reset command for all nodes is returned by the next call.
reset-slave : (process (receive slave (130 ∷ 0 ∷ []) 2).0 (em false) 100 0).reset ≡ reset_comm
unfolding receive process state_code
reset-slave = refl

abbrev started :
    Trace
      (init 7 0x0100 0 1000)
      ([] ++ (process (init 7 0x0100 0 1000) (em false) 10 0).events)
      (process (init 7 0x0100 0 1000) (em false) 10 0).nmt
started = next [] _ _ _ none_yet (processed (init 7 0x0100 0 1000) (em false) 10 0)

trace-Booted_example :
    Booted
      ([] ++ (process (init 7 0x0100 0 1000) (em false) 10 0).events)
      (process (init 7 0x0100 0 1000) (em false) 10 0).nmt
trace-Booted_example =
    trace-Booted 7 0x0100 0 1000 ([] ++ (process (init 7 0x0100 0 1000) (em false) 10 0).events)
      (process (init 7 0x0100 0 1000) (em false) 10 0).nmt started

slave-IsSteady : IsSteady slave (em false)
unfolding state_code react has_nmt_error is_error
slave-IsSteady = record {
  started = refl;
  settled = refl;
  no_command = refl;
  no_reaction = refl;
  enabled = λ h. absurd (omega (arith, h));
}

elapse-heartbeat_example :
    elapse slave (em false) (200 ∷ 200 ∷ 200 ∷ [])
    ≡ (record slave { hb_producer_timer = 1000 }, heartbeat 5 ∷ [])
unfolding state_code
elapse-heartbeat_example =
    elapse-heartbeat (200 ∷ 200 ∷ []) slave (em false) 200 slave-IsSteady (omega arith)
      (omega arith)

slave-IsHeaded : IsHeaded slave operational
slave-IsHeaded =
    stays
      (
        λ e. absurd (omega (arith, e)),
        λ e. absurd (omega (arith, e)),
        λ e. absurd (omega (arith, e)),
      )
      refl (λ e. absurd cc)

-- With the error of the heartbeat consumer the operational node becomes pre-operational.
fault-falls : (process slave (em true) 100 0).nmt.operating_state ≡ pre_operational
unfolding process state_code is_error
fault-falls = refl

process-Reacted_example :
    Reacted slave (em true) operational (process slave (em true) 100 0).nmt.operating_state
process-Reacted_example = process-Reacted slave (em true) 100 0 operational slave-IsHeaded
