-- ===== src/HbConsumer/Tests.antt =====
-- Runs of the heartbeat consumer, and its theorems at concrete consumers.
use e_rob_canopen_node_demo.Base.{
  ℕ, zero, suc, ◌≡◌, refl, List, [], ◌∷◌, arith, Bool, true, false, some, All,
}
use e_rob_canopen_node_demo.Emergency.{Em, is_error}
use e_rob_canopen_node_demo.Emergency.StatusBits.{HasBytes}
use e_rob_canopen_node_demo.HbConsumer.{
  Node, HbCons, HbState, unconfigured, active, timeout, init_entry, process, receive, od_parameters,
  hb_started,
}
use e_rob_canopen_node_demo.HbConsumer.Entries.{IsUnique, Outcome, init_entry-Outcome}
use e_rob_canopen_node_demo.HbConsumer.Timeout.{process-late}
use e_rob_canopen_node_demo.HbConsumer.Alive.{IsAlive, not_monitored, has_heartbeat, is_in_time}
use e_rob_canopen_node_demo.HbConsumer.Activity.{Checked, process-Checked}

abbrev em : ℕ → Em
em byte = record {
  error_status_bits = 0 ∷ 0 ∷ 0 ∷ byte ∷ 0 ∷ 0 ∷ 0 ∷ 0 ∷ 0 ∷ 0 ∷ [];
  error_register = 0;
  can_error_status_old = 0;
  fifo = [];
  fifo_size = 0;
  fifo_wr_ptr = 0;
  fifo_pp_ptr = 0;
  fifo_overflow = 0;
  fifo_count = 0;
  producer_enabled = false;
  node_id = 7;
  producer_can_id = 0x80;
  inhibit_em_time_us = 0;
  inhibit_em_timer = 0;
  has_signal_rx = false;
  has_signal_pre = false;
}

abbrev monitored : HbState → ℕ → Node
monitored state id = record {
  node_id = id;
  nmt_state = some 5;
  hb_state = state;
  timeout_timer = 900;
  time_us = 1000;
  can_rx_new = false;
  nmt_state_prev = some 5;
}

abbrev consumer : ℕ → Bool → List Node → HbCons
consumer byte all nodes = record {
  em = em byte;
  monitored_nodes = nodes;
  all_monitored_active = all;
  all_monitored_operational = all;
  nmt_is_pre_or_operational_prev = true;
}

-- A heartbeat makes the node active again.
abbrev heard : HbCons
heard = consumer 8 false (receive (monitored timeout 3) (5 ∷ []) 1 ∷ [])

started-heard : (process heard true 500 9999).1 ≡ hb_started 0 ∷ []
unfolding process receive
started-heard = refl

duplicate-entry :
    init_entry (consumer 0 true (monitored active 3 ∷ monitored active 4 ∷ [])) 1 3 10
    ≡ od_parameters
unfolding init_entry
duplicate-entry = refl

two-IsUnique : IsUnique (monitored active 3 ∷ monitored active 4 ∷ [])
two-IsUnique zero zero a b p q s t n = refl
two-IsUnique zero (suc zero) a b p q s t n = absurd cc
two-IsUnique (suc zero) zero a b p q s t n = absurd cc
two-IsUnique (suc zero) (suc zero) a b p q s t n = refl
two-IsUnique (suc (suc i)) j a b p q s t n = absurd cc
two-IsUnique zero (suc (suc j)) a b p q s t n = absurd cc
two-IsUnique (suc zero) (suc (suc j)) a b p q s t n = absurd cc

init_entry-Outcome_example :
    Outcome
      (consumer 0 true (monitored active 3 ∷ monitored active 4 ∷ []))
      1
      5
      (init_entry (consumer 0 true (monitored active 3 ∷ monitored active 4 ∷ [])) 1 5 20)
init_entry-Outcome_example =
    init_entry-Outcome (consumer 0 true (monitored active 3 ∷ monitored active 4 ∷ [])) 1 5 20
      two-IsUnique

em-HasBytes : HasBytes (em 8)
em-HasBytes = (refl, λ i. grind arith)

em0-HasBytes : HasBytes (em 0)
em0-HasBytes = (refl, λ i. grind arith)

process-late_example :
    (is_error
        (process
          (consumer 0 true (monitored active 3 ∷ monitored active 4 ∷ []))
          true
          100
          9999).0.em
        0x1B
      ≡ true)
    × ((process
          (consumer 0 true (monitored active 3 ∷ monitored active 4 ∷ []))
          true
          100
          9999).0.all_monitored_active
        ≡ false)
process-late_example =
    process-late (consumer 0 true (monitored active 3 ∷ monitored active 4 ∷ [])) 100 9999 1
      (monitored active 4) em0-HasBytes refl refl
      (record { was_active = refl; no_message = refl; late = omega arith })

heard-active : (process heard true 500 9999).0.all_monitored_active ≡ true
unfolding process receive
heard-active = refl

-- A consumer of three entries: one with a new heartbeat, one in time, and one that is not used.
abbrev three : HbCons
three =
    consumer 8 false (
      receive (monitored timeout 3) (5 ∷ []) 1 ∷ monitored active 4 ∷ monitored unconfigured 0 ∷ [])

process-Checked_example : Checked three true 50 (process three true 50 9999).0
process-Checked_example = process-Checked three true 50 9999 em-HasBytes

same_number : {a b : ℕ} → some a ≡ some b → a ≡ b
same_number e = cc

three-IsAlive : All (IsAlive 50) three.monitored_nodes
unfolding receive
three-IsAlive = (
  has_heartbeat (λ e. absurd cc) refl (λ e. absurd (omega (arith, same_number e)))
      (λ e. absurd (omega (arith, e))),
  (is_in_time refl refl (omega arith), (not_monitored refl, tt)),
)
