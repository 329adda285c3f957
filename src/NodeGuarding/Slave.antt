-- ===== src/NodeGuarding/Slave.antt =====
-- 301/CO_Node_Guarding.c: the node guarding slave.
use e_rob_canopen_node_demo.Base.{
  ℕ, ◌-◌, ◌*◌, bit_or, List, [], ◌∷◌, Bool, true, false, not, ◌||◌, ltb, if◌then◌else◌, u32, min,
}
use e_rob_canopen_node_demo.NodeGuarding.{Event, answered, reported, cleared}

-- `CO_nodeGuardingSlave_t`
pub record Slave : Type 0 where
  pub can_rx_new : Bool
  pub guard_time_us : ℕ
  pub life_time_us : ℕ
  pub life_timer : ℕ
  pub life_time_factor : ℕ
  pub toggle : Bool
  pub life_time_timeout : Bool

-- The object that `CO_nodeGuardingSlave_init` leaves, for the values of 0x100C and 0x100D.
abbrev pub init : ℕ → ℕ → Slave
init guard_time_ms factor = record {
  can_rx_new = false;
  guard_time_us = guard_time_ms * 1000;
  life_time_us = u32 (guard_time_ms * 1000 * factor);
  life_timer = 0;
  life_time_factor = factor;
  toggle = false;
  life_time_timeout = false;
}

-- `CO_ngs_receive`
abbrev pub receive : Slave → Slave
receive s = record s { can_rx_new = true }

-- A new life time, for the timer that is running too.
abbrev pub with_life_time : Slave → Slave
with_life_time s =
    let life = u32 (s.guard_time_us * s.life_time_factor) in
    record s { life_time_us = life; life_timer = if ltb 0 s.life_timer then life else s.life_timer }

-- `OD_write_100C` and `OD_write_100D`, for a value of the right size; the value then goes to the
-- Object Dictionary.
abbrev pub write_100C : Slave → ℕ → Slave
write_100C s guard_time_ms = with_life_time (record s { guard_time_us = guard_time_ms * 1000 })

abbrev pub write_100D : Slave → ℕ → Slave
write_100D s factor = with_life_time (record s { life_time_factor = factor })

-- The answer to a request.
unfoldable pub answer : Slave → ℕ → Slave × List Event
answer s nmt_state = (
  record s {
    life_timer = s.life_time_us;
    toggle = not s.toggle;
    life_time_timeout = false;
    can_rx_new = false;
  },
  answered (if s.toggle then bit_or nmt_state 0x80 else nmt_state)
      ∷ (if s.life_time_timeout then cleared 0 ∷ [] else []),
)

-- The life time, while no request has come.
unfoldable pub watch : Slave → ℕ → Slave × List Event
watch s dt =
    if not (ltb 0 s.life_timer)
    then (s, [])
    else if ltb dt s.life_timer
    then (record s { life_timer = s.life_timer - dt }, [])
    else (record s { life_timer = 0; life_time_timeout = true }, reported 0 ∷ [])

-- `CO_nodeGuardingSlave_process`
unfoldable pub process : Slave → ℕ → Bool → ℕ → Slave × List Event
process s nmt_state disable dt =
    if disable
    then (record s { toggle = false; life_timer = 0; can_rx_new = false }, [])
    else if s.can_rx_new
    then answer s nmt_state
    else watch s dt

-- `*timerNext_us` after the call: not later than the end of the life time.
unfoldable pub timer_next : Slave → Bool → ℕ → ℕ → ℕ
timer_next s disable dt next =
    if disable || s.can_rx_new || not (ltb 0 s.life_timer)
    then next
    else if ltb dt s.life_timer
    then min next (s.life_timer - dt)
    else next
