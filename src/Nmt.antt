-- ===== src/Nmt.antt =====
-- 301/CO_NMT_Heartbeat.c and 301/CO_NMT_Heartbeat.h: the NMT slave with its heartbeat producer, and
-- the command of the NMT master. The result of `CO_CANsend` is the driver's.
pub mod Steps
pub mod Faults
pub mod Heartbeat
mod Tests
use e_rob_canopen_node_demo.Base.{
  ℕ, ◌+◌, ◌-◌, ◌*◌, bit_and, List, [], ◌∷◌, ◌++◌, Bool, true, false, not, ◌&&◌, ◌||◌, Option, none,
  some, get_or, ltb, ◌==◌, if◌then◌else◌, u8, u32, has,
}
use e_rob_canopen_node_demo.Od.{Odr}
use e_rob_canopen_node_demo.Emergency.{Em, is_error}

-- `CO_NMT_internalState_t`, without the state that only the heartbeat consumer uses.
pub data State : Type 0 where
  initializing pre_operational operational stopped : State

unfoldable pub state_code : State → ℕ
state_code initializing = 0
state_code pre_operational = 127
state_code operational = 5
state_code stopped = 4

abbrev pub same_state : State → State → Bool
same_state a b = state_code a == state_code b

-- `CO_NMT_reset_cmd_t`
pub data Reset : Type 0 where
  reset_not reset_comm reset_app reset_quit : Reset

-- `CO_NMT_command_t` holds the byte that was received.
abbrev pub enter_operational : ℕ
enter_operational = 1

abbrev pub enter_stopped : ℕ
enter_stopped = 2

abbrev pub enter_pre_operational : ℕ
enter_pre_operational = 128

abbrev pub reset_node : ℕ
reset_node = 129

abbrev pub reset_communication : ℕ
reset_communication = 130

-- `CO_NMT_control_t`
abbrev pub startup_to_operational : ℕ
startup_to_operational = 0x0100

abbrev pub err_on_busoff_hb : ℕ
err_on_busoff_hb = 0x1000

abbrev pub err_on_err_reg : ℕ
err_on_err_reg = 0x2000

abbrev pub err_to_stopped : ℕ
err_to_stopped = 0x4000

abbrev pub err_free_to_operational : ℕ
err_free_to_operational = 0x8000

-- `CO_NMT_t`, with whether each callback is set.
pub record Nmt : Type 0 where
  pub operating_state : State
  pub operating_state_prev : State
  pub internal_command : ℕ
  pub node_id : ℕ
  pub nmt_control : ℕ
  pub hb_producer_time_us : ℕ
  pub hb_producer_timer : ℕ
  pub has_signal_pre : Bool
  pub has_funct_nmt : Bool

pub data Event : Type 0 where
  heartbeat : ℕ → Event
  nmt_command : ℕ → ℕ → Event
  state_changed : State → Event
  signal_pre : Event

-- `CO_NMT_receive`
unfoldable pub receive : Nmt → List ℕ → ℕ → Nmt × List Event
receive nmt bytes dlc =
    let command = get_or bytes 0 0 in
    let node_id = get_or bytes 1 0 in
    if (dlc == 2) && ((node_id == 0) || (node_id == nmt.node_id))
    then (
      record nmt { internal_command = command },
      if nmt.has_signal_pre then signal_pre ∷ [] else [],
    )
    else (nmt, [])

-- `OD_write_1017`, up to the write of the original value.
unfoldable pub write_1017 : Nmt → ℕ → ℕ → ℕ → Odr × Nmt
write_1017 nmt sub_index count value =
    if not (sub_index == 0) || not (count == 2)
    then (Odr.dev_incompat, nmt)
    else (Odr.ok, record nmt { hb_producer_time_us = u32 (value * 1000); hb_producer_timer = 0 })

-- The object that `CO_NMT_init` leaves where the producer heartbeat time can be read.
unfoldable pub init : ℕ → ℕ → ℕ → ℕ → Nmt
init node_id nmt_control first_hb_time_ms hb_prod_time_ms =
    let time = u32 (hb_prod_time_ms * 1000) in
    let timer = u32 (first_hb_time_ms * 1000) in
    record {
      operating_state = initializing;
      operating_state_prev = initializing;
      internal_command = 0;
      node_id = node_id;
      nmt_control = nmt_control;
      hb_producer_time_us = time;
      hb_producer_timer = if ltb time timer then time else timer;
      has_signal_pre = false;
      has_funct_nmt = false;
    }

-- The parts of `CO_NMT_process`, in their order: the timer,
abbrev pub timer_left : ℕ → ℕ → ℕ
timer_left timer dt = if ltb dt timer then timer - dt else 0

-- whether a heartbeat is due,
unfoldable pub is_due : Nmt → ℕ → Bool
is_due nmt dt =
    same_state nmt.operating_state initializing
    || (not (nmt.hb_producer_time_us == 0)
        && ((timer_left nmt.hb_producer_timer dt == 0)
            || not (same_state nmt.operating_state nmt.operating_state_prev)))

-- the heartbeat, after which an initializing node starts by itself,
unfoldable pub produce : Nmt → ℕ → Nmt × List Event
unfolding is_due
produce nmt dt =
    let timer = timer_left nmt.hb_producer_timer dt in
    if is_due nmt dt
    then (
      (if same_state nmt.operating_state initializing
          then (let started =
                if has nmt.nmt_control startup_to_operational
                then operational
                else pre_operational in
              record nmt {
                operating_state = started;
                operating_state_prev = started;
                hb_producer_timer = timer;
              })
          else record nmt {
            operating_state_prev = nmt.operating_state;
            hb_producer_timer = nmt.hb_producer_time_us;
          }),
      heartbeat (state_code nmt.operating_state) ∷ [],
    )
    else (record nmt { operating_state_prev = nmt.operating_state; hb_producer_timer = timer }, [])

-- the command,
unfoldable pub obey : ℕ → State → State × Reset
obey command state =
    if command == enter_operational
    then (operational, reset_not)
    else if command == enter_stopped
    then (stopped, reset_not)
    else if command == enter_pre_operational
    then (pre_operational, reset_not)
    else if command == reset_node
    then (state, reset_app)
    else if command == reset_communication
    then (state, reset_comm)
    else (state, reset_not)

-- the errors that the NMT control word selects,
unfoldable pub has_nmt_error : ℕ → Em → Bool
has_nmt_error control em =
    (has control err_on_busoff_hb && (is_error em 0x12 || is_error em 0x1B || is_error em 0x1C))
    || (has control err_on_err_reg && has em.error_register (u8 control))

unfoldable pub react : ℕ → Bool → State → State
react control has_error state =
    if same_state state operational && has_error
    then if has control err_to_stopped then stopped else pre_operational
    else if has control err_free_to_operational
        && (same_state state pre_operational && not has_error)
    then operational
    else state

pub record ProcessOut : Type 0 where
  pub nmt : Nmt
  pub reset : Reset
  pub events : List Event
  pub timer_next : ℕ

-- and the whole.
unfoldable pub process : Nmt → Em → ℕ → ℕ → ProcessOut
unfolding produce obey has_nmt_error react
process nmt em dt timer_next =
    let produced = produce nmt dt in
    let nmt1 = produced.0 in
    let obeyed = obey nmt1.internal_command nmt1.operating_state in
    let state = react nmt.nmt_control (has_nmt_error nmt.nmt_control em) obeyed.0 in
    let changed = not (same_state nmt1.operating_state_prev state) in
    record {
      nmt = record nmt1 { operating_state = state; internal_command = 0 };
      reset = obeyed.1;
      events =
          produced.1
          ++ (if (changed || same_state nmt.operating_state initializing) && nmt.has_funct_nmt
              then state_changed state ∷ []
              else []);
      timer_next =
          if nmt.hb_producer_time_us == 0
          then timer_next
          else if changed
          then 0
          else if ltb nmt1.hb_producer_timer timer_next
          then nmt1.hb_producer_timer
          else timer_next;
    }

-- `CO_NMT_sendInternalCommand`
abbrev pub send_internal_command : Nmt → ℕ → Nmt
send_internal_command nmt command = record nmt { internal_command = command }

-- `CO_NMT_sendCommand`
unfoldable pub send_command : Nmt → ℕ → ℕ → Nmt × List Event
send_command nmt command node_id = (
  if (node_id == 0) || (node_id == nmt.node_id)
      then record nmt { internal_command = command }
      else nmt,
  nmt_command command node_id ∷ [],
)
