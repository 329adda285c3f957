-- ===== src/Sync.antt =====
-- 301/CO_SYNC.c and 301/CO_SYNC.h: the SYNC producer and consumer. The Object Dictionary variables
-- behind the pointers are fields, `none` for NULL. The driver's buffers come in as arguments: what
-- `CO_CANrxBufferInit` returns, and whether `CO_CANtxBufferInit` gives a buffer.
pub mod Counter
pub mod Timing
mod Tests
use e_rob_canopen_node_demo.Base.{
  ℕ, ◌+◌, ◌-◌, ◌*◌, ◌/◌, bit_and, bit_or, List, [], ◌∷◌, ◌++◌, Bool, true, false, not, ◌&&◌, ◌||◌,
  Option, none, some, get_or, ltb, leb, ◌==◌, if◌then◌else◌, u8, u16, u32, sub32, add32, has,
}
use e_rob_canopen_node_demo.Od.{Odr}
use e_rob_canopen_node_demo.Emergency.{Em, error}
use e_rob_canopen_node_demo.Emergency.Objects.{is_restricted_can_id}

-- `CO_SYNC_t`; the period is there, since `CO_SYNC_init` refuses a producer without it.
pub record Sync : Type 0 where
  pub em : Em
  pub can_rx_new : Bool
  pub receive_error : ℕ
  pub can_rx_toggle : Bool
  pub timeout_error : ℕ
  pub counter_overflow_value : ℕ
  pub counter : ℕ
  pub sync_is_outside_window : Bool
  pub timer : ℕ
  pub od_1006_period : ℕ
  pub od_1007_window : Option ℕ
  pub is_producer : Bool
  pub can_id : ℕ
  pub has_signal_pre : Bool

-- `CO_SYNC_status_t`
pub data Status : Type 0 where
  sync_none sync_rx_tx sync_passed_window : Status

-- The transmitted SYNC message, by its counter byte, and the callback.
pub data Event : Type 0 where
  sync_sent : ℕ → Event
  signal_pre : Event

-- A SYNC message of the right length has been received.
abbrev pub accept : Sync → Sync × List Event
accept s = (
  record s { can_rx_toggle = not s.can_rx_toggle; can_rx_new = true },
  if s.has_signal_pre then signal_pre ∷ [] else [],
)

-- `CO_SYNC_receive`
unfoldable pub receive : Sync → List ℕ → ℕ → Sync × List Event
receive s bytes dlc =
    if s.counter_overflow_value == 0
    then if dlc == 0 then accept s else (record s { receive_error = bit_or dlc 0x40 }, [])
    else if dlc == 1
    then accept (record s { counter = get_or bytes 0 0 })
    else (record s { receive_error = bit_or dlc 0x80 }, [])

-- The new timing of a SYNC object that its producer flag changes.
abbrev start_producer : Bool → Sync → Sync
start_producer true s = record s { is_producer = true; counter = 0; timer = 0 }
start_producer false s = record s { is_producer = false }

-- `OD_write_1005`, up to the write of the original value.
unfoldable pub write_1005 : Sync → ℕ → ℕ → ℕ → Bool → Bool → Odr × Sync
write_1005 s sub_index count value rx_ok has_tx =
    let can_id = u16 (bit_and value 0x7FF) in
    let is_producer = has value 0x40000000 in
    let moved = not (can_id == s.can_id) in
    if not (sub_index == 0) || not (count == 4)
    then (Odr.dev_incompat, s)
    else if has value 0xBFFFF800
        || is_restricted_can_id can_id
        || (s.is_producer && is_producer && moved)
    then (Odr.invalid_value, s)
    else if moved && not rx_ok
    then (Odr.dev_incompat, s)
    else if moved && not has_tx
    then (Odr.dev_incompat, record s { is_producer = false })
    else (Odr.ok, start_producer is_producer (record s { can_id = can_id }))

-- `OD_write_1019`, up to the write of the original value.
unfoldable pub write_1019 : Sync → ℕ → ℕ → ℕ → Bool → Odr × Sync
write_1019 s sub_index count value has_tx =
    if not (sub_index == 0) || not (count == 1)
    then (Odr.dev_incompat, s)
    else if (value == 1) || ltb 240 value
    then (Odr.invalid_value, s)
    else if not (s.od_1006_period == 0)
    then (Odr.data_dev_state, s)
    else if not has_tx
    then (Odr.dev_incompat, record s { is_producer = false })
    else (Odr.ok, record s { counter_overflow_value = value })

-- The counter of the next SYNC message.
abbrev pub next_counter : ℕ → ℕ → ℕ
next_counter overflow counter = if ltb overflow (u8 (counter + 1)) then 1 else u8 (counter + 1)

-- `CO_SYNCsend`; the result of `CO_CANsend` is the driver's.
unfoldable pub send : Sync → Sync × List Event
send s =
    let counter = next_counter s.counter_overflow_value s.counter in
    (
      record s { counter = counter; timer = 0; can_rx_toggle = not s.can_rx_toggle },
      sync_sent counter ∷ [],
    )

-- The parts of `CO_SYNC_process` for a (pre-)operational node, in their order: the timer and the
-- received message,
unfoldable pub take_received : Sync → ℕ → Sync × Status
take_received s dt =
    let new = add32 s.timer dt in
    let timer = if ltb s.timer new then new else s.timer in
    if s.can_rx_new
    then (record s { timer = 0; can_rx_new = false }, sync_rx_tx)
    else (record s { timer = timer }, sync_none)

abbrev pub earlier : ℕ → ℕ → ℕ
earlier diff timer_next = if ltb diff timer_next then diff else timer_next

-- What a part leaves: the object, the status, the calls, `*timerNext_us`.
pub record Out : Type 0 where
  pub sync : Sync
  pub status : Status
  pub events : List Event
  pub timer_next : ℕ

-- one and a half periods, without overflow,
unfoldable pub period_timeout : ℕ → ℕ
period_timeout period = let t = add32 period (period / 2) in if ltb t period then 0xFFFFFFFF else t

-- the producer or the timeout of the consumer,
unfoldable pub watch_period : Sync → Status → ℕ → ℕ → Out
unfolding send period_timeout
watch_period s status period timer_next =
    let sent = send s in
    let limit = period_timeout period in
    if s.is_producer
    then if leb period s.timer
      then record {
        sync = sent.0;
        status = sync_rx_tx;
        events = sent.1;
        timer_next = earlier (sub32 period sent.0.timer) timer_next;
      }
      else record {
        sync = s;
        status = status;
        events = [];
        timer_next = earlier (sub32 period s.timer) timer_next;
      }
    else if s.timeout_error == 1
    then if ltb limit s.timer
      then record {
        sync = record s { em = (error s.em true 0x18 0x8100 s.timer).0; timeout_error = 2 };
        status = status;
        events = [];
        timer_next = timer_next;
      }
      else record {
        sync = s;
        status = status;
        events = [];
        timer_next = earlier (sub32 limit s.timer) timer_next;
      }
    else record { sync = s; status = status; events = []; timer_next = timer_next }

-- the window of the synchronous PDOs and the receive error,
unfoldable pub check_window : Sync → Status → Sync × Status
check_window s status =
    let window : ℕ = elim s.od_1007_window [ none ↦ 0 | some w ↦ w ] in
    if ltb 0 window && ltb window s.timer
    then (
      record s { sync_is_outside_window = true },
      if s.sync_is_outside_window then status else sync_passed_window,
    )
    else (record s { sync_is_outside_window = false }, status)

unfoldable pub check_length : Sync → Sync
check_length s =
    if s.receive_error == 0
    then s
    else record s { em = (error s.em true 0x19 0x8240 s.receive_error).0; receive_error = 0 }

-- and, for every node, the timeout error that a SYNC message ends.
unfoldable pub end_timeout : Sync → Status → Sync
end_timeout s sync_none = s
end_timeout s sync_passed_window = s
end_timeout s sync_rx_tx = record s {
  em = if s.timeout_error == 2 then (error s.em false 0x18 0x0000 0).0 else s.em;
  timeout_error = 1;
}

-- `CO_SYNC_process`
unfoldable pub process : Sync → Bool → ℕ → ℕ → Out
unfolding take_received watch_period check_window check_length end_timeout
process s nmt_is_pre_or_operational dt timer_next =
    let got = take_received s dt in
    let period = s.od_1006_period in
    let watched : Out =
      if ltb 0 period
      then watch_period got.0 got.1 period timer_next
      else record { sync = got.0; status = got.1; events = []; timer_next = timer_next } in
    let checked = check_window watched.sync watched.status in
    if nmt_is_pre_or_operational
    then record {
      sync = end_timeout (check_length checked.0) checked.1;
      status = checked.1;
      events = watched.events;
      timer_next = watched.timer_next;
    }
    else record {
      sync = record s { can_rx_new = false; receive_error = 0; counter = 0; timer = 0 };
      status = sync_none;
      events = [];
      timer_next = timer_next;
    }
