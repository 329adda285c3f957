-- ===== src/Time.antt =====
-- 301/CO_TIME.c and 301/CO_TIME.h: the TIME producer and consumer, with the producer switched on.
-- A message is its list of bytes; the bytes behind the default transfer function are the value.
pub mod Clock
mod Tests
use e_rob_canopen_node_demo.Base.{
  ℕ, ◌+◌, ◌-◌, ◌*◌, ◌/◌, ◌%◌, bit_and, List, [], ◌∷◌, Bool, true, false, not, ◌&&◌, ◌||◌, Option,
  none, some, get_or, ltb, leb, ◌==◌, if◌then◌else◌, u16, u32, has,
}
use e_rob_canopen_node_demo.Od.{Odr}
use e_rob_canopen_node_demo.Emergency.Objects.{is_restricted_can_id}

-- `CO_TIME_t`
pub record Time : Type 0 where
  pub time_stamp : List ℕ
  pub ms : ℕ
  pub days : ℕ
  pub residual_us : ℕ
  pub is_consumer : Bool
  pub is_producer : Bool
  pub can_rx_new : Bool
  pub producer_interval_ms : ℕ
  pub producer_timer_ms : ℕ
  pub has_signal_pre : Bool

pub data Event : Type 0 where
  time_sent : List ℕ → Event
  signal_pre : Event

-- `OD_write_1012`: the object, and the error, or `none` where `OD_writeOriginal` takes over.
unfoldable pub write_1012 : Time → ℕ → ℕ → ℕ → Time × Option Odr
write_1012 t sub_index count value =
    if not (sub_index == 0) || not (count == 4)
    then (t, some Odr.dev_incompat)
    else if not (bit_and value 0x3FFFF800 == 0) || is_restricted_can_id (bit_and value 0x7FF)
    then (t, some Odr.invalid_value)
    else (
      record t {
        is_consumer = not (bit_and value 0x80000000 == 0);
        is_producer = not (bit_and value 0x40000000 == 0);
      },
      none,
    )

-- `CO_TIME_receive`
unfoldable pub receive : Time → List ℕ → ℕ → Time × List Event
receive t bytes dlc =
    if dlc == 6
    then (
      record t { time_stamp = bytes; can_rx_new = true },
      if t.has_signal_pre then signal_pre ∷ [] else [],
    )
    else (t, [])

-- Milliseconds of a day.
abbrev pub day_ms : ℕ
day_ms = 86400000

-- The message that has been received.
unfoldable pub take_stamp : Time → Time
take_stamp t =
    let b = t.time_stamp in
    record t {
      ms =
          bit_and
            (get_or b 0 0 + 256 * get_or b 1 0 + 65536 * get_or b 2 0 + 16777216 * get_or b 3 0)
            0x0FFFFFFF;
      days = get_or b 4 0 + 256 * get_or b 5 0;
      residual_us = 0;
      can_rx_new = false;
    }

-- The time after `dt` microseconds, and the whole milliseconds that are over.
unfoldable pub advance : Time → ℕ → Time × ℕ
advance t dt =
    let us = u32 (dt + t.residual_us) in
    let ms = u32 (t.ms + us / 1000) in
    let is_over = leb day_ms ms in
    (
      record t {
        residual_us = us % 1000;
        ms = if is_over then ms - day_ms else ms;
        days = if is_over then u16 (t.days + 1) else t.days;
      },
      us / 1000,
    )

abbrev pub stamp : Time → List ℕ
stamp t =
    t.ms % 256
    ∷ t.ms / 256 % 256
    ∷ t.ms / 65536 % 256
    ∷ t.ms / 16777216 % 256
    ∷ t.days % 256
    ∷ t.days / 256 % 256
    ∷ []

-- The producer, `ms` milliseconds after the last call.
unfoldable pub produce : Time → Bool → ℕ → Time × List Event
produce t nmt_is_pre_or_operational ms =
    if nmt_is_pre_or_operational && t.is_producer && ltb 0 t.producer_interval_ms
    then if leb t.producer_interval_ms t.producer_timer_ms
      then (
        record t { producer_timer_ms = t.producer_timer_ms - t.producer_interval_ms },
        time_sent (stamp t) ∷ [],
      )
      else (record t { producer_timer_ms = u32 (t.producer_timer_ms + ms) }, [])
    else (record t { producer_timer_ms = t.producer_interval_ms }, [])

-- `CO_TIME_process`: the object, whether a time stamp was received, and the calls.
unfoldable pub process : Time → Bool → ℕ → Time × Bool × List Event
unfolding take_stamp advance produce
process t nmt_is_pre_or_operational dt =
    let received = nmt_is_pre_or_operational && t.is_consumer && t.can_rx_new in
    let moved =
      if ltb 0 dt
      then advance (record t { can_rx_new = false }) dt
      else (record t { can_rx_new = false }, 0) in
    let now = if received then (take_stamp t, 0) else moved in
    let out = produce now.0 nmt_is_pre_or_operational now.1 in (out.0, received, out.1)
