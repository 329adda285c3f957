-- ===== src/Emergency/Process.antt =====
-- CO_EM_process of 301/CO_Emergency.c. The driver's state comes in as arguments:
-- `CANdevTx->CANerrorStatus` and `CANtxBuff->bufferFull`.
use e_rob_canopen_node_demo.Base.{
  ℕ, ◌+◌, ◌-◌, ◌*◌, ◌/◌, bit_or, bit_xor, List, [], ◌∷◌, ◌++◌, Bool, true, false, not, ◌&&◌, ◌||◌,
  get_or, set, ltb, leb, ◌==◌, if◌then◌else◌, u8, u16, add32, has,
}
use e_rob_canopen_node_demo.Emergency.{
  Em, Msg, no_msg, Event, error, em_emergency_buffer_full, emc_no_error, emc_generic,
}

-- A state with the calls made so far.
abbrev pub State : Type 0
State = Em × List Event

-- A call of `CO_error` in a longer function.
abbrev pub report : Bool → ℕ → ℕ → State → State
report set_error bit code (em, out) = let r = error em set_error bit code 0 in (r.0, out ++ r.1)

-- CO_error for one bit of the driver's error status, where that bit has changed.
abbrev pub report_changed : ℕ → ℕ → ℕ → ℕ → ℕ → State → State
report_changed changed status mask bit code st =
    if has changed mask then report (has status mask) bit code st else st

unfoldable pub driver_errors : Em → ℕ → State
driver_errors em status =
    let changed = bit_xor status em.can_error_status_old in
    let start : State = (record em { can_error_status_old = status }, []) in
    if status == em.can_error_status_old
    then (em, [])
    else report_changed changed status 0x0800 0x13 0x8110 (
        report_changed changed status 0x0200 0x06 0x8120 (
          report_changed changed status 0x0080 0x15 0x8100 (
            report_changed changed status 0x0008 0x14 0x8110 (
              report_changed changed status 0x0004 0x12 0x8140 (
                report_changed changed status 0x0002 0x07 0x8120
                  (report_changed changed status 0x0101 0x01 emc_no_error start))))))

-- The error register, with the three conditions of the default configuration.
unfoldable pub calculate_register : Em → ℕ
calculate_register em =
    let byte : ℕ → ℕ = λ i. get_or em.error_status_bits i 0 in
    let generic = if not (byte 5 == 0) then bit_or 0 0x01 else 0 in
    let communication =
      if not (byte 2 == 0) || not (byte 3 == 0) then bit_or generic 0x10 else generic in
    if not (byte 8 == 0) || not (byte 9 == 0) then bit_or communication 0x80 else communication

-- After a message has been sent: the overflow is reported once, and reset when the queue is empty.
unfoldable pub report_overflow : State → State
report_overflow (em, out) =
    if em.fifo_overflow == 1
    then report true em_emergency_buffer_full emc_generic (record em { fifo_overflow = 2 }, out)
    else if (em.fifo_overflow == 2) && (em.fifo_pp_ptr == em.fifo_wr_ptr)
    then report false em_emergency_buffer_full emc_no_error (record em { fifo_overflow = 0 }, out)
    else (em, out)

-- The oldest message of the fifo with the error register added.
abbrev pub oldest : Em → ℕ → Msg
oldest em register =
    let m = get_or em.fifo em.fifo_pp_ptr no_msg in
    record m { msg = bit_or m.msg (register * 65536) }

-- The oldest message is sent.
unfoldable pub send_oldest : ℕ → State → State
unfolding report_overflow
send_oldest register (em, out) =
    let m = oldest em register in
    let own =
      if em.has_signal_rx
      then Event.signal_rx 0 (u16 m.msg) register (m.msg / 16777216) m.info ∷ []
      else [] in
    report_overflow (
      record em {
        inhibit_em_timer = 0;
        fifo = set em.fifo em.fifo_pp_ptr m;
        fifo_pp_ptr =
            if ltb (u8 (em.fifo_pp_ptr + 1)) em.fifo_size then u8 (em.fifo_pp_ptr + 1) else 0;
      },
      out ++ (Event.can_send m ∷ own),
    )

-- `inhibitEmTimer` runs up to the inhibit time.
abbrev pub inhibit_tick : ℕ → Em → Em
inhibit_tick dt em =
    if ltb em.inhibit_em_timer em.inhibit_em_time_us
    then record em { inhibit_em_timer = add32 em.inhibit_em_timer dt }
    else em

abbrev pub may_send : Bool → Em → Bool
may_send buffer_full em =
    not buffer_full
    && not (em.fifo_pp_ptr == em.fifo_wr_ptr)
    && leb em.inhibit_em_time_us em.inhibit_em_timer

-- What CO_EM_process leaves: `*timerNext_us` besides the state and the calls.
pub record ProcessOut : Type 0 where
  pub em : Em
  pub events : List Event
  pub timer_next : ℕ

unfoldable pub post_process : ℕ → ℕ → Bool → ℕ → State → ProcessOut
unfolding send_oldest
post_process register dt buffer_full timer_next (em, out) =
    if leb 2 em.fifo_size
    then (let waited = inhibit_tick dt em in
        let sent = send_oldest register (waited, out) in
        let diff = waited.inhibit_em_time_us - waited.inhibit_em_timer in
        if may_send buffer_full waited
        then record { em = sent.0; events = sent.1; timer_next = timer_next }
        else record {
          em = waited;
          events = out;
          timer_next =
              if ltb waited.inhibit_em_timer waited.inhibit_em_time_us && ltb diff timer_next
              then diff
              else timer_next;
        })
    else record { em = em; events = out; timer_next = timer_next }

unfoldable pub process : Em → Bool → ℕ → ℕ → Bool → ℕ → ProcessOut
unfolding driver_errors calculate_register post_process
process em nmt_is_pre_or_operational dt can_error_status buffer_full timer_next =
    let st = driver_errors em can_error_status in
    let register = calculate_register st.0 in
    let em1 = record st.0 { error_register = register } in
    if nmt_is_pre_or_operational
    then post_process register dt buffer_full timer_next (em1, st.1)
    else record { em = em1; events = st.1; timer_next = timer_next }
