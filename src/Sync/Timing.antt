-- ===== src/Sync/Timing.antt =====
-- When CO_SYNC_process sends, when it reports that SYNC messages are missing, and when that ends.
use e_rob_canopen_node_demo.Base.{
  ℕ, ◌+◌, ◌/◌, ◌<◌, ◌≡◌, inl, inr, refl, ◌∙◌, [], ◌∷◌, true, false, ◌&&◌, arith, none, some, ltb,
  leb, ◌==◌, if◌then◌else◌, add32, min, Bool-cases,
}
use e_rob_canopen_node_demo.Emergency.{error, is_error}
use e_rob_canopen_node_demo.Emergency.StatusBits.{HasBytes, is_error-error, error-HasBytes}
use e_rob_canopen_node_demo.Sync.{
  Sync, Status, sync_none, sync_rx_tx, sync_passed_window, sync_sent, take_received, period_timeout,
  watch_period, send, next_counter, check_window, check_length, end_timeout, process,
}

-- One and a half periods, at most the largest `uint32_t`.
pub period_timeout-min :
    (period : ℕ)
    → period < 4294967296
    → period_timeout period ≡ min (period + period / 2) 4294967295
unfolding period_timeout
period_timeout-min period p = ground arith

take_received-none :
    (s : Sync) (dt : ℕ)
    → s.can_rx_new ≡ false
    → s.timer + dt < 4294967296
    → take_received s dt ≡ (record s { timer = s.timer + dt }, sync_none)
unfolding take_received
take_received-none s dt h p =
    let e : (if ltb s.timer (add32 s.timer dt) then add32 s.timer dt else s.timer) ≡ s.timer + dt =
      ground arith in
    rw (h, e) refl

-- The window and the length of a SYNC message leave the rest of the object.
record Checked (s : Sync) (after : Sync) : Type 0 where
  bytes : HasBytes after.em
  error : is_error after.em 0x18 ≡ is_error s.em 0x18
  timer : after.timer ≡ s.timer
  timeout_error : after.timeout_error ≡ s.timeout_error
  counter : after.counter ≡ s.counter

check_length-Checked : (s : Sync) → HasBytes s.em → Checked s (check_length s)
unfolding check_length
check_length-Checked s h = elim (Bool-cases (s.receive_error == 0)) [
  | inl e ↦
      rw e (record { bytes = h; error = refl; timer = refl; timeout_error = refl; counter = refl })
  | inr e ↦ rw e (record {
    bytes = error-HasBytes s.em true 0x19 0x8240 s.receive_error h;
    error = is_error-error s.em true 0x19 0x8240 s.receive_error 0x18 h (omega arith);
    timer = refl;
    timeout_error = refl;
    counter = refl;
  })
]

check_window-Checked :
    (s : Sync) (status : Status) → HasBytes s.em → Checked s (check_window s status).0
unfolding check_window
check_window-Checked s status h =
    let w : ℕ = elim s.od_1007_window [ none ↦ 0 | some w ↦ w ] in
    elim (Bool-cases (ltb 0 w && ltb w s.timer)) [
      | inl e ↦
          rw e
            (record { bytes = h; error = refl; timer = refl; timeout_error = refl; counter = refl })
      | inr e ↦
          rw e
            (record { bytes = h; error = refl; timer = refl; timeout_error = refl; counter = refl })
    ]

checks-Checked :
    (s : Sync) (status : Status)
    → HasBytes s.em
    → Checked s (check_length (check_window s status).0)
checks-Checked s status h =
    let a = check_window-Checked s status h in
    let b = check_length-Checked (check_window s status).0 a.bytes in
    record {
      bytes = b.bytes;
      error = b.error ∙ a.error;
      timer = b.timer ∙ a.timer;
      timeout_error = b.timeout_error ∙ a.timeout_error;
      counter = b.counter ∙ a.counter;
    }

-- A message just received or sent is never taken for one outside the window.
window-fresh : (s : Sync) → s.timer ≡ 0 → (check_window s sync_rx_tx).1 ≡ sync_rx_tx
unfolding check_window
window-fresh s h = rw h (ground arith)

end-none : (s t : Sync) → end_timeout t (check_window s sync_none).1 ≡ t
unfolding check_window end_timeout
end-none s t =
    let w : ℕ = elim s.od_1007_window [ none ↦ 0 | some w ↦ w ] in
    elim (Bool-cases (ltb 0 w && ltb w s.timer)) [
      | inl e ↦ elim (Bool-cases s.sync_is_outside_window) [
        | inl f ↦ rw (e, f) refl
        | inr f ↦ rw (e, f) refl
      ]
      | inr e ↦ rw e refl
    ]

watch-late :
    (s : Sync) (period next : ℕ)
    → s.is_producer ≡ false
    → s.timeout_error ≡ 1
    → period_timeout period < s.timer
    → watch_period s sync_none period next ≡ record {
      sync = record s { em = (error s.em true 0x18 0x8100 s.timer).0; timeout_error = 2 };
      status = sync_none;
      events = [];
      timer_next = next;
    }
unfolding watch_period
watch-late s period next p t l =
    let e : ltb (period_timeout period) s.timer ≡ true = ground arith in rw (p, t, e) refl

-- A consumer that supervises SYNC messages, and that has received none for more than one and a half
-- periods, sets the SYNC timeout error in CO_SYNC_process and goes to the timeout state.
pub process-times_out :
    (s : Sync) (dt next : ℕ)
    → HasBytes s.em
    → s.is_producer ≡ false
    → s.timeout_error ≡ 1
    → s.can_rx_new ≡ false
    → 0 < s.od_1006_period
    → s.od_1006_period < 4294967296
    → s.timer + dt < 4294967296
    → s.od_1006_period + s.od_1006_period / 2 < s.timer + dt
    → (is_error (process s true dt next).sync.em 0x18 ≡ true)
      × ((process s true dt next).sync.timeout_error ≡ 2)
unfolding process
process-times_out s dt next h p t n pos small w late =
    let now = record s { timer = s.timer + dt } in
    let e : ltb 0 s.od_1006_period ≡ true = ground arith in
    let limit : period_timeout s.od_1006_period < s.timer + dt =
      omega (arith, period_timeout-min s.od_1006_period small) in
    let out = record now { em = (error s.em true 0x18 0x8100 now.timer).0; timeout_error = 2 } in
    let c = checks-Checked out sync_none (error-HasBytes s.em true 0x18 0x8100 now.timer h) in
    rw
      (
        take_received-none s dt n w,
        e,
        watch-late now s.od_1006_period next p t limit,
        end-none out (check_length (check_window out sync_none).0),
      )
      (
        c.error ∙ is_error-error s.em true 0x18 0x8100 now.timer 0x18 h (omega arith),
        c.timeout_error,
      )

take_received-some :
    (s : Sync) (dt : ℕ)
    → s.can_rx_new ≡ true
    → take_received s dt ≡ (record s { timer = 0; can_rx_new = false }, sync_rx_tx)
unfolding take_received
take_received-some s dt h = rw h refl

watch-recovering :
    (s : Sync) (period next : ℕ)
    → s.is_producer ≡ false
    → s.timeout_error ≡ 2
    → watch_period s sync_rx_tx period next
      ≡ record { sync = s; status = sync_rx_tx; events = []; timer_next = next }
unfolding watch_period
watch-recovering s period next p t = rw (p, t) refl

end-recovered :
    (s : Sync) (status : Status)
    → status ≡ sync_rx_tx
    → HasBytes s.em
    → s.timeout_error ≡ 2
    → (is_error (end_timeout s status).em 0x18 ≡ false) × ((end_timeout s status).timeout_error ≡ 1)
unfolding end_timeout
end-recovered s status e h t =
    rw (e, t) (is_error-error s.em false 0x18 0 0 0x18 h (omega arith), refl)

-- A consumer in the timeout state that has received a SYNC message clears the SYNC timeout error in
-- the next CO_SYNC_process and supervises the period again.
pub process-recovers :
    (s : Sync) (dt next : ℕ)
    → HasBytes s.em
    → s.is_producer ≡ false
    → s.timeout_error ≡ 2
    → s.can_rx_new ≡ true
    → (is_error (process s true dt next).sync.em 0x18 ≡ false)
      × ((process s true dt next).sync.timeout_error ≡ 1)
unfolding process
process-recovers s dt next h p t n =
    let now = record s { timer = 0; can_rx_new = false } in
    let c = checks-Checked now sync_rx_tx h in
    let done =
      end-recovered (check_length (check_window now sync_rx_tx).0) (check_window now sync_rx_tx).1
        (window-fresh now refl) c.bytes (c.timeout_error ∙ t) in
    elim (Bool-cases (ltb 0 s.od_1006_period)) [
      | inl e ↦
          rw (take_received-some s dt n, e, watch-recovering now s.od_1006_period next p t) done
      | inr e ↦ rw (take_received-some s dt n, e) done
    ]

watch-producer :
    (s : Sync) (period next : ℕ)
    → s.is_producer ≡ true
    → ((watch_period s sync_none period next).events ≡ (
        if leb period s.timer
        then sync_sent (next_counter s.counter_overflow_value s.counter) ∷ []
        else []))
      × ((watch_period s sync_none period next).sync.timer
          ≡ (if leb period s.timer then 0 else s.timer))
unfolding watch_period send
watch-producer s period next p = elim (Bool-cases (leb period s.timer)) [
  | inl e ↦ rw (p, e) (refl, refl)
  | inr e ↦ rw (p, e) (refl, refl)
]

end-timer : (s : Sync) (status : Status) → (end_timeout s status).timer ≡ s.timer
unfolding end_timeout
end-timer s sync_none = refl
end-timer s sync_rx_tx = refl
end-timer s sync_passed_window = refl

check-timer :
    (s : Sync) (status : Status) → (check_length (check_window s status).0).timer ≡ s.timer
unfolding check_window check_length
check-timer s status = ground arith

done-timer :
    (s : Sync) (status : Status)
    → (end_timeout (check_length (check_window s status).0) (check_window s status).1).timer
      ≡ s.timer
done-timer s status =
    end-timer (check_length (check_window s status).0) (check_window s status).1
    ∙ check-timer s status

-- A producer that has received nothing sends one SYNC message in CO_SYNC_process exactly when its
-- period is over, and its timer then starts again; else the timer goes on.
pub process-produces :
    (s : Sync) (dt next : ℕ)
    → s.is_producer ≡ true
    → s.can_rx_new ≡ false
    → 0 < s.od_1006_period
    → s.timer + dt < 4294967296
    → ((process s true dt next).events ≡ (
        if leb s.od_1006_period (s.timer + dt)
        then sync_sent (next_counter s.counter_overflow_value s.counter) ∷ []
        else []))
      × ((process s true dt next).sync.timer
          ≡ (if leb s.od_1006_period (s.timer + dt) then 0 else s.timer + dt))
unfolding process
process-produces s dt next p n pos w =
    let now = record s { timer = s.timer + dt } in
    let e : ltb 0 s.od_1006_period ≡ true = ground arith in
    let r = watch-producer now s.od_1006_period next p in
    let out = watch_period now sync_none s.od_1006_period next in
    rw (take_received-none s dt n w, e) (r.0, done-timer out.sync out.status ∙ r.1)
