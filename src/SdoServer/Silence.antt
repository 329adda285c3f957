-- ===== src/SdoServer/Silence.antt =====
-- The timeout of the SDO server: a client that falls silent does not hold it.
use e_rob_canopen_node_demo.Base.{
  ℕ, zero, suc, ◌+◌, ◌*◌, ◌≤◌, ◌<◌, ◌≡◌, refl, ◌⊎◌, inl, inr, List, [], ◌∷◌, ◌++◌, true, false, leb,
  ltb, arith, u32, Bool-cases,
}
use e_rob_canopen_node_demo.SdoServer.{
  Server, State, idle, download_segment_req, upload_segment_req, Functions, Event, sent, ab_timeout,
}
use e_rob_canopen_node_demo.SdoServer.Process.{
  process, conclude, time_out, respond, send_abort, waiting_response, ok_communication_end,
  ended_with_server_abort, header, bytes32,
}

-- `n` calls, `dt` microseconds apart, while nothing is received: the server behind them, and what it sends.
unfoldable pub silent : Functions → ℕ → ℕ → Server → Server × List Event
silent fns zero dt s = (s, [])
silent fns (suc n) dt s =
    let a = process fns s true dt false in
    let rest = silent fns n dt a.server in (rest.0, a.events ++ rest.1)

-- The states in which the server waits for the next segment, or for a request of it.
abbrev pub IsWaiting : State → Type 0
IsWaiting state = (state ≡ download_segment_req) ⊎ (state ≡ upload_segment_req)

abbrev pub abort_message : Server → ℕ → Event
abort_message s code = sent (header s 0x80 (bytes32 code))

process_waits :
    (fns : Functions) (s : Server) (dt : ℕ)
    → IsWaiting s.state
    → s.valid ≡ true
    → s.can_rx_new ≡ false
    → s.timeout_timer + dt < s.timeout_time_us
    → s.timeout_time_us < 0x100000000
    → process fns s true dt false ≡ record {
      server = record s { timeout_timer = s.timeout_timer + dt };
      code = 0;
      ret = waiting_response;
      events = [];
    }
unfolding process conclude time_out respond send_abort
process_waits fns s dt i va rx p w =
    let y : ltb s.timeout_timer s.timeout_time_us ≡ true = ground arith in
    let u : u32 (s.timeout_timer + dt) ≡ s.timeout_timer + dt = omega arith in
    let z : leb s.timeout_time_us (s.timeout_timer + dt) ≡ false = ground arith in
    elim i [ inl e ↦ rw (e, va, rx, y, u, z) refl | inr e ↦ rw (e, va, rx, y, u, z) refl ]

process_ends :
    (fns : Functions) (s : Server) (dt : ℕ)
    → IsWaiting s.state
    → s.valid ≡ true
    → s.can_rx_new ≡ false
    → s.timeout_timer < s.timeout_time_us
    → s.timeout_time_us ≤ s.timeout_timer + dt
    → s.timeout_timer + dt < 0x100000000
    → process fns s true dt false ≡ record {
      server = record s { timeout_timer = s.timeout_timer + dt; state = idle };
      code = ab_timeout;
      ret = ended_with_server_abort;
      events = abort_message s ab_timeout ∷ [];
    }
unfolding process conclude time_out respond send_abort
process_ends fns s dt i va rx p q w =
    let y : ltb s.timeout_timer s.timeout_time_us ≡ true = ground arith in
    let u : u32 (s.timeout_timer + dt) ≡ s.timeout_timer + dt = omega arith in
    let z : leb s.timeout_time_us (s.timeout_timer + dt) ≡ true = ground arith in
    elim i [ inl e ↦ rw (e, va, rx, y, u, z) refl | inr e ↦ rw (e, va, rx, y, u, z) refl ]

process_rests :
    (fns : Functions) (s : Server) (dt : ℕ)
    → s.state ≡ idle
    → s.valid ≡ true
    → s.can_rx_new ≡ false
    → process fns s true dt false
      ≡ record { server = s; code = 0; ret = ok_communication_end; events = [] }
unfolding process
process_rests fns s dt e va rx = rw (e, va, rx) refl

silent_rests :
    (fns : Functions) (n dt : ℕ) (s : Server)
    → s.state ≡ idle
    → s.valid ≡ true
    → s.can_rx_new ≡ false
    → silent fns n dt s ≡ (s, [])
unfolding silent
silent_rests fns zero dt s e va rx = refl
silent_rests fns (suc n) dt s e va rx =
    rw (process_rests fns s dt e va rx) (silent_rests fns n dt s e va rx)

-- A client that falls silent in a segmented transfer, while `n` calls follow one another `dt`
-- microseconds apart for at least the time that is left of the timeout: the server is idle behind
-- them, and it has sent one message only, the abort of that object with the code of the timeout.
-- The times stay below 2^31 microseconds.
pub silent_ends :
    (fns : Functions) (n dt : ℕ) (s : Server)
    → IsWaiting s.state
    → s.valid ≡ true
    → s.can_rx_new ≡ false
    → s.timeout_timer < s.timeout_time_us
    → s.timeout_time_us < 0x80000000
    → dt < 0x80000000
    → s.timeout_time_us ≤ s.timeout_timer + n * dt
    → let out = silent fns n dt s in
      (out.0.state ≡ idle) × (out.0.memory ≡ s.memory) × (out.1 ≡ abort_message s ab_timeout ∷ [])
unfolding silent
silent_ends fns zero dt s i va rx p w d q = absurd (omega arith)
silent_ends fns (suc n) dt s i va rx p w d q =
    elim (Bool-cases (leb s.timeout_time_us (s.timeout_timer + dt))) [
      | inl e ↦ rw (process_ends fns s dt i va rx p (ground arith) (omega arith)) (
          rw
            (silent_rests fns n dt (record s { timeout_timer = s.timeout_timer + dt; state = idle })
              refl va rx)
            (refl, refl, refl))
      | inr e ↦
          let m : suc n * dt ≡ dt + n * dt = omega arith in
          let h : s.timeout_timer + dt < s.timeout_time_us = ground arith in
          rw (process_waits fns s dt i va rx h (omega arith)) (
            silent_ends fns n dt (record s { timeout_timer = s.timeout_timer + dt }) i va rx h w d
              (omega arith))
    ]
