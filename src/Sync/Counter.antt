-- ===== src/Sync/Counter.antt =====
-- The counter of the SYNC producer runs from 1 to the overflow value and starts again.
use e_rob_canopen_node_demo.Base.{
  ℕ, zero, suc, ◌+◌, ◌≤◌, ◌<◌, ◌≡◌, refl, ap, ◌∙◌, List, [], ◌∷◌, ◌++◌, not, arith,
}
use e_rob_canopen_node_demo.Sync.{Sync, Event, sync_sent, next_counter, send}

-- Several SYNC messages, one after the other.
abbrev pub send_many : ℕ → Sync → Sync × List Event
send_many zero s = (s, [])
send_many (suc n) s = let rest = send_many n (send s).0 in (rest.0, (send s).1 ++ rest.1)

-- The messages with the counters from one number on.
abbrev pub numbered : ℕ → ℕ → List Event
numbered from zero = []
numbered from (suc n) = sync_sent from ∷ numbered (from + 1) n

send-below :
    (s : Sync)
    → s.counter < s.counter_overflow_value
    → s.counter_overflow_value ≤ 240
    → send s ≡ (
      record s { counter = s.counter + 1; timer = 0; can_rx_toggle = not s.can_rx_toggle },
      sync_sent (s.counter + 1) ∷ [],
    )
unfolding send
send-below s h v =
    let e : next_counter s.counter_overflow_value s.counter ≡ s.counter + 1 = ground arith in
    rw e refl

send_many-counter :
    (n : ℕ) (s : Sync)
    → s.counter + n ≤ s.counter_overflow_value
    → s.counter_overflow_value ≤ 240
    → ((send_many n s).0.counter ≡ s.counter + n)
      × ((send_many n s).0.counter_overflow_value ≡ s.counter_overflow_value)
      × ((send_many n s).1 ≡ numbered (s.counter + 1) n)
send_many-counter zero s h v = (omega arith, refl, refl)
send_many-counter (suc n) s h v =
    let r =
      send_many-counter n
        (record s { counter = s.counter + 1; timer = 0; can_rx_toggle = not s.can_rx_toggle })
        (omega arith) v in
    rw (send-below s (omega arith) v) (omega (arith, r.0), r.1, rw r.2 refl)

wrap-eq :
    (s : Sync)
    → s.counter ≡ s.counter_overflow_value
    → 0 < s.counter_overflow_value
    → s.counter_overflow_value ≤ 240
    → send s
      ≡ (record s { counter = 1; timer = 0; can_rx_toggle = not s.can_rx_toggle }, sync_sent 1 ∷ [])
unfolding send
wrap-eq s e p v =
    let w : next_counter s.counter_overflow_value s.counter ≡ 1 = ground arith in rw w refl

-- A SYNC producer with overflow value V, 0 < V ≤ 240, whose counter is 0 sends the counters 1 to V
-- with its first V messages, and 1 again with the next one.
pub send_many-cycle :
    (s : Sync)
    → s.counter ≡ 0
    → 0 < s.counter_overflow_value
    → s.counter_overflow_value ≤ 240
    → ((send_many s.counter_overflow_value s).1 ≡ numbered 1 s.counter_overflow_value)
      × ((send (send_many s.counter_overflow_value s).0).1 ≡ sync_sent 1 ∷ [])
send_many-cycle s z p v =
    let r = send_many-counter s.counter_overflow_value s (omega arith) v in
    let from : s.counter + 1 ≡ 1 = omega arith in
    let t = (send_many s.counter_overflow_value s).0 in
    let w = wrap-eq t (omega (arith, r.0, r.1)) (omega (arith, r.1)) (omega (arith, r.1)) in
    (r.2 ∙ ap (λ k. numbered k s.counter_overflow_value) from, rw w refl)
