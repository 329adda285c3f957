-- ===== src/Leds/Ticks.antt =====
-- The loop of `CO_LEDs_process` over the periods of 50 ms.
use e_rob_canopen_node_demo.Base.{
  ℕ, zero, suc, ◌+◌, ◌-◌, ◌/◌, ◌%◌, ◌≤◌, ◌<◌, ◌≡◌, refl, ap, ◌∙◌, inl, inr, bit_and, Option, none,
  some, ltb, leb, ◌==◌, u32, u8, arith, Bool-cases,
}
use e_rob_canopen_node_demo.Leds.{Leds, Inputs, blink, round, loop, show, process, led_flicker}

-- A round takes 50 ms off the timer, which nothing else in it reads.
pub round-timer :
    (s : Leds) (t : ℕ)
    → round (record s { timer_50ms = t })
      ≡ (record (round s).0 { timer_50ms = t - 50000 }, (round s).1, (round s).2)
unfolding round blink
round-timer s t = elim (Bool-cases (ltb 3 (u8 (s.timer_200ms + 1)))) [
  | inl e ↦ elim (Bool-cases (bit_and s.red led_flicker == 0)) [
    | inl f ↦ rw (e, f) refl
    | inr f ↦ rw (e, f) refl
  ]
  | inr e ↦ elim (Bool-cases (bit_and s.red led_flicker == 0)) [
    | inl f ↦ rw (e, f) refl
    | inr f ↦ rw (e, f) refl
  ]
]

pub timer-round : (s : Leds) → (round s).0.timer_50ms ≡ s.timer_50ms - 50000
timer-round s = ap (λ r. r.0.timer_50ms) (round-timer s s.timer_50ms)

loop-timer :
    (fuel : ℕ) (s : Leds) (bits : Option (ℕ × ℕ))
    → s.timer_50ms / 50000 ≤ fuel
    → (loop fuel s bits).0.timer_50ms ≡ s.timer_50ms % 50000
unfolding loop
loop-timer zero s bits h = omega arith
loop-timer (suc fuel) s bits h = elim (Bool-cases (leb 50000 s.timer_50ms)) [
  | inl e ↦
      let g : 50000 ≤ s.timer_50ms = ground arith in
      let t = timer-round s in
      rw e
        (loop-timer fuel (round s).0 (some ((round s).1, (round s).2)) (omega arith) ∙ omega arith)
  | inr e ↦ let g : s.timer_50ms < 50000 = ground arith in rw e (omega arith)
]

timer-show : (i : Inputs) (r : Leds × Option (ℕ × ℕ)) → (show i r).timer_50ms ≡ r.0.timer_50ms
unfolding show
timer-show i (s, none) = refl
timer-show i (s, some bits) = refl

-- `CO_LEDs_process` goes through its loop until less than 50 ms are left: the timer behind the call is
-- the rest of the time that has come together, divided by 50 ms, for every state, time and input. So
-- the fuel of the loop is enough.
pub timer-process :
    (s : Leds) (dt : ℕ) (i : Inputs) → (process s dt i).timer_50ms ≡ u32 (s.timer_50ms + dt) % 50000
unfolding process
timer-process s dt i =
    let t : ℕ = u32 (s.timer_50ms + dt) in
    timer-show i (loop (t / 50000) (record s { timer_50ms = t }) none)
    ∙ loop-timer (t / 50000) (record s { timer_50ms = t }) none (omega arith)
