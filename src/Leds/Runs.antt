-- ===== src/Leds/Runs.antt =====
-- The calls of `CO_LEDs_process`, one after another, and what the indicators show behind them.
use e_rob_canopen_node_demo.Base.{
  ℕ, ◌+◌, ◌-◌, ◌/◌, ◌≤◌, ◌<◌, ◌≡◌, refl, ap, ◌∙◌, inl, inr, bit_and, Bool, true, false, not, leb,
  ◌==◌, u32, arith, Bool-cases,
}
use e_rob_canopen_node_demo.Leds.{
  Leds, Inputs, init, loop, show, process, red_can_open, green_can_open, with_can_open, led_red,
  led_green, led_can_open,
}
use e_rob_canopen_node_demo.Leds.Ticks.{timer-round}
use e_rob_canopen_node_demo.Leds.Clock.{bit, red_bits, green_bits, at, IsCo, round-At}
use e_rob_canopen_node_demo.Leds.Patterns.{
  red_shows, green_shows, red_state, green_state, Red-Masked, Green-Masked,
}

-- Calls that have gone through `n` periods of 50 ms together, at most one of them in a call; `i` is
-- what the call at the last of them got.
pub data Ran : ℕ → Inputs → Leds → Type 0 where
  started : (i : Inputs) → Ran 0 i init
  waits :
      {n : ℕ} {i : Inputs} {s : Leds} (dt : ℕ) (j : Inputs)
      → Ran n i s
      → s.timer_50ms + dt < 50000
      → Ran n i (process s dt j)
  ticks :
      {n : ℕ} {i : Inputs} {s : Leds} (dt : ℕ) (j : Inputs)
      → Ran n i s
      → 50000 ≤ s.timer_50ms + dt
      → s.timer_50ms + dt < 100000
      → Ran (n + 1) j (process s dt j)

red-can_open :
    (i : Inputs) (n : ℕ)
    → with_can_open (red_can_open i (red_bits n)) (red_bits n)
      ≡ red_bits n + bit (red_shows i n) 128
red-can_open i n =
    let e =
      red_state n i.lss_config i.err_can_bus_off i.err_can_bus_warn i.err_rpdo i.err_sync
        i.err_hb_cons i.err_other i.firmware_download i.nmt_state in
    elim (Bool-cases (red_shows i n)) [
      | inl h ↦ rw (e, h) ((Red-Masked n).top)
      | inr h ↦ rw (e, h) (omega arith)
    ]

green-can_open :
    (i : Inputs) (n : ℕ)
    → with_can_open (green_can_open i (green_bits n)) (green_bits n)
      ≡ green_bits n + bit (green_shows i n) 128
green-can_open i n =
    let e =
      green_state n i.lss_config i.err_can_bus_off i.err_can_bus_warn i.err_rpdo i.err_sync
        i.err_hb_cons i.err_other i.firmware_download i.nmt_state in
    elim (Bool-cases (green_shows i n)) [
      | inl h ↦ rw (e, h) ((Green-Masked n).top)
      | inr h ↦ rw (e, h) (omega arith)
    ]

process-ticks :
    (n t red green dt : ℕ) (i : Inputs)
    → IsCo red
    → IsCo green
    → 50000 ≤ t + dt
    → t + dt < 100000
    → process (at n t red green) dt i
      ≡ at
          (n + 1)
          (t + dt - 50000)
          (bit (red_shows i (n + 1)) 128)
          (bit (green_shows i (n + 1)) 128)
unfolding process loop show
process-ticks n t red green dt i a b l m =
    let u : u32 (t + dt) ≡ t + dt = omega arith in
    let f : (t + dt) / 50000 ≡ 1 = omega arith in
    let g : leb 50000 (t + dt) ≡ true = ground arith in
    let h = round-At n (t + dt) red green a b in
    let k = timer-round (at n (t + dt) red green) in
    rw (u, f, g)
      (rw (k, h.two_hundred, h.flash_1, h.flash_2, h.flash_3, h.flash_4, h.reds, h.greens)
        (rw (red-can_open i (n + 1), green-can_open i (n + 1)) refl))

process-waits :
    (s : Leds) (dt : ℕ) (i : Inputs)
    → s.timer_50ms + dt < 50000
    → process s dt i ≡ record s { timer_50ms = s.timer_50ms + dt }
unfolding process loop show
process-waits s dt i l =
    let u : u32 (s.timer_50ms + dt) ≡ s.timer_50ms + dt = omega arith in
    let f : (s.timer_50ms + dt) / 50000 ≡ 0 = omega arith in rw (u, f) refl

-- The object is that of the clock after `n` periods, with the CANopen bits of the last inputs.
record Showing (n : ℕ) (i : Inputs) (s : Leds) : Type 0 where
  red : ℕ
  green : ℕ
  red_co : IsCo red
  green_co : IsCo green
  same : s ≡ at n s.timer_50ms red green
  lights : 0 < n → (red ≡ bit (red_shows i n) 128) × (green ≡ bit (green_shows i n) 128)

bit-IsCo : (a : Bool) → IsCo (bit a 128)
bit-IsCo true = inr refl
bit-IsCo false = inl refl

Ran-Showing : {n : ℕ} {i : Inputs} {s : Leds} → Ran n i s → Showing n i s
Ran-Showing (started i) = record {
  red = 0;
  green = 0;
  red_co = inl refl;
  green_co = inl refl;
  same = refl;
  lights = λ p. absurd (omega arith);
}
Ran-Showing (waits {n = n} {i = i} {s = s} dt j r l) =
    let h = Ran-Showing r in
    rw (process-waits s dt j l) (record {
      red = h.red;
      green = h.green;
      red_co = h.red_co;
      green_co = h.green_co;
      lights = h.lights;
      same = ap (λ (x : Leds). record x { timer_50ms = s.timer_50ms + dt }) h.same;
    })
Ran-Showing (ticks {n = n} {i = i} {s = s} dt j r l m) =
    let h = Ran-Showing r in
    let e =
      ap (λ (x : Leds). process x dt j) h.same
      ∙ process-ticks n s.timer_50ms h.red h.green dt j h.red_co h.green_co l m in
    rw e (record {
      red = bit (red_shows j (n + 1)) 128;
      green = bit (green_shows j (n + 1)) 128;
      red_co = bit-IsCo (red_shows j (n + 1));
      green_co = bit-IsCo (green_shows j (n + 1));
      same = refl;
      lights = λ _. (refl, refl);
    })

lit : (n : ℕ) (a : Bool) → not (bit_and (red_bits n + bit a 128) led_can_open == 0) ≡ a
lit n true = rw ((Red-Masked n).lit) refl
lit n false = let e : red_bits n + 0 ≡ red_bits n = omega arith in rw (e, (Red-Masked n).dark) refl

lit_green : (n : ℕ) (a : Bool) → not (bit_and (green_bits n + bit a 128) led_can_open == 0) ≡ a
lit_green n true = rw ((Green-Masked n).lit) refl
lit_green n false =
    let e : green_bits n + 0 ≡ green_bits n = omega arith in rw (e, (Green-Masked n).dark) refl

-- After calls from `CO_LEDs_init` on that have gone through `n` periods of 50 ms, at least one, and at
-- most one in a call, however long each call takes below that, the CANopen bits of both LEDs are what
-- the indicator table says for period `n` and the node as the call at the last period saw it: red is
-- on at bus off, flickers while the node initializes, flashes four, three, two or one times for a lost
-- RPDO, SYNC or heartbeat or the CAN warning, in this order, and blinks for another error; green
-- flickers in LSS configuration, flashes three times in a firmware download, once when stopped, blinks
-- when pre-operational and is on when operational, in the gaps of the red one.
pub Ran-shows :
    {n : ℕ} {i : Inputs} {s : Leds}
    → Ran n i s
    → 0 < n
    → (led_red s led_can_open ≡ red_shows i n) × (led_green s led_can_open ≡ green_shows i n)
Ran-shows {n = n} {i = i} {s = s} r p =
    let h = Ran-Showing r in
    let c = h.lights p in
    let x = ap (λ (t : Leds). led_red t led_can_open) h.same in
    let y = ap (λ (t : Leds). led_green t led_can_open) h.same in
    (
      x ∙ ap (λ k. not (bit_and (red_bits n + k) led_can_open == 0)) c.0 ∙ lit n (red_shows i n),
      y
          ∙ ap (λ k. not (bit_and (green_bits n + k) led_can_open == 0)) c.1
          ∙ lit_green n (green_shows i n),
    )
