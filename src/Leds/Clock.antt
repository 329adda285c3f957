-- ===== src/Leds/Clock.antt =====
-- The state of the indicators after a number of periods of 50 ms.
use e_rob_canopen_node_demo.Base.{
  ℕ, ◌+◌, ◌-◌, ◌*◌, ◌/◌, ◌%◌, ◌≤◌, ◌<◌, ◌≡◌, refl, ◌⊎◌, inl, inr, Bool, true, ◌&&◌, ltb, leb, ◌==◌,
  if◌then◌else◌, arith, Bool-cases,
}
use e_rob_canopen_node_demo.Base.Bits.{all_below, all_below_sound}
use e_rob_canopen_node_demo.Leds.Ticks.{round-timer}
use e_rob_canopen_node_demo.Leds.{Leds, flash, blink, round}

abbrev pub bit : Bool → ℕ → ℕ
bit on mask = if on then mask else 0

-- An LED that flashes `count` times, in step `k` of 200 ms, and between its flashes.
abbrev pub is_flash : ℕ → ℕ → Bool
is_flash count k = (k % (2 * count + 4) % 2 == 1) && ltb (k % (2 * count + 4)) (2 * count)

abbrev pub is_gap : ℕ → ℕ → Bool
is_gap count k =
    (k % (2 * count + 4) % 2 == 0)
    && ltb 0 (k % (2 * count + 4))
    && leb (k % (2 * count + 4)) (2 * count)

-- The bits of the LEDs after `n` periods.
abbrev pub red_bits : ℕ → ℕ
red_bits n =
    bit (n % 2 == 1) 1
    + bit (n / 4 % 2 == 1) 2
    + bit (is_flash 1 (n / 4)) 4
    + bit (is_flash 2 (n / 4)) 8
    + bit (is_flash 3 (n / 4)) 16
    + bit (is_flash 4 (n / 4)) 32

abbrev pub green_bits : ℕ → ℕ
green_bits n =
    bit (ltb 0 n && (n % 2 == 0)) 1
    + bit (leb 4 n && (n / 4 % 2 == 0)) 2
    + bit (is_gap 1 (n / 4)) 4
    + bit (is_gap 2 (n / 4)) 8
    + bit (is_gap 3 (n / 4)) 16
    + bit (is_gap 4 (n / 4)) 32

abbrev pub at : ℕ → ℕ → ℕ → ℕ → Leds
at n timer red green = record {
  timer_50ms = timer;
  timer_200ms = n % 4;
  timer_flash_1 = n / 4 % 6;
  timer_flash_2 = n / 4 % 8;
  timer_flash_3 = n / 4 % 10;
  timer_flash_4 = n / 4 % 12;
  red = red_bits n + red;
  green = green_bits n + green;
}

abbrev is_at : ℕ → Leds × ℕ × ℕ → Bool
is_at n r =
    (r.0.timer_200ms == n % 4)
    && (r.0.timer_flash_1 == n / 4 % 6)
    && (r.0.timer_flash_2 == n / 4 % 8)
    && (r.0.timer_flash_3 == n / 4 % 10)
    && (r.0.timer_flash_4 == n / 4 % 12)
    && (r.1 == red_bits n)
    && (r.2 == green_bits n)

abbrev steps : ℕ → ℕ → ℕ → Bool
steps red green n = is_at (n + 1) (round (at n 50000 red green))

all_step :
    (all_below 484 (steps 0 0) ≡ true)
    × (all_below 484 (steps 128 0) ≡ true)
    × (all_below 484 (steps 0 128) ≡ true)
    × (all_below 484 (steps 128 128) ≡ true)
unfolding all_below round blink flash
all_step = (refl, refl, refl, refl)

-- The patterns come again after 480 periods, once the first 200 ms are over.
record Alike (n m : ℕ) : Type 0 where
  two : n % 2 ≡ m % 2
  four : n % 4 ≡ m % 4
  blinks : n / 4 % 2 ≡ m / 4 % 2
  six : n / 4 % 6 ≡ m / 4 % 6
  eight : n / 4 % 8 ≡ m / 4 % 8
  ten : n / 4 % 10 ≡ m / 4 % 10
  twelve : n / 4 % 12 ≡ m / 4 % 12
  begun : ltb 0 n ≡ ltb 0 m
  past : leb 4 n ≡ leb 4 m

Alike-at : (n m timer red green : ℕ) → Alike n m → at n timer red green ≡ at m timer red green
Alike-at n m timer red green h =
    rw (h.two, h.four, h.blinks, h.six, h.eight, h.ten, h.twelve, h.begun, h.past) refl

abbrev phase : ℕ → ℕ
phase n = if ltb n 4 then n else 4 + (n - 4) % 480

Alike-later : (n m : ℕ) → 4 ≤ n → 4 ≤ m → n % 480 ≡ m % 480 → Alike n m
Alike-later n m a b e = record {
  two = omega arith;
  four = omega arith;
  blinks = omega arith;
  six = omega arith;
  eight = omega arith;
  ten = omega arith;
  twelve = omega arith;
  begun = ground arith;
  past = ground arith;
}

abbrev pub IsCo : ℕ → Type 0
IsCo mask = (mask ≡ 0) ⊎ (mask ≡ 128)

is_at-early :
    (n red green : ℕ)
    → IsCo red
    → IsCo green
    → n < 484
    → is_at (n + 1) (round (at n 50000 red green)) ≡ true
is_at-early n red green (inl a) (inl b) h =
    rw (a, b) (all_below_sound 484 (steps 0 0) n all_step.0 h)
is_at-early n red green (inr a) (inl b) h =
    rw (a, b) (all_below_sound 484 (steps 128 0) n all_step.1 h)
is_at-early n red green (inl a) (inr b) h =
    rw (a, b) (all_below_sound 484 (steps 0 128) n all_step.2 h)
is_at-early n red green (inr a) (inr b) h =
    rw (a, b) (all_below_sound 484 (steps 128 128) n all_step.3 h)

is_at-any :
    (n red green : ℕ) → IsCo red → IsCo green → is_at (n + 1) (round (at n 50000 red green)) ≡ true
is_at-any n red green a b = elim (Bool-cases (ltb n 484)) [
  | inl e ↦ is_at-early n red green a b (ground arith)
  | inr e ↦
      let h : 484 ≤ n = ground arith in
      let m : ℕ = 4 + (n - 4) % 480 in
      let l = Alike-later n m (omega arith) (omega arith) (omega arith) in
      let k = Alike-later (n + 1) (m + 1) (omega arith) (omega arith) (omega arith) in
      rw
        (
          Alike-at n m 50000 red green l,
          k.two,
          k.four,
          k.blinks,
          k.six,
          k.eight,
          k.ten,
          k.twelve,
          k.begun,
          k.past,
        )
        (is_at-early m red green a b (omega arith))
]

-- The counters and bits that a round leaves are those of one period more.
pub record At (n : ℕ) (r : Leds × ℕ × ℕ) : Type 0 where
  pub two_hundred : r.0.timer_200ms ≡ n % 4
  pub flash_1 : r.0.timer_flash_1 ≡ n / 4 % 6
  pub flash_2 : r.0.timer_flash_2 ≡ n / 4 % 8
  pub flash_3 : r.0.timer_flash_3 ≡ n / 4 % 10
  pub flash_4 : r.0.timer_flash_4 ≡ n / 4 % 12
  pub reds : r.1 ≡ red_bits n
  pub greens : r.2 ≡ green_bits n

same-all :
    (a b c d e f g a' b' c' d' e' f' g' : ℕ)
    → ((a == a') && (b == b') && (c == c') && (d == d') && (e == e') && (f == f') && (g == g'))
      ≡ true
    → (a ≡ a') × (b ≡ b') × (c ≡ c') × (d ≡ d') × (e ≡ e') × (f ≡ f') × (g ≡ g')
same-all a b c d e f g a' b' c' d' e' f' g' h = (
  ground arith,
  ground arith,
  ground arith,
  ground arith,
  ground arith,
  ground arith,
  ground arith,
)

At-checked : (n : ℕ) (r : Leds × ℕ × ℕ) → is_at n r ≡ true → At n r
At-checked n r h =
    let s =
      same-all r.0.timer_200ms r.0.timer_flash_1 r.0.timer_flash_2 r.0.timer_flash_3
        r.0.timer_flash_4 r.1 r.2 (n % 4) (n / 4 % 6) (n / 4 % 8) (n / 4 % 10) (n / 4 % 12)
        (red_bits n) (green_bits n) h in
    record {
      two_hundred = s.0;
      flash_1 = s.1;
      flash_2 = s.2;
      flash_3 = s.3;
      flash_4 = s.4;
      reds = s.5;
      greens = s.6;
    }

pub round-At : (n t red green : ℕ) → IsCo red → IsCo green → At (n + 1) (round (at n t red green))
round-At n t red green a b =
    let h = At-checked (n + 1) (round (at n 50000 red green)) (is_at-any n red green a b) in
    rw (round-timer (at n 50000 red green) t) (record {
      two_hundred = h.two_hundred;
      flash_1 = h.flash_1;
      flash_2 = h.flash_2;
      flash_3 = h.flash_3;
      flash_4 = h.flash_4;
      reds = h.reds;
      greens = h.greens;
    })
