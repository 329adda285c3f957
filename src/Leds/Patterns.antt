-- ===== src/Leds/Patterns.antt =====
-- What the indicators for CANopen show, as CiA 303-3 has it.
use e_rob_canopen_node_demo.Base.{
  ℕ, ◌+◌, ◌*◌, ◌/◌, ◌%◌, ◌<◌, ◌≡◌, refl, ◌∙◌, bit_and, bit_or, Bool, true, false, not, ◌&&◌, ltb,
  leb, ◌==◌, if◌then◌else◌, arith,
}
use e_rob_canopen_node_demo.Base.Bits.{all_below, all_below_sound}
use e_rob_canopen_node_demo.Nmt.{State, initializing, pre_operational, operational, stopped}
use e_rob_canopen_node_demo.Leds.{
  Inputs, red_can_open, green_can_open, led_blink, led_flash_1, led_flash_2, led_flash_3,
  led_flash_4,
}
use e_rob_canopen_node_demo.Leds.Clock.{bit, is_flash, is_gap, red_bits, green_bits}

-- The red LED after `n` periods of 50 ms: it flickers every period, blinks and flashes in steps of four.
abbrev pub red_shows : Inputs → ℕ → Bool
red_shows i n = if i.err_can_bus_off then true else elim i.nmt_state [
  | initializing ↦ n % 2 == 1
  | _ ↦
      if i.err_rpdo
      then is_flash 4 (n / 4)
      else if i.err_sync
      then is_flash 3 (n / 4)
      else if i.err_hb_cons
      then is_flash 2 (n / 4)
      else if i.err_can_bus_warn
      then is_flash 1 (n / 4)
      else i.err_other && (n / 4 % 2 == 1)
]

-- The green LED, which is on in the gaps of the red one.
abbrev pub green_shows : Inputs → ℕ → Bool
green_shows i n =
    if i.lss_config
    then ltb 0 n && (n % 2 == 0)
    else if i.firmware_download
    then is_gap 3 (n / 4)
    else elim i.nmt_state [
      | stopped ↦ is_gap 1 (n / 4)
      | pre_operational ↦ leb 4 n && (n / 4 % 2 == 0)
      | operational ↦ true
      | initializing ↦ false
    ]

-- Six bits as a number.
abbrev pub bits6 : Bool → Bool → Bool → Bool → Bool → Bool → ℕ
bits6 a b c d e f = bit a 1 + bit b 2 + bit c 4 + bit d 8 + bit e 16 + bit f 32

pub record Masked (a b c d e f : Bool) : Type 0 where
  pub m1 : bit_and (bits6 a b c d e f) 0x01 ≡ bit a 1
  pub m2 : bit_and (bits6 a b c d e f) 0x02 ≡ bit b 2
  pub m4 : bit_and (bits6 a b c d e f) 0x04 ≡ bit c 4
  pub m8 : bit_and (bits6 a b c d e f) 0x08 ≡ bit d 8
  pub m16 : bit_and (bits6 a b c d e f) 0x10 ≡ bit e 16
  pub m32 : bit_and (bits6 a b c d e f) 0x20 ≡ bit f 32
  pub top : bit_or (bits6 a b c d e f) 0x80 ≡ bits6 a b c d e f + 128
  pub dark : bit_and (bits6 a b c d e f) 0x80 ≡ 0
  pub lit : bit_and (bits6 a b c d e f + 128) 0x80 ≡ 128

abbrev digit : ℕ → ℕ → ℕ
digit n mask = n / mask % 2 * mask

bit_lem : (a : Bool) (mask : ℕ) → bit a mask ≡ bit a 1 * mask
bit_lem true mask = omega arith
bit_lem false mask = omega arith

bit_below : (a : Bool) → bit a 1 < 2
bit_below true = omega arith
bit_below false = omega arith

module _ (a b c d e f : Bool) where
  -- The six bits as digits.
  record Digits : Type 0 where
    d1 : digit (bits6 a b c d e f) 1 ≡ bit a 1
    d2 : digit (bits6 a b c d e f) 2 ≡ bit b 2
    d4 : digit (bits6 a b c d e f) 4 ≡ bit c 4
    d8 : digit (bits6 a b c d e f) 8 ≡ bit d 8
    d16 : digit (bits6 a b c d e f) 16 ≡ bit e 16
    d32 : digit (bits6 a b c d e f) 32 ≡ bit f 32
    below : bits6 a b c d e f < 64

  Digits-all : Digits
  Digits-all =
      let xb = bit_lem b 2 in
      let xc = bit_lem c 4 in
      let xd = bit_lem d 8 in
      let xe = bit_lem e 16 in
      let xf = bit_lem f 32 in
      let la = bit_below a in
      let lb = bit_below b in
      let lc = bit_below c in
      let ld = bit_below d in
      let le = bit_below e in
      let lf = bit_below f in
      record {
        d1 = omega arith;
        d2 = omega arith;
        d4 = omega arith;
        d8 = omega arith;
        d16 = omega arith;
        d32 = omega arith;
        below = omega arith;
      }

  for_each :
      (left right : ℕ → ℕ)
      → all_below 64 (λ n. left n == right n) ≡ true
      → left (bits6 a b c d e f) ≡ right (bits6 a b c d e f)
  for_each left right h =
      let e : (left (bits6 a b c d e f) == right (bits6 a b c d e f)) ≡ true =
        all_below_sound 64 (λ n. left n == right n) (bits6 a b c d e f) h Digits-all.below in
      ground arith

  Masked-all : Masked a b c d e f
  unfolding all_below
  Masked-all =
      let s = Digits-all in
      record {
        m1 = for_each (λ n. bit_and n 0x01) (λ n. digit n 1) refl ∙ s.d1;
        m2 = for_each (λ n. bit_and n 0x02) (λ n. digit n 2) refl ∙ s.d2;
        m4 = for_each (λ n. bit_and n 0x04) (λ n. digit n 4) refl ∙ s.d4;
        m8 = for_each (λ n. bit_and n 0x08) (λ n. digit n 8) refl ∙ s.d8;
        m16 = for_each (λ n. bit_and n 0x10) (λ n. digit n 16) refl ∙ s.d16;
        m32 = for_each (λ n. bit_and n 0x20) (λ n. digit n 32) refl ∙ s.d32;
        top = for_each (λ n. bit_or n 0x80) (λ n. n + 128) refl;
        dark = for_each (λ n. bit_and n 0x80) (λ n. 0) refl;
        lit = for_each (λ n. bit_and (n + 128) 0x80) (λ n. 128) refl;
      }

bit_zero : (a : Bool) (mask : ℕ) → 0 < mask → (bit a mask == 0) ≡ not a
bit_zero true mask p = ground arith
bit_zero false mask p = refl

pub Red-Masked :
    (n : ℕ)
    → Masked
        (n % 2 == 1)
        (n / 4 % 2 == 1)
        (is_flash 1 (n / 4))
        (is_flash 2 (n / 4))
        (is_flash 3 (n / 4))
        (is_flash 4 (n / 4))
Red-Masked n = Masked-all _ _ _ _ _ _

pub Green-Masked :
    (n : ℕ)
    → Masked
        (ltb 0 n && (n % 2 == 0))
        (leb 4 n && (n / 4 % 2 == 0))
        (is_gap 1 (n / 4))
        (is_gap 2 (n / 4))
        (is_gap 3 (n / 4))
        (is_gap 4 (n / 4))
Green-Masked n = Masked-all _ _ _ _ _ _

-- The errors in the order of their priority.
errors :
    (n : ℕ) (rpdo sync hb warn other : Bool)
    → ((if rpdo
          then bit_and (red_bits n) led_flash_4
          else if sync
          then bit_and (red_bits n) led_flash_3
          else if hb
          then bit_and (red_bits n) led_flash_2
          else if warn
          then bit_and (red_bits n) led_flash_1
          else if other
          then bit_and (red_bits n) led_blink
          else 0)
        == 0)
      ≡ not (
          if rpdo
          then is_flash 4 (n / 4)
          else if sync
          then is_flash 3 (n / 4)
          else if hb
          then is_flash 2 (n / 4)
          else if warn
          then is_flash 1 (n / 4)
          else other && (n / 4 % 2 == 1))
errors n true sync hb warn other =
    rw ((Red-Masked n).m32) (bit_zero (is_flash 4 (n / 4)) 32 (omega arith))
errors n false true hb warn other =
    rw ((Red-Masked n).m16) (bit_zero (is_flash 3 (n / 4)) 16 (omega arith))
errors n false false true warn other =
    rw ((Red-Masked n).m8) (bit_zero (is_flash 2 (n / 4)) 8 (omega arith))
errors n false false false true other =
    rw ((Red-Masked n).m4) (bit_zero (is_flash 1 (n / 4)) 4 (omega arith))
errors n false false false false true =
    rw ((Red-Masked n).m2) (bit_zero (n / 4 % 2 == 1) 2 (omega arith))
errors n false false false false false = refl

pub red_state :
    (n : ℕ) (lss off warn rpdo sync hb other fw : Bool) (state : State)
    → let i : Inputs = record {
      nmt_state = state;
      lss_config = lss;
      err_can_bus_off = off;
      err_can_bus_warn = warn;
      err_rpdo = rpdo;
      err_sync = sync;
      err_hb_cons = hb;
      err_other = other;
      firmware_download = fw;
    } in
      (red_can_open i (red_bits n) == 0) ≡ not (red_shows i n)
unfolding red_can_open
red_state n lss true warn rpdo sync hb other fw state = refl
red_state n lss false warn rpdo sync hb other fw initializing =
    rw ((Red-Masked n).m1) (bit_zero (n % 2 == 1) 1 (omega arith))
red_state n lss false warn rpdo sync hb other fw pre_operational = errors n rpdo sync hb warn other
red_state n lss false warn rpdo sync hb other fw operational = errors n rpdo sync hb warn other
red_state n lss false warn rpdo sync hb other fw stopped = errors n rpdo sync hb warn other

pub green_state :
    (n : ℕ) (lss off warn rpdo sync hb other fw : Bool) (state : State)
    → let i : Inputs = record {
      nmt_state = state;
      lss_config = lss;
      err_can_bus_off = off;
      err_can_bus_warn = warn;
      err_rpdo = rpdo;
      err_sync = sync;
      err_hb_cons = hb;
      err_other = other;
      firmware_download = fw;
    } in
      (green_can_open i (green_bits n) == 0) ≡ not (green_shows i n)
unfolding green_can_open
green_state n true off warn rpdo sync hb other fw state =
    rw ((Green-Masked n).m1) (bit_zero (ltb 0 n && (n % 2 == 0)) 1 (omega arith))
green_state n false off warn rpdo sync hb other true state =
    rw ((Green-Masked n).m16) (bit_zero (is_gap 3 (n / 4)) 16 (omega arith))
green_state n false off warn rpdo sync hb other false initializing = refl
green_state n false off warn rpdo sync hb other false pre_operational =
    rw ((Green-Masked n).m2) (bit_zero (leb 4 n && (n / 4 % 2 == 0)) 2 (omega arith))
green_state n false off warn rpdo sync hb other false operational = refl
green_state n false off warn rpdo sync hb other false stopped =
    rw ((Green-Masked n).m4) (bit_zero (is_gap 1 (n / 4)) 4 (omega arith))
