-- ===== src/Emergency/Register.antt =====
-- The error register that CO_EM_process calculates from the error status bits.
use e_rob_canopen_node_demo.Base.{
  ℕ, ◌+◌, ◌*◌, ◌/◌, ◌%◌, ◌^◌, ◌<◌, ◌≡◌, refl, ◌∙◌, bit_or, Bool, true, false, not, ◌||◌, arith,
  get_or, ◌==◌, if◌then◌else◌, has,
}
use e_rob_canopen_node_demo.Base.Bits.{all_below, all_below_sound}
use e_rob_canopen_node_demo.Emergency.{Em, is_error}
use e_rob_canopen_node_demo.Emergency.Process.{calculate_register}
use e_rob_canopen_node_demo.Emergency.StatusBits.{HasBytes, is_error-below, same, same_sound}

-- Whether one of the eight errors from `first` on is set.
abbrev pub any_error : Em → ℕ → Bool
any_error em first =
    is_error em first
    || is_error em (first + 1)
    || is_error em (first + 2)
    || is_error em (first + 3)
    || is_error em (first + 4)
    || is_error em (first + 5)
    || is_error em (first + 6)
    || is_error em (first + 7)

abbrev any_bit : ℕ → Bool
any_bit byte =
    has byte (2 ^ 0)
    || has byte (2 ^ 1)
    || has byte (2 ^ 2)
    || has byte (2 ^ 3)
    || has byte (2 ^ 4)
    || has byte (2 ^ 5)
    || has byte (2 ^ 6)
    || has byte (2 ^ 7)

byte_table : all_below 256 (λ byte. same (not (byte == 0)) (any_bit byte)) ≡ true
unfolding all_below
byte_table = refl

byte_lem : (byte : ℕ) → byte < 256 → not (byte == 0) ≡ any_bit byte
byte_lem byte p = same_sound _ _ (all_below_sound 256 _ byte byte_table p)

error_at :
    (em : Em) (i j k : ℕ)
    → HasBytes em
    → i < 10
    → k < 8
    → j ≡ 8 * i + k
    → is_error em j ≡ has (get_or em.error_status_bits i 0) (2 ^ k)
error_at em i j k h p q e =
    let a : j / 8 ≡ i = omega arith in
    let b : j % 8 ≡ k = omega arith in is_error-below em j (omega arith) ∙ rw (a, b) refl

any_error-byte :
    (em : Em) (i : ℕ)
    → i < 10
    → HasBytes em
    → any_error em (8 * i) ≡ not (get_or em.error_status_bits i 0 == 0)
any_error-byte em i p h =
    rw
      (
        byte_lem (get_or em.error_status_bits i 0) (h.1 i),
        error_at em i (8 * i) 0 h p (omega arith) (omega arith),
        error_at em i (8 * i + 1) 1 h p (omega arith) (omega arith),
        error_at em i (8 * i + 2) 2 h p (omega arith) (omega arith),
        error_at em i (8 * i + 3) 3 h p (omega arith) (omega arith),
        error_at em i (8 * i + 4) 4 h p (omega arith) (omega arith),
        error_at em i (8 * i + 5) 5 h p (omega arith) (omega arith),
        error_at em i (8 * i + 6) 6 h p (omega arith) (omega arith),
        error_at em i (8 * i + 7) 7 h p (omega arith) (omega arith),
      )
      refl

bit_sum :
    (a b c : Bool)
    → (let x = if a then bit_or 0 0x01 else 0 in
        let y = if b then bit_or x 0x10 else x in if c then bit_or y 0x80 else y)
      ≡ (if a then 0x01 else 0) + (if b then 0x10 else 0) + (if c then 0x80 else 0)
bit_sum true true true = refl
bit_sum true true false = refl
bit_sum true false true = refl
bit_sum true false false = refl
bit_sum false true true = refl
bit_sum false true false = refl
bit_sum false false true = refl
bit_sum false false false = refl

-- The error register has the generic bit exactly where one of the errors 0x28 to 0x2F is set, the
-- communication bit where one of 0x10 to 0x1F is, the manufacturer bit where one of 0x40 to 0x4F is,
-- and no other bit.
pub calculate_register_lem :
    (em : Em)
    → HasBytes em
    → calculate_register em
      ≡ (if any_error em 0x28 then 0x01 else 0)
        + (if any_error em 0x10 || any_error em 0x18 then 0x10 else 0)
        + (if any_error em 0x40 || any_error em 0x48 then 0x80 else 0)
unfolding calculate_register
calculate_register_lem em h =
    rw
      (
        any_error-byte em 5 (omega arith) h,
        any_error-byte em 2 (omega arith) h,
        any_error-byte em 3 (omega arith) h,
        any_error-byte em 8 (omega arith) h,
        any_error-byte em 9 (omega arith) h,
      )
      (bit_sum (not (get_or em.error_status_bits 5 0 == 0))
        (not (get_or em.error_status_bits 2 0 == 0) || not (get_or em.error_status_bits 3 0 == 0))
        (not (get_or em.error_status_bits 8 0 == 0) || not (get_or em.error_status_bits 9 0 == 0)))
