-- ===== src/Base/Bits.antt =====
-- Bit operations at variables: their law for the lowest digit, and evaluation over small ranges.
use Prim.Native.Nat.{
  ℕ, zero, suc, ◌+◌, ◌*◌, ◌/◌, ◌%◌, ◌^◌, ◌≤◌, ◌<◌, bit_xor, digits, differ, bit_xor-bitwise,
}
use native.Mathlib.Nat.{one-le-pow, pow-suc, div-div-eq-div-mul}
use mathlib.Core.Path.{◌≡◌, refl, ap, sym, ◌∙◌}
use mathlib.Core.Bool.{Bool, true, ◌&&◌}
use native.Mathlib.Omega.{arith}

-- A test of every number below a bound, for statements that evaluation settles.
unfoldable pub all_below : ℕ → (ℕ → Bool) → Bool
all_below zero test = true
all_below (suc bound) test = all_below bound test && test bound

pub all_below_sound :
    (bound : ℕ) (test : ℕ → Bool) (k : ℕ) → all_below bound test ≡ true → k < bound → test k ≡ true
unfolding all_below
all_below_sound zero test k passed inside = absurd (omega arith)
all_below_sound (suc bound) test k passed inside = ground (arith, all_below_sound bound test k)

-- The law of `bit_xor` for the lowest digit, without the fuel of its definition.
digits_fuel :
    (z : ℕ → ℕ) (f : ℕ → ℕ → ℕ) (fuel more a b : ℕ)
    → a ≤ fuel
    → a ≤ more
    → digits z f fuel a b ≡ digits z f more a b
digits_fuel z f zero zero a b enough enough2 = refl
digits_fuel z f zero (suc more) zero b enough enough2 = refl
digits_fuel z f zero (suc more) (suc a) b enough enough2 = absurd (omega arith)
digits_fuel z f (suc fuel) zero zero b enough enough2 = refl
digits_fuel z f (suc fuel) zero (suc a) b enough enough2 = absurd (omega arith)
digits_fuel z f (suc fuel) (suc more) zero b enough enough2 = refl
digits_fuel z f (suc fuel) (suc more) (suc a) b enough enough2 =
    rw (digits_fuel z f fuel more (suc a / 2) (b / 2) (omega arith) (omega arith))

differ_digits : (x y : ℕ) → x < 2 → y < 2 → differ x y ≡ (x + y) % 2
differ_digits zero y p q = omega arith
differ_digits (suc zero) zero p q = refl
differ_digits (suc zero) (suc zero) p q = refl
differ_digits (suc zero) (suc (suc y)) p q = absurd (omega arith)
differ_digits (suc (suc x)) y p q = absurd (omega arith)

pub bit_xor_step : (a b : ℕ) → bit_xor a b ≡ bit_xor (a / 2) (b / 2) * 2 + (a % 2 + b % 2) % 2
bit_xor_step zero b = simp bit_xor-bitwise (omega arith)
bit_xor_step (suc a) b = omega (
  arith,
  bit_xor-bitwise (suc a) b,
  bit_xor-bitwise (suc a / 2) (b / 2),
  digits_fuel (λ y. y) differ a (suc a / 2) (suc a / 2) (b / 2) (omega arith) (omega arith),
  differ_digits (suc a % 2) (b % 2) (omega arith) (omega arith),
)

pub zero-xor : (b : ℕ) → bit_xor 0 b ≡ b
zero-xor b = bit_xor-bitwise 0 b

xor_comm_fuel : (n a b : ℕ) → a ≤ n → b ≤ n → bit_xor a b ≡ bit_xor b a
xor_comm_fuel zero zero zero p q = refl
xor_comm_fuel zero zero (suc b) p q = absurd (omega arith)
xor_comm_fuel zero (suc a) b p q = absurd (omega arith)
xor_comm_fuel (suc n) a b p q = omega (
  arith,
  bit_xor_step a b,
  bit_xor_step b a,
  xor_comm_fuel n (a / 2) (b / 2) (omega arith) (omega arith),
)

pub xor_comm : (a b : ℕ) → bit_xor a b ≡ bit_xor b a
xor_comm a b = xor_comm_fuel (a + b) a b (omega arith) (omega arith)

pub xor-zero : (a : ℕ) → bit_xor a 0 ≡ a
xor-zero a = omega (arith, xor_comm a 0, zero-xor a)

xor_assoc_fuel :
    (n a b c : ℕ) → a ≤ n → b ≤ n → c ≤ n → bit_xor (bit_xor a b) c ≡ bit_xor a (bit_xor b c)
xor_assoc_fuel zero zero b c p q r = rw (zero-xor, zero-xor)
xor_assoc_fuel zero (suc a) b c p q r = absurd (omega arith)
xor_assoc_fuel (suc n) a b c p q r =
    rw (bit_xor_step (bit_xor a b) c, bit_xor_step a (bit_xor b c))
      (rw (half a b, half b c)
        (omega (
          arith,
          bit_xor_step a b,
          bit_xor_step b c,
          xor_assoc_fuel n (a / 2) (b / 2) (c / 2) (omega arith) (omega arith) (omega arith),
        )))
  where
    half : (x y : ℕ) → bit_xor x y / 2 ≡ bit_xor (x / 2) (y / 2)
    half x y = omega (arith, bit_xor_step x y)

pub xor_assoc : (a b c : ℕ) → bit_xor (bit_xor a b) c ≡ bit_xor a (bit_xor b c)
xor_assoc a b c = xor_assoc_fuel (a + b + c) a b c (omega arith) (omega arith) (omega arith)

pub xor_self : (n a : ℕ) → a ≤ n → bit_xor a a ≡ 0
xor_self zero zero p = refl
xor_self zero (suc a) p = absurd (omega arith)
xor_self (suc n) a p = omega (arith, bit_xor_step a a, xor_self n (a / 2) (omega arith))

-- Shifts and low masks go through an exclusive or.
pub xor-double : (a b : ℕ) → bit_xor (a * 2) (b * 2) ≡ bit_xor a b * 2
xor-double a b = rw (bit_xor_step (a * 2) (b * 2)) (
    let e : a * 2 / 2 ≡ a = omega arith in
    let e' : b * 2 / 2 ≡ b = omega arith in rw (e, e') (omega arith))

pub xor-half : (a b : ℕ) → bit_xor a b / 2 ≡ bit_xor (a / 2) (b / 2)
xor-half a b = omega (arith, bit_xor_step a b)

div_pow_suc : (k x : ℕ) → x / 2 ^ suc k ≡ x / 2 / 2 ^ k
div_pow_suc k x =
    ap (λ t. x / t) (omega (arith, pow-suc 2 k)) ∙ sym (div-div-eq-div-mul x 2 (2 ^ k))

pub xor-div : (k a b : ℕ) → bit_xor a b / 2 ^ k ≡ bit_xor (a / 2 ^ k) (b / 2 ^ k)
xor-div zero a b =
    let e : a / 1 ≡ a = omega arith in let e' : b / 1 ≡ b = omega arith in rw (e, e') (omega arith)
xor-div (suc k) a b =
    rw (div_pow_suc k (bit_xor a b), div_pow_suc k a, div_pow_suc k b, xor-half a b)
      (xor-div k (a / 2) (b / 2))

mod_double : (x p : ℕ) → 0 < p → x % (2 * p) ≡ (x / 2 % p) * 2 + x % 2
mod_double x p h = grind arith

xor_low :
    (x r y s : ℕ) → r < 2 → s < 2 → bit_xor (x * 2 + r) (y * 2 + s) ≡ bit_xor x y * 2 + (r + s) % 2
xor_low x r y s p q =
    let e : (x * 2 + r) / 2 ≡ x = omega arith in
    let e' : (y * 2 + s) / 2 ≡ y = omega arith in
    rw (bit_xor_step (x * 2 + r) (y * 2 + s), e, e') (omega arith)

pub xor-mod : (k a b : ℕ) → bit_xor a b % 2 ^ k ≡ bit_xor (a % 2 ^ k) (b % 2 ^ k)
xor-mod zero a b =
    let e : a % 1 ≡ 0 = omega arith in
    let e' : b % 1 ≡ 0 = omega arith in rw (e, e', zero-xor) (omega arith)
xor-mod (suc k) a b =
    let p : 2 ^ suc k ≡ 2 * 2 ^ k = omega (arith, pow-suc 2 k) in
    let pos : 0 < 2 ^ k = one-le-pow k 2 (omega arith) in
    let x = a / 2 % 2 ^ k in
    let y = b / 2 % 2 ^ k in
    rw (p, mod_double (bit_xor a b) (2 ^ k) pos, mod_double a (2 ^ k) pos, mod_double b (2 ^ k) pos)
      (rw
        (
          xor-half a b,
          xor-mod k (a / 2) (b / 2),
          xor_low x (a % 2) y (b % 2) (omega arith) (omega arith),
        )
        (omega (arith, bit_xor_step a b)))
