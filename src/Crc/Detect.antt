-- ===== src/Crc/Detect.antt =====
-- What the CRC detects: an error within one byte of a block, wherever it stands.
use e_rob_canopen_node_demo.Base.{
  ℕ, zero, suc, ◌*◌, ◌%◌, ◌<◌, ◌≡◌, ◌≢◌, sym, ◌∙◌, ap, List, [], ◌∷◌, ◌++◌, arith, inl, inr,
  bit_xor, u16, leb, Bool-cases, All, true, false,
}
use e_rob_canopen_node_demo.Base.Bits.{bit_xor_step, xor_comm}
use e_rob_canopen_node_demo.Crc.{crc16_ccitt}
use e_rob_canopen_node_demo.Crc.Bitwise.{
  shift_bits, serial_crc, round, rounds, round-lt, shift_bits-eq-rounds, xor_cancel, u16-xor,
  xor-lt, no_bits_left, bits_left, shift_bits-lt, crc16_ccitt-eq-serial_crc,
}

-- The polynomial is odd, so the low bit says whether a bit fell out at the top.
odd_of_top : (x : ℕ) → leb 0x8000 x ≡ true → round x % 2 ≡ 1
unfolding round
odd_of_top x t = rw t (omega (arith, bit_xor_step (x * 2) 0x1021))

even_of_not_top : (x : ℕ) → leb 0x8000 x ≡ false → round x % 2 ≡ 0
unfolding round
even_of_not_top x t = rw t (omega arith)

xor_cancel_right : (a b c : ℕ) → bit_xor a c ≡ bit_xor b c → a ≡ b
xor_cancel_right a b c e = sym (xor_cancel a c) ∙ ap (λ t. bit_xor t c) e ∙ xor_cancel b c

xor_cancel_left : (a b c : ℕ) → bit_xor c a ≡ bit_xor c b → a ≡ b
xor_cancel_left a b c e = xor_cancel_right a b c (xor_comm a c ∙ e ∙ xor_comm c b)

round_of_top : (x : ℕ) → leb 0x8000 x ≡ true → round x ≡ bit_xor (u16 (x * 2)) 0x1021
unfolding round
round_of_top x t = rw t (u16-xor (x * 2) 0x1021)

round_of_not_top : (x : ℕ) → leb 0x8000 x ≡ false → round x ≡ u16 (x * 2)
unfolding round
round_of_not_top x t = rw t

-- Both or neither of two registers lose their top bit: then nothing is lost.
doubled_top :
    (x y : ℕ)
    → x < 65536
    → y < 65536
    → leb 0x8000 x ≡ true
    → leb 0x8000 y ≡ true
    → u16 (x * 2) ≡ u16 (y * 2)
    → x ≡ y
doubled_top x y p q t s e = ground arith

doubled_not_top :
    (x y : ℕ) → leb 0x8000 x ≡ false → leb 0x8000 y ≡ false → u16 (x * 2) ≡ u16 (y * 2) → x ≡ y
doubled_not_top x y t s e = ground arith

round-injective : (x y : ℕ) → x < 65536 → y < 65536 → round x ≡ round y → x ≡ y
round-injective x y p q e = elim (Bool-cases (leb 0x8000 x)) [
  | inl t ↦ elim (Bool-cases (leb 0x8000 y)) [
    | inl s ↦
        doubled_top x y p q t s
          (xor_cancel_right _ _ 0x1021 (sym (round_of_top x t) ∙ e ∙ round_of_top y s))
    | inr s ↦ absurd (omega (arith, odd_of_top x t, even_of_not_top y s))
  ]
  | inr t ↦ elim (Bool-cases (leb 0x8000 y)) [
    | inl s ↦ absurd (omega (arith, odd_of_top y s, even_of_not_top x t))
    | inr s ↦ doubled_not_top x y t s (sym (round_of_not_top x t) ∙ e ∙ round_of_not_top y s)
  ]
]

rounds-injective : (n x y : ℕ) → x < 65536 → y < 65536 → rounds n x ≡ rounds n y → x ≡ y
unfolding rounds
rounds-injective zero x y p q e = e
rounds-injective (suc n) x y p q e =
    round-injective x y p q (rounds-injective n (round x) (round y) (round-lt x) (round-lt y) e)

shift_bits-injective :
    (x c y d : ℕ)
    → x < 65536
    → c < 256
    → y < 65536
    → d < 256
    → shift_bits 8 x (c * 256) ≡ shift_bits 8 y (d * 256)
    → bit_xor x (c * 256) ≡ bit_xor y (d * 256)
shift_bits-injective x c y d p u q v e =
    rounds-injective 8 (bit_xor x (c * 256)) (bit_xor y (d * 256))
      (xor-lt x (c * 256) p (omega arith)) (xor-lt y (d * 256) q (omega arith))
      (xor_cancel_right _ _ (bits_left 8 (c * 256)) (
        sym (shift_bits-eq-rounds 8 x (c * 256))
        ∙ e
        ∙ shift_bits-eq-rounds 8 y (d * 256)
        ∙ ap (bit_xor (rounds 8 (bit_xor y (d * 256)))) (no_bits_left d ∙ sym (no_bits_left c))))

-- Equal bytes keep registers apart.
serial_crc-injective :
    (v : List ℕ) (x y : ℕ)
    → All (λ b. b < 256) v
    → x < 65536
    → y < 65536
    → serial_crc v x ≡ serial_crc v y
    → x ≡ y
unfolding serial_crc
serial_crc-injective [] x y h p q e = e
serial_crc-injective (b ∷ v) x y h p q e = xor_cancel_right x y (b * 256) (
    shift_bits-injective x b y b p h.0 q h.0 (
      serial_crc-injective v (shift_bits 8 x (b * 256)) (shift_bits 8 y (b * 256)) h.1
        (shift_bits-lt 8 x (b * 256) p) (shift_bits-lt 8 y (b * 256) q) e))

serial_crc_detects :
    (u v : List ℕ) (b d crc : ℕ)
    → All (λ x. x < 256) u
    → All (λ x. x < 256) v
    → b < 256
    → d < 256
    → crc < 65536
    → serial_crc (u ++ b ∷ v) crc ≡ serial_crc (u ++ d ∷ v) crc
    → b ≡ d
unfolding serial_crc
serial_crc_detects [] v b d crc hu hv hb hd p e =
    let same : b * 256 ≡ d * 256 = xor_cancel_left (b * 256) (d * 256) crc (
      shift_bits-injective crc b crc d p hb p hd (
        serial_crc-injective v (shift_bits 8 crc (b * 256)) (shift_bits 8 crc (d * 256)) hv
          (shift_bits-lt 8 crc (b * 256) p) (shift_bits-lt 8 crc (d * 256) p) e)) in
    omega arith
serial_crc_detects (a ∷ u) v b d crc hu hv hb hd p e =
    serial_crc_detects u v b d (shift_bits 8 crc (a * 256)) hu.1 hv hb hd
      (shift_bits-lt 8 crc (a * 256) p) e

-- Two blocks of bytes that differ in exactly one byte have different CRCs, from every 16-bit start
-- value.
pub crc16_ccitt_detects :
    (u v : List ℕ) (b d crc : ℕ)
    → All (λ x. x < 256) u
    → All (λ x. x < 256) v
    → b < 256
    → d < 256
    → crc < 65536
    → b ≢ d
    → crc16_ccitt (u ++ b ∷ v) crc ≢ crc16_ccitt (u ++ d ∷ v) crc
crc16_ccitt_detects u v b d crc hu hv hb hd p ne e = ne (
    serial_crc_detects u v b d crc hu hv hb hd p (
      sym (crc16_ccitt-eq-serial_crc (u ++ b ∷ v) crc (bytes u b hu hb) p)
      ∙ e
      ∙ crc16_ccitt-eq-serial_crc (u ++ d ∷ v) crc (bytes u d hu hd) p))
  where
    bytes : (w : List ℕ) (c : ℕ) → All (λ x. x < 256) w → c < 256 → All (λ x. x < 256) (w ++ c ∷ v)
    bytes [] c h k = (k, hv)
    bytes (a ∷ w) c h k = (h.0, bytes w c h.1 k)
