-- ===== src/Crc/Bitwise.antt =====
-- The generator of crc16-ccitt.c's table, as its comment gives it, and the bit-serial CRC that the
-- table replaces.
use e_rob_canopen_node_demo.Base.{
  ℕ, zero, suc, ◌*◌, ◌/◌, ◌%◌, ◌^◌, ◌<◌, ◌≤◌, ◌≡◌, refl, sym, ◌∙◌, ap, List, [], ◌∷◌, true, arith,
  inl, inr, bit_xor, get_or, u8, u16, ◌==◌, ==_iff, if◌then◌else◌, leb, Bool-cases, All,
}
use native.Mathlib.Nat.{pow-suc, one-le-pow}
use e_rob_canopen_node_demo.Base.Bits.{
  all_below, all_below_sound, xor-mod, xor-div, xor_assoc, xor_comm, xor_self, xor-double, zero-xor,
  xor-zero,
}
use e_rob_canopen_node_demo.Crc.{crc16_ccitt_table, crc16_ccitt_single, crc16_ccitt}

-- One round of the inner loop: the top bit of `crc ^ c` decides, both shift by one.
shift_bit : ℕ → ℕ → ℕ
shift_bit crc c =
    if leb 0x8000 (bit_xor crc c) then u16 (bit_xor (crc * 2) 0x1021) else u16 (crc * 2)

-- `n` rounds on `uint16_t` values.
unfoldable pub shift_bits : ℕ → ℕ → ℕ → ℕ
unfolding shift_bit
shift_bits zero crc c = crc
shift_bits (suc n) crc c = shift_bits n (shift_bit crc c) (u16 (c * 2))

-- The CRC without a table: eight rounds for each byte.
unfoldable pub serial_crc : List ℕ → ℕ → ℕ
serial_crc [] crc = crc
serial_crc (b ∷ block) crc = serial_crc block (shift_bits 8 crc (b * 256))

-- The same register with the incoming bits already in it.
unfoldable pub round : ℕ → ℕ
round x = if leb 0x8000 x then u16 (bit_xor (x * 2) 0x1021) else u16 (x * 2)

unfoldable pub rounds : ℕ → ℕ → ℕ
rounds zero x = x
rounds (suc n) x = rounds n (round x)

-- What is left of the input after `n` rounds.
pub bits_left : ℕ → ℕ → ℕ
bits_left zero c = c
bits_left (suc n) c = bits_left n (u16 (c * 2))

entries_agree : all_below 256 (λ i. get_or crc16_ccitt_table i 0 == rounds 8 (i * 256)) ≡ true
unfolding all_below crc16_ccitt_table rounds round
entries_agree = refl

entry : (i : ℕ) → i < 256 → get_or crc16_ccitt_table i 0 ≡ rounds 8 (i * 256)
entry i h = (==_iff _ _).0 (all_below_sound 256 _ i entries_agree h)

pub xor-lt : (a b : ℕ) → a < 65536 → b < 65536 → bit_xor a b < 65536
xor-lt a b p q =
    let e : a / 2 ^ 16 ≡ 0 = omega arith in
    let e' : b / 2 ^ 16 ≡ 0 = omega arith in
    let z : bit_xor a b / 2 ^ 16 ≡ 0 = xor-div 16 a b ∙ rw (e, e') (zero-xor 0) in omega arith

pub xor_cancel : (a b : ℕ) → bit_xor (bit_xor a b) b ≡ a
xor_cancel a b = rw (xor_assoc a b b, xor_self b b (omega arith)) (xor-zero a)

-- `u16` of a doubled register: what is shifted out does not matter.
pub u16-xor : (a b : ℕ) → u16 (bit_xor a b) ≡ bit_xor (u16 a) (u16 b)
u16-xor a b = xor-mod 16 a b

pub round-lt : (x : ℕ) → round x < 65536
unfolding round
round-lt x = ground arith

xor_swap : (a b c : ℕ) → bit_xor (bit_xor a b) c ≡ bit_xor (bit_xor a c) b
xor_swap a b c = xor_assoc a b c ∙ ap (bit_xor a) (xor_comm b c) ∙ sym (xor_assoc a c b)

double_back : (crc c p : ℕ) → bit_xor (bit_xor (bit_xor crc c * 2) p) (c * 2) ≡ bit_xor (crc * 2) p
double_back crc c p =
    xor_swap (bit_xor crc c * 2) p (c * 2)
    ∙ ap (λ t. bit_xor (bit_xor t (c * 2)) p) (sym (xor-double crc c))
    ∙ ap (λ t. bit_xor t p) (xor_cancel (crc * 2) (c * 2))

-- A round on register and input is a round on the register that holds both, less the input.
shift_bit-eq-round : (crc c : ℕ) → shift_bit crc c ≡ bit_xor (round (bit_xor crc c)) (u16 (c * 2))
unfolding shift_bit round
shift_bit-eq-round crc c = elim (Bool-cases (leb 0x8000 (bit_xor crc c))) [
  | inl t ↦ rw t (
      ap u16 (sym (double_back crc c 0x1021))
      ∙ u16-xor (bit_xor (bit_xor crc c * 2) 0x1021) (c * 2))
  | inr f ↦ rw f (
      ap u16 (
        sym (xor-zero (crc * 2))
        ∙ sym (double_back crc c 0)
        ∙ ap (λ t. bit_xor t (c * 2)) (xor-zero (bit_xor crc c * 2)))
      ∙ u16-xor (bit_xor crc c * 2) (c * 2))
]

pub shift_bits-eq-rounds :
    (n crc c : ℕ) → shift_bits n crc c ≡ bit_xor (rounds n (bit_xor crc c)) (bits_left n c)
unfolding shift_bits rounds bits_left
shift_bits-eq-rounds zero crc c = sym (xor_cancel crc c)
shift_bits-eq-rounds (suc n) crc c =
    shift_bits-eq-rounds n (shift_bit crc c) (u16 (c * 2))
    ∙ ap (λ t. bit_xor (rounds n t) (bits_left n (u16 (c * 2))))
        (ap (λ t. bit_xor t (u16 (c * 2))) (shift_bit-eq-round crc c)
          ∙ xor_cancel (round (bit_xor crc c)) (u16 (c * 2)))

-- Low bits that do not reach the top are only shifted.
same_top : (a y : ℕ) → y < 32768 → a < 65536 → leb 0x8000 (bit_xor a y) ≡ leb 0x8000 a
same_top a y h k =
    let z : y / 2 ^ 15 ≡ 0 = omega arith in
    let q : bit_xor a y / 2 ^ 15 ≡ a / 2 ^ 15 = xor-div 15 a y ∙ rw z (xor-zero (a / 2 ^ 15)) in
    ground arith

round-xor : (a y : ℕ) → y < 32768 → a < 65536 → round (bit_xor a y) ≡ bit_xor (round a) (y * 2)
unfolding round
round-xor a y h k = rw (same_top a y h k) (elim (Bool-cases (leb 0x8000 a)) [
  | inl t ↦ rw t (
      ap u16 (ap (λ s. bit_xor s 0x1021) (sym (xor-double a y)) ∙ xor_swap (a * 2) (y * 2) 0x1021)
      ∙ u16-xor (bit_xor (a * 2) 0x1021) (y * 2)
      ∙ ap (bit_xor (u16 (bit_xor (a * 2) 0x1021))) (omega arith))
  | inr f ↦ rw f (
      ap u16 (sym (xor-double a y))
      ∙ u16-xor (a * 2) (y * 2)
      ∙ ap (bit_xor (u16 (a * 2))) (omega arith))
])

le-mul_pos : (a b : ℕ) → 1 ≤ b → a ≤ a * b
le-mul_pos a b h = grind arith

rounds-xor :
    (n a y : ℕ)
    → y * 2 ^ n < 65536
    → a < 65536
    → rounds n (bit_xor a y) ≡ bit_xor (rounds n a) (y * 2 ^ n)
unfolding rounds
rounds-xor zero a y h k = ap (bit_xor a) (omega arith)
rounds-xor (suc n) a y h k =
    let e : y * 2 ^ suc n ≡ y * 2 * 2 ^ n = omega (arith, ap (λ t. y * t) (pow-suc 2 n)) in
    let room : y * 2 ≤ y * 2 * 2 ^ n = le-mul_pos (y * 2) (2 ^ n) (one-le-pow n 2 (omega arith)) in
    ap (rounds n) (round-xor a y (omega arith) k)
    ∙ rounds-xor n (round a) (y * 2) (omega arith) (round-lt a)
    ∙ ap (bit_xor (rounds n (round a))) (sym e)

rounds-lt : (n x : ℕ) → x < 65536 → rounds n x < 65536
unfolding rounds
rounds-lt zero x h = h
rounds-lt (suc n) x h = rounds-lt n (round x) (round-lt x)

pub no_bits_left : (chr : ℕ) → bits_left 8 (chr * 256) ≡ 0
unfolding bits_left
no_bits_left chr = omega arith

-- The register's high byte takes the character, the low byte stays.
xor_high :
    (crc chr : ℕ) → bit_xor crc (chr * 256) ≡ bit_xor (bit_xor (crc / 2 ^ 8) chr * 256) (crc % 256)
xor_high crc chr =
    let t = bit_xor (crc / 2 ^ 8) chr in
    let e : chr * 256 / 2 ^ 8 ≡ chr = omega arith in
    let e' : chr * 256 % 2 ^ 8 ≡ 0 = omega arith in
    let f : t * 256 / 2 ^ 8 ≡ t = omega arith in
    let f' : t * 256 % 2 ^ 8 ≡ 0 = omega arith in
    let g : crc % 256 / 2 ^ 8 ≡ 0 = omega arith in
    let g' : crc % 256 % 2 ^ 8 ≡ crc % 256 = omega arith in
    let high : bit_xor crc (chr * 256) / 2 ^ 8 ≡ t = rw (xor-div 8 crc (chr * 256), e) refl in
    let low : bit_xor crc (chr * 256) % 2 ^ 8 ≡ crc % 256 =
      rw (xor-mod 8 crc (chr * 256), e') (xor-zero (crc % 2 ^ 8)) in
    let high' : bit_xor (t * 256) (crc % 256) / 2 ^ 8 ≡ t =
      rw (xor-div 8 (t * 256) (crc % 256), f, g) (xor-zero t) in
    let low' : bit_xor (t * 256) (crc % 256) % 2 ^ 8 ≡ crc % 256 =
      rw (xor-mod 8 (t * 256) (crc % 256), f', g') (zero-xor (crc % 256)) in
    omega arith

byte-xor-lt : (a b : ℕ) → a < 256 → b < 256 → bit_xor a b < 256
byte-xor-lt a b p q =
    let e : a / 2 ^ 8 ≡ 0 = omega arith in
    let e' : b / 2 ^ 8 ≡ 0 = omega arith in
    let z : bit_xor a b / 2 ^ 8 ≡ 0 = xor-div 8 a b ∙ rw (e, e') (zero-xor 0) in omega arith

-- One table step, on any 16-bit register and byte, is eight rounds of the bit-serial register.
pub crc16_ccitt_single-eq-shift_bits :
    (crc chr : ℕ)
    → crc < 65536
    → chr < 256
    → crc16_ccitt_single crc chr ≡ shift_bits 8 crc (chr * 256)
unfolding crc16_ccitt_single
crc16_ccitt_single-eq-shift_bits crc chr p q =
    let c : u8 (crc / 2 ^ 8) ≡ crc / 2 ^ 8 = omega arith in
    let t = bit_xor (crc / 2 ^ 8) chr in
    let small : t < 256 = byte-xor-lt (crc / 2 ^ 8) chr (omega arith) q in
    let fits : rounds 8 (t * 256) < 65536 = rounds-lt 8 (t * 256) (omega arith) in
    let low : u16 (crc * 2 ^ 8) ≡ crc % 256 * 2 ^ 8 = omega arith in
    let same : u16 (rounds 8 (t * 256)) ≡ rounds 8 (t * 256) = omega arith in
    rw (c, entry t small, u16-xor (crc * 2 ^ 8) (rounds 8 (t * 256)), low, same)
      (xor_comm (crc % 256 * 2 ^ 8) (rounds 8 (t * 256))
        ∙ sym (rounds-xor 8 (t * 256) (crc % 256) (omega arith) (omega arith))
        ∙ ap (rounds 8) (sym (xor_high crc chr))
        ∙ sym (xor-zero (rounds 8 (bit_xor crc (chr * 256))))
        ∙ ap (bit_xor (rounds 8 (bit_xor crc (chr * 256)))) (sym (no_bits_left chr))
        ∙ sym (shift_bits-eq-rounds 8 crc (chr * 256)))

pub shift_bits-lt : (n crc c : ℕ) → crc < 65536 → shift_bits n crc c < 65536
unfolding shift_bits
shift_bits-lt zero crc c h = h
shift_bits-lt (suc n) crc c h = shift_bits-lt n (shift_bit crc c) (u16 (c * 2)) (ground arith)

-- The loop body is `crc16_ccitt_single`.
pub loop_step :
    (b : ℕ) (block : List ℕ) (crc : ℕ)
    → b < 256
    → crc16_ccitt (b ∷ block) crc ≡ crc16_ccitt block (crc16_ccitt_single crc b)
unfolding crc16_ccitt crc16_ccitt_single
loop_step b block crc h =
    let small : bit_xor (u8 (crc / 2 ^ 8)) b < 256 =
      byte-xor-lt (u8 (crc / 2 ^ 8)) b (omega arith) h in
    let e : u8 (bit_xor (u8 (crc / 2 ^ 8)) b) ≡ bit_xor (u8 (crc / 2 ^ 8)) b = omega arith in
    rw e refl

-- From every 16-bit start value, the table-driven CRC of a block of bytes is the bit-serial CRC
-- of the polynomial 0x1021, most significant bit first.
pub crc16_ccitt-eq-serial_crc :
    (block : List ℕ) (crc : ℕ)
    → All (λ b. b < 256) block
    → crc < 65536
    → crc16_ccitt block crc ≡ serial_crc block crc
unfolding serial_crc
crc16_ccitt-eq-serial_crc [] crc h p = unfold crc16_ccitt in refl
crc16_ccitt-eq-serial_crc (b ∷ block) crc h p =
    loop_step b block crc h.0
    ∙ ap (crc16_ccitt block) (crc16_ccitt_single-eq-shift_bits crc b p h.0)
    ∙ crc16_ccitt-eq-serial_crc block (shift_bits 8 crc (b * 256)) h.1
        (shift_bits-lt 8 crc (b * 256) p)
