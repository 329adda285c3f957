-- ===== src/Emergency/StatusBits.antt =====
-- The error status bits of CO_error: the reported bit and no other takes the reported value.
use e_rob_canopen_node_demo.Base.{
  ℕ, zero, suc, ◌-◌, ◌/◌, ◌%◌, ◌^◌, ◌<◌, ◌≡◌, ◌≢◌, ◌⊎◌, refl, ◌∙◌, bit_and, bit_or, List, [], ◌∷◌,
  Bool, true, false, not, ◌&&◌, inl, inr, arith, get_or, set, get_or-set_self, get_or-set_ne,
  length, length-set, ltb, ◌==◌, ==_iff, if◌then◌else◌, has, Bool-cases,
}
use e_rob_canopen_node_demo.Base.Bits.{all_below, all_below_sound}
use e_rob_canopen_node_demo.Emergency.{
  Em, Msg, error, error_msg, toggle, push, is_error, em_wrong_error_report,
}

-- Ten bytes of status bits.
abbrev pub HasBytes : Em → Type 0
HasBytes em = (length em.error_status_bits ≡ 10) × ((i : ℕ) → get_or em.error_status_bits i 0 < 256)

-- The bit that CO_error works on.
abbrev pub target : ℕ → ℕ
target bit = if ltb bit 80 then bit else em_wrong_error_report

abbrev set_bit : Bool → ℕ → ℕ → ℕ
set_bit true byte mask = bit_or byte mask
set_bit false byte mask = bit_and byte (255 - mask)

abbrev pub same : Bool → Bool → Bool
same true b = b
same false b = not b

pub same_sound : (a b : Bool) → same a b ≡ true → a ≡ b
same_sound true true h = refl
same_sound false false h = refl
same_sound true false h = cc
same_sound false true h = cc

abbrev bit_agrees : Bool → ℕ → ℕ → ℕ → Bool
bit_agrees value byte k j =
    same (has (set_bit value byte (2 ^ k)) (2 ^ j)) (if j == k then value else has byte (2 ^ j))
    && ltb (set_bit value byte (2 ^ k)) 256

table : Bool → Bool
table value = all_below 256 λ byte. all_below 8 λ k. all_below 8 λ j. bit_agrees value byte k j

set_table : table true ≡ true
unfolding table all_below
set_table = refl

reset_table : table false ≡ true
unfolding table all_below
reset_table = refl

table_lem : (value : Bool) → table value ≡ true
table_lem true = set_table
table_lem false = reset_table

bit_lem :
    (value : Bool) (byte k j : ℕ)
    → byte < 256
    → k < 8
    → j < 8
    → (has (set_bit value byte (2 ^ k)) (2 ^ j) ≡ (if j == k then value else has byte (2 ^ j)))
      × (set_bit value byte (2 ^ k) < 256)
unfolding table
bit_lem value byte k j p q r =
    let a = all_below_sound 256 _ byte (table_lem value) p in
    let b = all_below_sound 8 _ k a q in
    let c : bit_agrees value byte k j ≡ true = all_below_sound 8 _ j b r in
    (same_sound _ _ (ground arith), ground arith)

-- The message for the report or the reset of an error: code and information are replaced where the
-- bit is unsupported.
abbrev pub message : Bool → ℕ → ℕ → ℕ → Msg
message value bit code info =
    error_msg bit (if value then if ltb bit 80 then code else 0x6100 else 0)
      (if ltb bit 80 then info else bit)

pub error_repeats :
    (em : Em) (value : Bool) (bit code info : ℕ)
    → is_error em (target bit) ≡ value
    → error em value bit code info ≡ (em, [])
unfolding error is_error
error_repeats em true bit code info h = elim (Bool-cases (ltb bit 80)) [
  | inl e ↦ ground arith
  | inr e ↦ ground arith
]
error_repeats em false bit code info h = elim (Bool-cases (ltb bit 80)) [
  | inl e ↦ ground arith
  | inr e ↦ ground arith
]

pub error_changes :
    (em : Em) (value : Bool) (bit code info : ℕ)
    → is_error em (target bit) ≡ not value
    → error em value bit code info
      ≡ toggle em value (target bit / 8) (2 ^ (target bit % 8)) (message value bit code info)
unfolding error is_error
error_changes em true bit code info h = elim (Bool-cases (ltb bit 80)) [
  | inl e ↦ ground arith
  | inr e ↦ ground arith
]
error_changes em false bit code info h = elim (Bool-cases (ltb bit 80)) [
  | inl e ↦ ground arith
  | inr e ↦ ground arith
]

push-bits : (em : Em) (m : Msg) → (push em m).error_status_bits ≡ em.error_status_bits
unfolding push
push-bits em m = ground arith

toggle-bits :
    (em : Em) (value : Bool) (index mask : ℕ) (m : Msg)
    → (toggle em value index mask m).0.error_status_bits
      ≡ set em.error_status_bits index (set_bit value (get_or em.error_status_bits index 0) mask)
unfolding toggle
toggle-bits em true index mask m =
    push-bits
      (record em {
        error_status_bits =
            set em.error_status_bits index (bit_or (get_or em.error_status_bits index 0) mask);
      })
      m
toggle-bits em false index mask m =
    push-bits
      (record em {
        error_status_bits =
            set em.error_status_bits index
              (bit_and (get_or em.error_status_bits index 0) (255 - mask));
      })
      m

target-lt : (bit : ℕ) → target bit < 80
target-lt bit = ground arith

-- Setting one bit of the status bytes, read back byte by byte.
read_back :
    (bytes : List ℕ) (value : Bool) (t j : ℕ)
    → length bytes ≡ 10
    → ((i : ℕ) → get_or bytes i 0 < 256)
    → t < 80
    → j < 80
    → has
        (get_or
          (set bytes (t / 8) (set_bit value (get_or bytes (t / 8) 0) (2 ^ (t % 8))))
          (j / 8)
          0)
        (2 ^ (j % 8))
      ≡ (if j == t then value else has (get_or bytes (j / 8) 0) (2 ^ (j % 8)))
read_back bytes value t j l b p q = elim (Bool-cases (j / 8 == t / 8)) [
  | inl e ↦
      let s : j / 8 ≡ t / 8 = ground arith in
      let k : (j == t) ≡ (j % 8 == t % 8) = ground arith in
      rw
        (
          s,
          k,
          get_or-set_self bytes (t / 8) (set_bit value (get_or bytes (t / 8) 0) (2 ^ (t % 8))) 0
              (omega arith),
        )
        ((bit_lem value (get_or bytes (t / 8) 0) (t % 8) (j % 8) (b (t / 8)) (omega arith)
          (omega arith)).0)
  | inr e ↦
      let s : t / 8 ≢ j / 8 = λ u. ground arith in
      let k : (j == t) ≡ false = ground arith in
      rw (k, get_or-set_ne bytes (set_bit value (get_or bytes (t / 8) 0) (2 ^ (t % 8))) 0 s) refl
]

pub is_error-below :
    (em : Em) (j : ℕ)
    → j < 80
    → is_error em j ≡ has (get_or em.error_status_bits (j / 8) 0) (2 ^ (j % 8))
unfolding is_error
is_error-below em j p = ground arith

pub either : (a b : Bool) → (a ≡ b) ⊎ (a ≡ not b)
either true true = inl refl
either false false = inl refl
either true false = inr refl
either false true = inr refl

set-below :
    (bytes : List ℕ) (i j v : ℕ)
    → ((k : ℕ) → get_or bytes k 0 < 256)
    → v < 256
    → get_or (set bytes i v) j 0 < 256
set-below [] i j v h p = omega arith
set-below (x ∷ xs) zero zero v h p = p
set-below (x ∷ xs) zero (suc j) v h p = h (suc j)
set-below (x ∷ xs) (suc i) zero v h p = h 0
set-below (x ∷ xs) (suc i) (suc j) v h p = set-below xs i j v (λ k. h (suc k)) p

-- After CO_error the reported bit, or bit 0x28 where it is out of range, reads as reported, and
-- every other status bit reads as before.
pub is_error-error :
    (em : Em) (value : Bool) (bit code info j : ℕ)
    → HasBytes em
    → j < 80
    → is_error (error em value bit code info).0 j
      ≡ (if j == target bit then value else is_error em j)
is_error-error em value bit code info j h p = elim (either (is_error em (target bit)) value) [
  | inl e ↦ rw (error_repeats em value bit code info e) (elim (Bool-cases (j == target bit)) [
    | inl s ↦ let s' : j ≡ target bit = (==_iff j (target bit)).0 s in rw (s, s') e
    | inr s ↦ rw s refl
  ])
  | inr e ↦
      let t = target bit in
      let after = (toggle em value (t / 8) (2 ^ (t % 8)) (message value bit code info)).0 in
      rw
        (
          error_changes em value bit code info e,
          is_error-below after j p,
          is_error-below em j p,
          toggle-bits em value (t / 8) (2 ^ (t % 8)) (message value bit code info),
        )
        (read_back em.error_status_bits value t j h.0 h.1 (target-lt bit) p)
]

-- CO_error keeps ten bytes of status bits.
pub error-HasBytes :
    (em : Em) (value : Bool) (bit code info : ℕ)
    → HasBytes em
    → HasBytes (error em value bit code info).0
error-HasBytes em value bit code info h = elim (either (is_error em (target bit)) value) [
  | inl e ↦ rw (error_repeats em value bit code info e) h
  | inr e ↦
      let t = target bit in
      let byte = set_bit value (get_or em.error_status_bits (t / 8) 0) (2 ^ (t % 8)) in
      let small : byte < 256 =
        (bit_lem value (get_or em.error_status_bits (t / 8) 0) (t % 8) 0 (h.1 (t / 8)) (omega arith)
          (omega arith)).1 in
      rw
        (
          error_changes em value bit code info e,
          toggle-bits em value (t / 8) (2 ^ (t % 8)) (message value bit code info),
        )
        (
          length-set em.error_status_bits (t / 8) byte ∙ h.0,
          λ i. set-below em.error_status_bits (t / 8) i byte h.1 small,
        )
]
