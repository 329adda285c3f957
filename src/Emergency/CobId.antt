-- ===== src/Emergency/CobId.antt =====
-- Object 0x1014: which writes are refused, and what an accepted write leaves for a read.
use e_rob_canopen_node_demo.Base.{
  ℕ, ◌+◌, ◌<◌, ◌≡◌, ◌≢◌, ◌≤◌, ◌⊎◌, refl, ◌∙◌, bit_and, bit_or, Bool, true, false, not, ◌&&◌, ◌||◌,
  inl, inr, arith, Option, none, some, ◌==◌, if◌then◌else◌, has, Bool-cases, u16,
}
use e_rob_canopen_node_demo.Od.{Odr}
use e_rob_canopen_node_demo.Emergency.{Em}
use e_rob_canopen_node_demo.Emergency.Objects.{
  read_1014, write_1014, Written, refused, accepted, current_can_id, is_restricted_can_id,
  can_id_emergency,
}

-- The identifiers that CiA 301 keeps for other services, by their ranges.
abbrev pub IsReserved : ℕ → Type 0
IsReserved id =
    (id ≤ 0x7F)
    ⊎ ((0x101 ≤ id) × (id ≤ 0x180))
    ⊎ ((0x581 ≤ id) × (id ≤ 0x5FF))
    ⊎ ((0x601 ≤ id) × (id ≤ 0x67F))
    ⊎ ((0x6E0 ≤ id) × (id ≤ 0x6FF))
    ⊎ (0x701 ≤ id)

-- The identifier in the value of the object.
abbrev pub identifier : ℕ → ℕ
identifier value = u16 (bit_and value 0x7FF)

-- Why a value is refused: a bit that is neither the enable bit nor part of the identifier, a reserved
-- identifier, or another identifier for a producer that is and stays enabled.
abbrev pub IsRefusable : Em → ℕ → Type 0
IsRefusable em value =
    (bit_and value 0x7FFFF800 ≢ 0)
    ⊎ IsReserved (identifier value)
    ⊎ ((em.producer_enabled ≡ true)
        × (bit_and value 0x80000000 ≡ 0)
        × (identifier value ≢ current_can_id em))

-- What an accepted write leaves.
pub record Configured (em : Em) (value : ℕ) (after : Em) (buffer : Option ℕ) : Type 0 where
  pub allowed : ¬ IsRefusable em value
  pub enables : bit_and value 0x80000000 ≡ 0 → after.producer_enabled ≡ true
  pub disables : bit_and value 0x80000000 ≢ 0 → after.producer_enabled ≡ false
  pub reads :
      identifier value ≢ 0x80
      → read_1014 after 0 4 ≡ (
        Odr.ok,
        some (bit_or (if after.producer_enabled then 0 else 0x80000000) (identifier value)),
      )
  pub sends : buffer ≡ (if after.producer_enabled then some (identifier value) else none)

-- Either outcome of a write.
abbrev pub Outcome : Em → ℕ → Written → Type 0
Outcome em value (refused code) = (code ≡ Odr.invalid_value) × IsRefusable em value
Outcome em value (accepted after buffer) = Configured em value after buffer

current-stored :
    (id node : ℕ) (em : Em)
    → em.node_id ≡ node
    → node < 128
    → id ≢ 0x80
    → em.producer_can_id ≡ (if id == can_id_emergency + node then can_id_emergency else id)
    → current_can_id em ≡ id
current-stored id node em e n ne h = elim (Bool-cases (id == can_id_emergency + node)) [
  | inl s ↦ let t : em.producer_can_id ≡ 0x80 = h ∙ rw s refl in rw (t, e) (ground arith)
  | inr s ↦ let t : em.producer_can_id ≡ id = h ∙ rw s refl in rw t (ground arith)
]

none_of : (a b c : Bool) → (a || b || c) ≡ false → (a ≡ false) × (b ≡ false) × (c ≡ false)
none_of false false false h = (refl, refl, refl)
none_of true b c h = absurd cc
none_of false true c h = absurd cc
none_of false false true h = absurd cc

restricted-IsReserved : (id : ℕ) → is_restricted_can_id id ≡ true → IsReserved id
restricted-IsReserved id h = ground arith

IsReserved-restricted : (id : ℕ) → IsReserved id → is_restricted_can_id id ≡ true
IsReserved-restricted id h = ground arith

-- The test of the code, by its parts.
abbrev is_refused : Em → ℕ → Bool
is_refused em value =
    has value 0x7FFFF800
    || is_restricted_can_id (identifier value)
    || (em.producer_enabled
        && (not (has value 0x80000000) && not (identifier value == 0))
        && not (identifier value == current_can_id em))

refused-IsRefusable : (em : Em) (value : ℕ) → is_refused em value ≡ true → IsRefusable em value
refused-IsRefusable em value h = elim (Bool-cases (has value 0x7FFFF800)) [
  | inl e ↦ inl (ground arith)
  | inr e ↦ elim (Bool-cases (is_restricted_can_id (identifier value))) [
    | inl r ↦ inr (inl (restricted-IsReserved (identifier value) r))
    | inr r ↦ inr (inr (ground arith, ground arith, ground arith))
  ]
]

accepted-allowed : (em : Em) (value : ℕ) → is_refused em value ≡ false → ¬ IsRefusable em value
accepted-allowed em value h (inl n) = ground arith
accepted-allowed em value h (inr (inl r)) =
    let e = IsReserved-restricted (identifier value) r in
    let parts = none_of (has value 0x7FFFF800) (is_restricted_can_id (identifier value)) _ h in
    absurd (cc (e, parts.1))
accepted-allowed em value h (inr (inr r)) = ground (arith, r.0, r.1, r.2)

-- A write of four bytes to 0x1014,0 is refused as an invalid value when the value has a bit other
-- than the enable bit and the identifier, when the identifier is reserved, or when the producer is
-- and stays enabled and the identifier is not the current one. Every other value is accepted: bit 31
-- decides whether the producer is enabled, the transmit buffer is configured with the identifier
-- exactly when it is, and a read gives the identifier back with the enable bit, unless it is 0x80
-- itself. The node-ID is below 128.
pub write_1014-Outcome :
    (em : Em) (value : ℕ) → em.node_id < 128 → Outcome em value (write_1014 em 0 4 value)
unfolding write_1014 read_1014
write_1014-Outcome em value n =
    let id = identifier value in
    let enabled = not (has value 0x80000000) && not (id == 0) in
    elim (Bool-cases (is_refused em value)) [
      | inl h ↦ rw h (refl, refused-IsRefusable em value h)
      | inr h ↦
          let some_id : (id == 0) ≡ false = ground arith in
          rw h (record {
            allowed = accepted-allowed em value h;
            enables = λ e. ground arith;
            disables = λ e. ground arith;
            reads = λ ne.
                (let after = record em {
                  producer_enabled = enabled;
                  producer_can_id =
                      if id == can_id_emergency + em.node_id then can_id_emergency else id;
                } in
                  rw (current-stored id em.node_id after refl n ne refl) refl);
            sends = refl;
          })
    ]
