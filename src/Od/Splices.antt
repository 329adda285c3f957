-- ===== src/Od/Splices.antt =====
-- Copies into memory that follow one another.
use e_rob_canopen_node_demo.Base.{
  ℕ, zero, suc, ◌+◌, ◌≤◌, ◌≡◌, refl, sym, ap, ◌∙◌, List, [], ◌∷◌, ◌++◌, append_assoc, arith, take,
  drop, length, length-append, take-nil,
}
use e_rob_canopen_node_demo.Od.{Memory, slice, splice}

pub take-length {ℓ} : {A : Type ℓ} (xs ys : List A) → take (length xs) (xs ++ ys) ≡ xs
take-length [] ys = refl
take-length (x ∷ xs) ys = ap (λ zs. x ∷ zs) (take-length xs ys)

drop_nil {ℓ} : {A : Type ℓ} (n : ℕ) → drop {A = A} n [] ≡ []
drop_nil zero = refl
drop_nil (suc n) = refl

pub take-take-drop {ℓ} :
    {A : Type ℓ} (m n : ℕ) (xs : List A) → take m xs ++ take n (drop m xs) ≡ take (m + n) xs
take-take-drop zero n xs = ap (λ k. take k xs) (omega arith)
take-take-drop (suc m) n [] = grind (arith, take-nil)
take-take-drop (suc m) n (x ∷ xs) =
    let e : suc m + n ≡ suc (m + n) = omega arith in
    rw e (ap (λ ys. x ∷ ys) (take-take-drop m n xs))

pub drop-drop {ℓ} : {A : Type ℓ} (m n : ℕ) (xs : List A) → drop n (drop m xs) ≡ drop (m + n) xs
drop-drop zero n xs = ap (λ k. drop k xs) (omega arith)
drop-drop (suc m) n [] = let e : suc m + n ≡ suc (m + n) = omega arith in rw e (drop_nil n)
drop-drop (suc m) n (x ∷ xs) =
    let e : suc m + n ≡ suc (m + n) = omega arith in rw e (drop-drop m n xs)

drop-append : (xs ys : List ℕ) (n : ℕ) → drop (length xs + n) (xs ++ ys) ≡ drop n ys
drop-append [] ys n = let e : 0 + n ≡ n = omega arith in rw e refl
drop-append (x ∷ xs) ys n =
    let e : suc (length xs) + n ≡ suc (length xs + n) = omega arith in rw e (drop-append xs ys n)

-- A copy behind a copy is one copy.
pub splice-splice :
    (mem : Memory) (addr : ℕ) (xs ys : List ℕ)
    → addr ≤ length mem
    → splice (splice mem addr xs) (addr + length xs) ys ≡ splice mem addr (xs ++ ys)
splice-splice mem zero xs ys p =
    let z : 0 + length xs ≡ length xs = omega arith in
    let l : 0 + length (xs ++ ys) ≡ length xs + length ys = omega (arith, length-append xs ys) in
    rw
      (
        z,
        take-length xs (drop (length xs) mem),
        drop-append xs (drop (length xs) mem) (length ys),
        drop-drop (length xs) (length ys) mem,
        l,
      )
      (sym (append_assoc xs ys (drop (length xs + length ys) mem)))
splice-splice [] (suc addr) xs ys p = absurd (omega arith)
splice-splice (m ∷ mem) (suc addr) xs ys p =
    let e : suc addr + length xs ≡ suc (addr + length xs) = omega arith in
    let f : suc (addr + length xs) + length ys ≡ suc (addr + length xs + length ys) = omega arith in
    let g : suc addr + length (xs ++ ys) ≡ suc (addr + length (xs ++ ys)) = omega arith in
    rw (e, f, g) (ap (λ t. m ∷ t) (splice-splice mem addr xs ys (omega arith)))

-- What has been copied behind the first bytes stands behind them.
pub slice-splice_behind :
    (buf kept bytes : List ℕ)
    → slice buf 0 (length kept) ≡ kept
    → slice (splice buf (length kept) bytes) 0 (length kept + length bytes) ≡ kept ++ bytes
slice-splice_behind buf kept bytes e =
    let l : length kept + length bytes ≡ length (kept ++ bytes) =
      omega (arith, length-append kept bytes) in
    rw (e, l)
      (ap (take (length (kept ++ bytes)))
          (sym (append_assoc kept bytes (drop (length (kept ++ bytes)) buf)))
        ∙ take-length (kept ++ bytes) (drop (length (kept ++ bytes)) buf))

pub take-drop {ℓ} : {A : Type ℓ} (n : ℕ) (xs : List A) → take n xs ++ drop n xs ≡ xs
take-drop zero xs = refl
take-drop (suc n) [] = refl
take-drop (suc n) (x ∷ xs) = ap (λ ys. x ∷ ys) (take-drop n xs)

-- The two parts of a list at a place within it.
pub length-take {ℓ} : {A : Type ℓ} (n : ℕ) (xs : List A) → n ≤ length xs → length (take n xs) ≡ n
length-take zero xs p = refl
length-take (suc n) [] p = absurd (omega arith)
length-take (suc n) (x ∷ xs) p = let h = length-take n xs (omega arith) in omega arith

pub splice-nil : (mem : Memory) (addr : ℕ) → splice mem addr [] ≡ mem
splice-nil mem addr = let e : addr + 0 ≡ addr = omega arith in rw e (take-drop addr mem)

-- A slice is its first part and the slice behind it.
pub slice-slice :
    (mem : Memory) (a n r : ℕ) → slice mem a n ++ slice mem (a + n) r ≡ slice mem a (n + r)
slice-slice mem a n r = rw (← drop-drop a n mem) (take-take-drop n r (drop a mem))

length-drop {ℓ} :
    {A : Type ℓ} (n : ℕ) (xs : List A) → n ≤ length xs → n + length (drop n xs) ≡ length xs
length-drop zero xs p = omega arith
length-drop (suc n) [] p = absurd (omega arith)
length-drop (suc n) (x ∷ xs) p = let h = length-drop n xs (omega arith) in omega arith

pub length-slice : (mem : Memory) (a n : ℕ) → a + n ≤ length mem → length (slice mem a n) ≡ n
length-slice mem a n p =
    let h = length-drop a mem (omega arith) in length-take n (drop a mem) (omega arith)

-- A part of a list that is as long as it should be lies within it.
within {ℓ} : {A : Type ℓ} (n : ℕ) (xs : List A) → length (take n xs) ≡ n → n ≤ length xs
within zero xs e = omega arith
within (suc n) [] e = absurd (omega arith)
within (suc n) (x ∷ xs) e = let h = within n xs (omega arith) in omega arith

-- The first bytes of a slice are a slice, of their number.
pub length-slice_front :
    (buf : List ℕ) (a m n : ℕ) → length (slice buf a n) ≡ n → m ≤ n → length (slice buf a m) ≡ m
length-slice_front buf a m n e l =
    let h = within n (drop a buf) e in length-take m (drop a buf) (omega arith)

pub drop-length : (xs ys : List ℕ) → drop (length xs) (xs ++ ys) ≡ ys
drop-length [] ys = refl
drop-length (x ∷ xs) ys = drop-length xs ys

pub length-splice :
    (mem : Memory) (addr : ℕ) (bytes : List ℕ)
    → addr + length bytes ≤ length mem
    → length (splice mem addr bytes) ≡ length mem
length-splice mem addr bytes p =
    let t = length-take addr mem (omega arith) in
    let d = length-drop (addr + length bytes) mem p in
    omega (
      arith,
      t,
      d,
      length-append (take addr mem) (bytes ++ drop (addr + length bytes) mem),
      length-append bytes (drop (addr + length bytes) mem),
    )
