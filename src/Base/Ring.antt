-- ===== src/Base/Ring.antt =====
-- Circular buffers of any element: the elements from one index to another, going round, as a list,
-- and what one step of either index does to it. One place always stays free.
use Prim.Native.Nat.{ℕ, zero, suc, ◌+◌, ◌-◌, ◌≤◌, ◌<◌}
use mathlib.Core.Path.{◌≡◌, refl, sym, ◌∙◌, ap, ap₂}
use mathlib.Core.Logic.{◌≢◌}
use mathlib.Core.List.{List, [], ◌∷◌, ◌++◌}
use native.Mathlib.Omega.{arith}
use e_rob_canopen_node_demo.Base.Tests.{ltb, ◌==◌, if◌then◌else◌}
use e_rob_canopen_node_demo.Base.Lists.{get_or, set, length, get_or-set_self, get_or-set_ne}

abbrev pub next_index : ℕ → ℕ → ℕ
next_index size i = if i + 1 == size then 0 else i + 1

-- How many elements lie from one index to another.
abbrev pub distance : ℕ → ℕ → ℕ → ℕ
distance size from to = if ltb to from then to + size - from else to - from

pub next_index-lt : (size i : ℕ) → i < size → next_index size i < size
next_index-lt size i h = ground arith

pub distance-next :
    (size from to : ℕ)
    → from < size
    → to < size
    → from ≢ to
    → distance size from to ≡ suc (distance size (next_index size from) to)
distance-next size from to p q ne = ground arith

pub distance_self : (size i : ℕ) → distance size i i ≡ 0
distance_self size i = ground arith

pub distance-lt : (size from to : ℕ) → from < size → to < size → distance size from to < size
distance-lt size from to p q = ground arith

pub distance-round :
    (size from to : ℕ)
    → from < size
    → to < size
    → from ≢ to
    → distance size (next_index size from) to ≤ distance size (next_index size from) from
distance-round size from to p q ne = ground arith

abbrev position : ℕ → ℕ → ℕ → ℕ
position size start k = if ltb (start + k) size then start + k else start + k - size

position-next :
    (size start k : ℕ)
    → start < size
    → suc k < size
    → position size (next_index size start) k ≡ position size start (suc k)
position-next size start k p q = ground arith

position-ne : (size start k : ℕ) → start < size → suc k < size → position size start (suc k) ≢ start
position-ne size start k p q = ground arith

module _ {ℓ} {A : Type ℓ} (d : A) where
  -- The `n` elements from an index on; `d` is read out of range.
  abbrev pub span : List A → ℕ → ℕ → ℕ → List A
  span buf size start zero = []
  span buf size start (suc n) = get_or buf start d ∷ span buf size (next_index size start) n

  pub length-span : (buf : List A) (size start n : ℕ) → length (span buf size start n) ≡ n
  length-span buf size start zero = refl
  length-span buf size start (suc n) = ap suc (length-span buf size (next_index size start) n)

  -- One element is taken at the front.
  pub span-next :
      (buf : List A) (size from to : ℕ)
      → from < size
      → to < size
      → from ≢ to
      → span buf size from (distance size from to)
        ≡ get_or buf from d
          ∷ span buf size (next_index size from) (distance size (next_index size from) to)
  span-next buf size from to p q ne = ap (span buf size from) (distance-next size from to p q ne)

  -- Writing just behind a span extends it by that element.
  span-set :
      (buf : List A) (size : ℕ) (x : A) (n start i : ℕ)
      → size ≤ length buf
      → start < size
      → n < size
      → i ≡ position size start n
      → span (set buf i x) size start (suc n) ≡ span buf size start n ++ x ∷ []
  span-set buf size x zero start i fits p q e =
      let e' : i ≡ start = ground arith in rw (e', get_or-set_self buf start x d (omega arith))
  span-set buf size x (suc n) start i fits p q e =
      ap₂ ◌∷◌ (get_or-set_ne buf x d (λ s. position-ne size start n p q (sym e ∙ s))) (
        span-set buf size x n (next_index size start) i fits (next_index-lt size start p)
          (omega arith) (e ∙ sym (position-next size start n p q)))

  pub span-extend :
      (buf : List A) (size : ℕ) (x : A) (from to : ℕ)
      → size ≤ length buf
      → from < size
      → to < size
      → span (set buf to x) size from (suc (distance size from to))
        ≡ span buf size from (distance size from to) ++ x ∷ []
  span-extend buf size x from to fits p q =
      span-set buf size x (distance size from to) from to fits p (distance-lt size from to p q)
        (ground arith)

  -- One element is added at the end, where the write index stands.
  pub span-write :
      (buf : List A) (size from to : ℕ) (x : A)
      → size ≤ length buf
      → from < size
      → to < size
      → next_index size to ≢ from
      → span (set buf to x) size from (distance size from (next_index size to))
        ≡ span buf size from (distance size from to) ++ x ∷ []
  span-write buf size from to x fits p q ne =
      let longer : distance size from (next_index size to) ≡ suc (distance size from to) =
        ground arith in
      rw longer (span-extend buf size x from to fits p q)

  -- A write outside a span leaves it.
  pub span-set_outside :
      (buf : List A) (size : ℕ) (x : A) (i start n : ℕ)
      → start < size
      → i < size
      → n ≤ distance size start i
      → span (set buf i x) size start n ≡ span buf size start n
  span-set_outside buf size x i start zero p q h = refl
  span-set_outside buf size x i start (suc n) p q h =
      let ne : i ≢ start = λ e. ground arith in
      let step = distance-next size start i p q (λ e. ne (sym e)) in
      ap₂ ◌∷◌ (get_or-set_ne buf x d ne) (
        span-set_outside buf size x i (next_index size start) n (next_index-lt size start p) q
          (omega arith))
