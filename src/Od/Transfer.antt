-- ===== src/Od/Transfer.antt =====
-- Transfers of a whole variable by repeated calls of OD_readOriginal and OD_writeOriginal, as the
-- SDO server makes them: the calls go on while they return ODR_PARTIAL.
use native.Mathlib.Numerals.{unary_clauses}
use native.Mathlib.Decide.{dec_lt}
use e_rob_canopen_node_demo.Base.{
  ℕ, zero, suc, ◌+◌, ◌-◌, ◌≤◌, ◌<◌, ◌≡◌, refl, sym, ap, ◌∙◌, List, [], ◌∷◌, ◌++◌, false, ◌||◌,
  Option, none, some, inl, inr, arith, drop, ltb, leb, Bool-cases, length,
}
use e_rob_canopen_node_demo.Od.Splices.{take-length, drop-drop, take-take-drop}
use e_rob_canopen_node_demo.Od.{Odr, Stream, Memory, slice, splice, read_original, write_original}

unfoldable read_more : Odr → List ℕ → Option (List ℕ × Stream) → Stream → Option (List ℕ × Stream)
read_more Odr.partial bytes rest s = elim rest [ none ↦ none | some r ↦ some (bytes ++ r.0, r.1) ]
read_more Odr.ok bytes rest s = some (bytes, s)
read_more _ bytes rest s = none

-- Reads `count` bytes at a time until the call returns something else than ODR_PARTIAL, on fuel.
unfoldable pub read_all : ℕ → Memory → Stream → ℕ → Option (List ℕ × Stream)
unfolding read_more
read_all zero mem s count = none
read_all (suc fuel) mem s count =
    let r = read_original mem s count in
    read_more r.code r.bytes (read_all fuel mem r.stream count) r.stream

slice_joined :
    (mem : Memory) (a b n l r : ℕ) (s : Stream)
    → b ≡ a + n
    → l ≡ n + r
    → ◌≡◌ {A = Option (List ℕ × Stream)}
        (some (slice mem a n ++ slice mem b r, s))
        (some (slice mem a l, s))
slice_joined mem a b n l r s e f =
    rw (e, f, ← drop-drop a n mem) (ap (λ ys. some (ys, s)) (take-take-drop n r (drop a mem)))

pub read_original-partial :
    (mem : Memory) (s : Stream) (orig count : ℕ)
    → s.data_orig ≡ some orig
    → s.data_offset < s.data_length
    → count < s.data_length - s.data_offset
    → read_original mem s count ≡ record {
      code = Odr.partial;
      bytes = slice mem (orig + s.data_offset) count;
      stream = record s { data_offset = s.data_offset + count };
    }
unfolding read_original
read_original-partial mem s orig count e o l = rw e (ground arith)

pub read_original-last :
    (mem : Memory) (s : Stream) (orig count : ℕ)
    → s.data_orig ≡ some orig
    → (0 < s.data_offset → s.data_offset < s.data_length)
    → s.data_length - s.data_offset ≤ count
    → read_original mem s count ≡ record {
      code = Odr.ok;
      bytes = slice mem (orig + s.data_offset) (s.data_length - s.data_offset);
      stream = record s { data_offset = 0 };
    }
unfolding read_original
read_original-last mem s orig count e o l =
    elim (Bool-cases (ltb 0 s.data_offset || ltb count s.data_length)) [
      | inl h ↦
          let more : leb s.data_length s.data_offset ≡ false = ground arith in
          let enough : ltb count (s.data_length - s.data_offset) ≡ false = ground arith in
          rw (e, h, more, enough) refl
      | inr h ↦ let z : s.data_offset ≡ 0 = ground arith in rw (e, h, z) (simp unary_clauses refl)
    ]

read_all-rest :
    (fuel : ℕ) (mem : Memory) (s : Stream) (orig count : ℕ)
    → s.data_orig ≡ some orig
    → 0 < count
    → s.data_length - s.data_offset < fuel
    → (0 < s.data_offset → s.data_offset < s.data_length)
    → read_all fuel mem s count
      ≡ some (
        slice mem (orig + s.data_offset) (s.data_length - s.data_offset),
        record s { data_offset = 0 },
      )
unfolding read_all read_more
read_all-rest zero mem s orig count e c f o = absurd (omega arith)
read_all-rest (suc fuel) mem s orig count e c f o =
    elim (dec_lt count (s.data_length - s.data_offset)) [
      | no h ↦ rw (read_original-last mem s orig count e o (omega arith)) refl
      | yes h ↦
          rw
            (
              read_original-partial mem s orig count e (omega arith) h,
              read_all-rest fuel mem (record s { data_offset = s.data_offset + count }) orig count e
                  c (omega arith) (λ _. omega arith),
            )
            (slice_joined mem (orig + s.data_offset) (orig + (s.data_offset + count)) count
              (s.data_length - s.data_offset) (s.data_length - (s.data_offset + count)) _
              (omega arith) (omega arith))
    ]

-- For every block size but zero, calls of OD_readOriginal from the start of a variable until one
-- does not return ODR_PARTIAL give the whole variable and leave the stream at its start.
pub read_all_lem :
    (mem : Memory) (s : Stream) (orig count : ℕ)
    → s.data_orig ≡ some orig
    → 0 < count
    → s.data_offset ≡ 0
    → read_all (s.data_length + 1) mem s count ≡ some (slice mem orig s.data_length, s)
read_all_lem mem s orig count e c z =
    let r =
      read_all-rest (s.data_length + 1) mem s orig count e c (omega arith)
        (λ p. absurd (omega arith)) in
    let same : record s { data_offset = 0 } ≡ s = ap (λ k. record s { data_offset = k }) (sym z) in
    let from : orig + s.data_offset ≡ orig = omega arith in
    let left : s.data_length - s.data_offset ≡ s.data_length = omega arith in
    r ∙ rw (same, from, left) refl

pub slice-splice :
    (mem : Memory) (addr : ℕ) (bytes : List ℕ)
    → addr ≤ length mem
    → slice (splice mem addr bytes) addr (length bytes) ≡ bytes
slice-splice mem zero bytes p = take-length bytes (drop (0 + length bytes) mem)
slice-splice [] (suc addr) bytes p = absurd (omega arith)
slice-splice (m ∷ mem) (suc addr) bytes p =
    let e : suc addr + length bytes ≡ suc (addr + length bytes) = omega arith in
    rw e (slice-splice mem addr bytes (omega arith))

pub write_original-whole :
    (mem : Memory) (s : Stream) (orig : ℕ) (buf : List ℕ)
    → s.data_orig ≡ some orig
    → s.data_offset ≡ 0
    → length buf ≡ s.data_length
    → write_original mem s buf ≡ record {
      code = Odr.ok;
      count_written = s.data_length;
      memory = splice mem orig buf;
      stream = s;
    }
unfolding write_original
write_original-whole mem s orig buf e z l =
    let a : (ltb 0 s.data_offset || ltb (length buf) s.data_length) ≡ false = ground arith in
    let b : ltb s.data_length (length buf) ≡ false = ground arith in rw (e, a, b) refl

-- A variable that OD_writeOriginal has written as a whole, at an address not behind the memory, is
-- read back by OD_readOriginal calls of any block size but zero.
pub write_original-read_all :
    (mem : Memory) (s : Stream) (orig count : ℕ) (buf : List ℕ)
    → s.data_orig ≡ some orig
    → 0 < count
    → s.data_offset ≡ 0
    → length buf ≡ s.data_length
    → orig ≤ length mem
    → let out = write_original mem s buf in
      (out.code ≡ Odr.ok)
      × (read_all (s.data_length + 1) out.memory out.stream count ≡ some (buf, s))
write_original-read_all mem s orig count buf e c z l p =
    let w = write_original-whole mem s orig buf e z l in
    let r = read_all_lem (splice mem orig buf) s orig count e c z in
    rw w (refl, r ∙ ap (λ b. some (b, s)) (rw (← l) (slice-splice mem orig buf p)))
