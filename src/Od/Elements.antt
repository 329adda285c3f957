-- ===== src/Od/Elements.antt =====
-- The elements of an array in the Object Dictionary, as OD_getSub hands them out: OD_getSub,
-- OD_writeOriginal and OD_readOriginal of 301/CO_ODinterface.c.
use native.Mathlib.Nat.{mul-le-mul_left}
use native.Mathlib.Decide.{dec_lt}
use e_rob_canopen_node_demo.Base.{
  ℕ, zero, suc, ◌+◌, ◌-◌, ◌*◌, ◌≤◌, ◌<◌, ◌≡◌, ◌≢◌, refl, sym, ap, ◌∙◌, List, [], ◌∷◌, ◌++◌, Bool,
  false, Option, none, some, inl, inr, ◌⊎◌, arith, take, drop, length, leb, ◌==◌, u8, Option-cases,
  Bool-cases,
}
use e_rob_canopen_node_demo.Od.{Odr, Stream, Memory, slice, splice, write_original}
use e_rob_canopen_node_demo.Od.Entries.{Entry, Object, ObjArray, Io, found, get_sub, get_sub_object}
use e_rob_canopen_node_demo.Od.Transfer.{read_all, read_all_lem, write_original-whole, slice-splice}

drop-nil {ℓ} : (A : Type ℓ) (n : ℕ) → drop {A = A} n [] ≡ []
drop-nil A zero = refl
drop-nil A (suc n) = refl

drop_past :
    (r : ℕ) (xs ys : List ℕ) → length xs ≤ r → drop r (xs ++ drop (length xs) ys) ≡ drop r ys
drop_past r [] ys p = refl
drop_past zero (x ∷ xs) ys p = absurd (omega arith)
drop_past (suc r) (x ∷ xs) [] p =
    ap (λ t. drop r (xs ++ t)) (sym (drop-nil ℕ (length xs)))
    ∙ drop_past r xs [] (omega arith)
    ∙ drop-nil ℕ r
drop_past (suc r) (x ∷ xs) (y ∷ ys) p = drop_past r xs ys (omega arith)

slice_below :
    (mem : Memory) (q r n : ℕ) (bytes : List ℕ)
    → r + n ≤ q
    → q ≤ length mem
    → slice (splice mem q bytes) r n ≡ slice mem r n
slice_below mem zero r n bytes p l = let z : n ≡ 0 = omega arith in rw z refl
slice_below [] (suc q) r n bytes p l = absurd (omega arith)
slice_below (m ∷ mem) (suc q) zero zero bytes p l = refl
slice_below (m ∷ mem) (suc q) zero (suc n) bytes p l =
    let e : suc q + length bytes ≡ suc (q + length bytes) = omega arith in
    rw e (ap (λ t. m ∷ t) (slice_below mem q zero n bytes (omega arith) (omega arith)))
slice_below (m ∷ mem) (suc q) (suc r) n bytes p l =
    let e : suc q + length bytes ≡ suc (q + length bytes) = omega arith in
    rw e (slice_below mem q r n bytes (omega arith) (omega arith))

slice_above :
    (mem : Memory) (q r n : ℕ) (bytes : List ℕ)
    → q + length bytes ≤ r
    → q ≤ length mem
    → slice (splice mem q bytes) r n ≡ slice mem r n
slice_above mem zero r n bytes p l =
    let e : 0 + length bytes ≡ length bytes = omega arith in
    rw e (ap (take n) (drop_past r bytes mem (omega arith)))
slice_above [] (suc q) r n bytes p l = absurd (omega arith)
slice_above (m ∷ mem) (suc q) zero n bytes p l = absurd (omega arith)
slice_above (m ∷ mem) (suc q) (suc r) n bytes p l =
    let e : suc q + length bytes ≡ suc (q + length bytes) = omega arith in
    rw e (slice_above mem q r n bytes (omega arith) (omega arith))

-- Bytes written outside the range that is read.
slice_apart :
    (mem : Memory) (q r n : ℕ) (bytes : List ℕ)
    → (r + n ≤ q) ⊎ (q + length bytes ≤ r)
    → q ≤ length mem
    → slice (splice mem q bytes) r n ≡ slice mem r n
slice_apart mem q r n bytes (inl p) l = slice_below mem q r n bytes p l
slice_apart mem q r n bytes (inr p) l = slice_above mem q r n bytes p l

-- The stream of an element of an array.
abbrev element : Entry → ObjArray → ℕ → ℕ → Stream
element entry o start sub = record {
  data_orig = some (start + o.data_element_sizeof * (sub - 1));
  data_length = o.data_element_length;
  data_offset = 0;
  attribute = o.attribute;
  index = entry.index;
  sub_index = sub;
}

-- Calls of OD_readOriginal until one does not return ODR_PARTIAL.
abbrev pub read_whole : Memory → Stream → ℕ → Option (List ℕ × Stream)
read_whole mem s count = read_all (s.data_length + 1) mem s count

-- What `OD_getSub` returns, apart from the functions of the io.
abbrev stream_of : Odr × Option Io → Stream → Stream
stream_of r s = elim r.1 [ none ↦ s | some io ↦ io.stream ]

get_sub_object-element :
    (o : ObjArray) (start entries sub : ℕ)
    → o.data_orig ≡ some start
    → entries ≤ 256
    → 0 < sub
    → sub < entries
    → get_sub_object (Object.arr o) entries sub
      ≡ found (some (start + o.data_element_sizeof * (sub - 1))) o.data_element_length o.attribute
unfolding get_sub_object
get_sub_object-element o start entries sub d c p l =
    let a : leb entries sub ≡ false = ground arith in
    let b : (sub == 0) ≡ false = ground arith in
    let w : u8 (sub - 1) ≡ sub - 1 = omega arith in rw (a, b, d) (rw w refl)

stream_of-get_sub :
    (entry : Entry) (o : ObjArray) (start sub : ℕ) (od_orig : Bool) (s : Stream)
    → entry.od_object ≡ some (Object.arr o)
    → o.data_orig ≡ some start
    → entry.sub_entries_count ≤ 256
    → 0 < sub
    → sub < entry.sub_entries_count
    → stream_of (get_sub entry sub od_orig) s ≡ element entry o start sub
unfolding get_sub
stream_of-get_sub entry o start sub od_orig s e d c p l =
    let f = get_sub_object-element o start entry.sub_entries_count sub d c p l in
    elim (Option-cases entry.extension) [
      | inl h ↦ rw (e, get_sub, f, h) refl
      | inr h ↦ elim (Bool-cases od_orig) [
        | inl b ↦ rw (e, get_sub, f, h.1, b) refl
        | inr b ↦ rw (e, get_sub, f, h.1, b) refl
      ]
    ]

-- The multiples of `k` at two places are at least `k` apart.
times_apart : (k x y : ℕ) → x < y → k * x + k ≤ k * y
times_apart k x y p = let q : x + 1 ≤ y = omega arith in let m = mul-le-mul_left k q in omega arith

ranges_apart :
    (start k len a b : ℕ)
    → len ≤ k
    → 0 < a
    → 0 < b
    → a ≢ b
    → (start + k * (b - 1) + len ≤ start + k * (a - 1))
      ⊎ (start + k * (a - 1) + len ≤ start + k * (b - 1))
ranges_apart start k len a b w p q n = elim (dec_lt a b) [
  | yes h ↦ let m = times_apart k (a - 1) (b - 1) (omega arith) in inr (omega arith)
  | no h ↦
      let lt : b < a = elim (dec_lt b a) [ yes g ↦ g | no g ↦ absurd (n (omega arith)) ] in
      let m = times_apart k (b - 1) (a - 1) (omega arith) in inl (omega arith)
]

module _ (entry : Entry) (o : ObjArray) (start : ℕ) (is_arr : entry.od_object ≡ some (Object.arr o))
    (is_placed : o.data_orig ≡ some start) (fits : o.data_element_length ≤ o.data_element_sizeof)
    (few : entry.sub_entries_count ≤ 256) where
  got_stream :
      (sub : ℕ) (od_orig : Bool) (io : Io)
      → 0 < sub
      → sub < entry.sub_entries_count
      → get_sub entry sub od_orig ≡ (Odr.ok, some io)
      → io.stream ≡ element entry o start sub
  got_stream sub od_orig io p l g =
      sym (ap (λ r. stream_of r io.stream) g)
      ∙ stream_of-get_sub entry o start sub od_orig io.stream is_arr is_placed few p l

  -- Where an array of at most 256 entries lies in the memory and its elements fit their places, a
  -- whole write of one element by OD_writeOriginal, through the stream of OD_getSub, is read back by
  -- OD_readOriginal calls of any block size but zero, and what they read of any other element stays
  -- as it was.
  pub write_original_keeps_elements :
      (a b : ℕ) (od_orig : Bool) (io other : Io) (mem : Memory) (buf : List ℕ) (count : ℕ)
      → start + o.data_element_sizeof * (entry.sub_entries_count - 1) ≤ length mem
      → 0 < a
      → a < entry.sub_entries_count
      → 0 < b
      → b < entry.sub_entries_count
      → a ≢ b
      → get_sub entry a od_orig ≡ (Odr.ok, some io)
      → get_sub entry b od_orig ≡ (Odr.ok, some other)
      → length buf ≡ o.data_element_length
      → 0 < count
      → let out = write_original mem io.stream buf in
        (out.code ≡ Odr.ok)
        × (read_whole out.memory io.stream count ≡ some (buf, io.stream))
        × (read_whole out.memory other.stream count ≡ read_whole mem other.stream count)
  write_original_keeps_elements a b od_orig io other mem buf count room p l p' l' n ga gb len c =
      let k = o.data_element_sizeof in
      let at = start + k * (a - 1) in
      let there = start + k * (b - 1) in
      let inside : at ≤ length mem =
        let m = times_apart k (a - 1) (entry.sub_entries_count - 1) (omega arith) in omega arith in
      let apart : (there + o.data_element_length ≤ at) ⊎ (at + length buf ≤ there) =
        rw len (ranges_apart start k o.data_element_length a b fits p p' n) in
      let s = element entry o start a in
      let t = element entry o start b in
      let whole = write_original-whole mem s at buf refl refl len in
      let kept =
        read_all_lem (splice mem at buf) t there count refl c refl
        ∙ ap (λ bytes. some (bytes, t))
            (slice_apart mem at there o.data_element_length buf apart inside)
        ∙ sym (read_all_lem mem t there count refl c refl) in
      let again = read_all_lem (splice mem at buf) s at count refl c refl in
      let back =
        again ∙ ap (λ bytes. some (bytes, s)) (rw (← len) (slice-splice mem at buf inside)) in
      rw (got_stream a od_orig io p l ga, got_stream b od_orig other p' l' gb, whole)
        (refl, back, kept)
