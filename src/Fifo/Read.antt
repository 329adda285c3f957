-- ===== src/Fifo/Read.antt =====
-- What the reading functions of CO_fifo.c and CO_fifo.h take from the bytes held.
use e_rob_canopen_node_demo.Base.{
  ℕ, zero, suc, ◌≡◌, ◌↔◌, refl, sym, ◌∙◌, ap, List, [], ◌∷◌, ◌++◌, arith, Option, none, some, inl,
  inr, get_or, take, drop, Bool, true, false, Bool-cases, if◌then◌else◌, ◌==◌, ◌&&◌,
}
use e_rob_canopen_node_demo.Fifo.{Fifo, next, read, read_loop, getc, delim_command}
use e_rob_canopen_node_demo.Fifo.Contents.{IsValid, contents, next_lem}
use e_rob_canopen_node_demo.Base.Ring.{distance, next_index-lt}
use e_rob_canopen_node_demo.Base.Ring

-- The record update that every read makes.
abbrev pub advance : Fifo → Fifo
advance f = record f { read_ptr = next f f.read_ptr }

pub advance-IsValid : {f : Fifo} → IsValid f → IsValid (advance f)
advance-IsValid {f} v = ground (arith, next_lem f f.read_ptr, next_index-lt f.buf_size f.read_ptr)

pub contents-empty : (f : Fifo) → (f.read_ptr == f.write_ptr) ≡ true → contents f ≡ []
contents-empty f h = let e : distance f.buf_size f.read_ptr f.write_ptr ≡ 0 = ground arith in rw e

pub contents-cons :
    {f : Fifo}
    → IsValid f
    → (f.read_ptr == f.write_ptr) ≡ false
    → contents f ≡ get_or f.buf f.read_ptr 0 ∷ contents (advance f)
contents-cons {f} v h =
    rw (next_lem f f.read_ptr (omega (arith, v)))
      (Ring.span-next 0 f.buf f.buf_size f.read_ptr f.write_ptr v.read_in v.write_in (ground arith))

-- The bytes that a read of at most `count` gives: up to the first newline, if `eof` is wanted.
unfoldable pub line_of : ℕ → Bool → List ℕ → List ℕ
line_of zero want q = []
line_of (suc count) want [] = []
line_of (suc count) want (c ∷ q) =
    c ∷ (if want && c == delim_command then [] else line_of count want q)

-- Whether those bytes end with the newline.
unfoldable pub line_ends : ℕ → Bool → List ℕ → Bool
line_ends zero want q = false
line_ends (suc count) want [] = false
line_ends (suc count) want (c ∷ q) =
    if want && c == delim_command then true else line_ends count want q

pub record DidRead (f : Fifo) (count : ℕ) (want : Bool) (out : List ℕ × Bool × Fifo) : Type 0 where
  pub valid : IsValid out.2
  pub bytes : out.0 ≡ line_of count want (contents f)
  pub left : contents f ≡ out.0 ++ contents out.2
  pub eof : out.1 ≡ line_ends count want (contents f)
  pub writing : out.2.write_ptr ≡ f.write_ptr

nothing_read :
    (count : ℕ) (want : Bool) {f : Fifo}
    → IsValid f
    → contents f ≡ []
    → DidRead f count want ([], false, f)
unfolding line_of line_ends
nothing_read zero want v e = record {
  valid = v;
  bytes = refl;
  left = refl;
  eof = refl;
  writing = refl;
}
nothing_read (suc count) want v e = record {
  valid = v;
  bytes = rw e;
  left = refl;
  eof = rw e;
  writing = refl;
}

-- One byte more, in front of what the rest of the loop reads.
one_read :
    (count : ℕ) (want : Bool) {f : Fifo} (c : ℕ) (out : List ℕ × Bool × Fifo)
    → contents f ≡ c ∷ contents (advance f)
    → (want && c == delim_command) ≡ false
    → DidRead (advance f) count want out
    → DidRead f (suc count) want (c ∷ out.0, out.1, out.2)
unfolding line_of line_ends
one_read count want c out front more rest = record {
  valid = rest.valid;
  bytes = rw (front, more) (ap (◌∷◌ c) rest.bytes);
  left = front ∙ ap (◌∷◌ c) rest.left;
  eof = rw (front, more) rest.eof;
  writing = rest.writing;
}

newline_read :
    (count : ℕ) (want : Bool) {f : Fifo} (c : ℕ)
    → IsValid f
    → contents f ≡ c ∷ contents (advance f)
    → (want && c == delim_command) ≡ true
    → DidRead f (suc count) want (c ∷ [], true, advance f)
unfolding line_of line_ends
newline_read count want c v front stop = record {
  valid = advance-IsValid v;
  bytes = rw (front, stop);
  left = front;
  eof = rw (front, stop);
  writing = refl;
}

read_loop-DidRead :
    (count : ℕ) (want : Bool) {f : Fifo} → IsValid f → DidRead f count want (read_loop count f want)
unfolding read_loop
read_loop-DidRead zero want v =
    unfold line_of line_ends in
    record { valid = v; bytes = refl; left = refl; eof = refl; writing = refl }
read_loop-DidRead (suc count) want {f} v = elim (Bool-cases (f.read_ptr == f.write_ptr)) [
  | inl e ↦ rw e (nothing_read (suc count) want v (contents-empty f e))
  | inr e ↦ elim (Bool-cases (want && get_or f.buf f.read_ptr 0 == delim_command)) [
    | inl s ↦ rw (e, s) (newline_read count want _ v (contents-cons v e) s)
    | inr m ↦
        rw (e, m)
          (one_read count want _ _ (contents-cons v e) m
            (read_loop-DidRead count want (advance-IsValid v)))
  ]
]

-- `CO_fifo_read` gives the oldest bytes, at most `count` and, where `eof` is wanted, none behind
-- the first newline; it removes exactly those, sets `eof` exactly when the last one is that
-- newline, and keeps the buffer valid and the write pointer.
pub read_takes :
    (count : ℕ) (want : Bool) {f : Fifo} → IsValid f → DidRead f count want (read f count want)
unfolding read
read_takes count want {f} v = elim (Bool-cases (f.read_ptr == f.write_ptr)) [
  | inl e ↦ rw e (nothing_read count want v (contents-empty f e))
  | inr e ↦ rw e (read_loop-DidRead count want v)
]

line_of-take : (count : ℕ) (q : List ℕ) → line_of count false q ≡ take count q
unfolding line_of
line_of-take zero q = refl
line_of-take (suc count) [] = refl
line_of-take (suc count) (c ∷ q) = ap (◌∷◌ c) (line_of-take count q)

append-drop : (count : ℕ) (q r : List ℕ) → q ≡ take count q ++ r → drop count q ≡ r
append-drop zero q r e = e
append-drop (suc count) [] r e = e
append-drop (suc count) (c ∷ q) r e = append-drop count q r (ap (drop 1) e)

-- Without `eof` a read is `take`, and what stays is `drop`.
pub read_plain :
    (count : ℕ) {f : Fifo}
    → IsValid f
    → let (bytes, _, g) = read f count false in
      (bytes ≡ take count (contents f)) × (contents g ≡ drop count (contents f))
read_plain count {f} v =
    let out = read f count false in
    let d = read_takes count false v in
    let bytes : out.0 ≡ take count (contents f) = d.bytes ∙ line_of-take count (contents f) in
    (
      bytes,
      sym (
          append-drop count (contents f) (contents out.2)
            (d.left ∙ ap (λ t. t ++ contents out.2) bytes)),
    )

getc-empty : (f : Fifo) → (f.read_ptr == f.write_ptr) ≡ true → getc f ≡ (none, f)
unfolding getc
getc-empty f e = rw e

getc-some :
    (f : Fifo)
    → (f.read_ptr == f.write_ptr) ≡ false
    → getc f ≡ (some (get_or f.buf f.read_ptr 0), advance f)
unfolding getc
getc-some f e = rw e

abbrev pub front_of : Option ℕ → List ℕ
front_of none = []
front_of (some c) = c ∷ []

-- `CO_fifo_getc` takes the oldest byte: none exactly when nothing is held.
pub getc_takes :
    {f : Fifo}
    → IsValid f
    → IsValid (getc f).1
      × (contents f ≡ front_of (getc f).0 ++ contents (getc f).1)
      × (((getc f).0 ≡ none) ↔ (contents f ≡ []))
getc_takes {f} v = elim (Bool-cases (f.read_ptr == f.write_ptr)) [
  | inl e ↦ rw (getc-empty f e) (v, refl, (λ _. contents-empty f e, λ _. refl))
  | inr e ↦
      rw (getc-some f e)
        (advance-IsValid v, contents-cons v e, (λ h. cc, λ h. cc (contents-cons v e)))
]
