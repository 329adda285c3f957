-- ===== src/Fifo/Alternate.antt =====
-- Reading ahead: CO_fifo_altBegin, CO_fifo_altRead and CO_fifo_altFinish.
use e_rob_canopen_node_demo.Base.{
  ℕ, zero, suc, ◌+◌, ◌<◌, ◌≡◌, ◌≢◌, refl, sym, ◌∙◌, ap, List, [], ◌∷◌, ◌++◌, arith, min, Option,
  some, inl, inr, get_or, take, drop, length, true, false, Bool-cases, ◌==◌,
}
use e_rob_canopen_node_demo.Crc.{crc16_ccitt, crc16_ccitt_single}
use e_rob_canopen_node_demo.Crc.Bitwise.{loop_step}
use e_rob_canopen_node_demo.Fifo.{
  Fifo, next, alt_skip, alt_begin, alt_read, alt_catch_up, alt_finish,
}
use e_rob_canopen_node_demo.Fifo.Contents.{IsValid, span, contents, alt_contents, next_lem}
use e_rob_canopen_node_demo.Base.Ring.{
  next_index, distance, distance-next, distance-lt, next_index-lt,
}
use e_rob_canopen_node_demo.Base.Ring

-- The alternate pointer stands between the read pointer and the write pointer, going round.
abbrev pub IsAhead : Fifo → Type 0
IsAhead f =
    distance f.buf_size f.read_ptr f.alt_read_ptr + distance f.buf_size f.alt_read_ptr f.write_ptr
    ≡ distance f.buf_size f.read_ptr f.write_ptr

abbrev alt_advance : Fifo → Fifo
alt_advance f = record f { alt_read_ptr = next f f.alt_read_ptr }

alt_advance-IsValid : {f : Fifo} → IsValid f → IsValid (alt_advance f)
alt_advance-IsValid {f} v =
    ground (arith, next_lem f f.alt_read_ptr, next_index-lt f.buf_size f.alt_read_ptr)

-- Arithmetic of the three pointers.
ahead_step :
    (size r a w : ℕ)
    → r < size
    → a < size
    → w < size
    → a ≢ w
    → distance size r a + distance size a w ≡ distance size r w
    → distance size r (next_index size a) + distance size (next_index size a) w ≡ distance size r w
ahead_step size r a w p q s ne e = ground arith

behind_step :
    (size r a w : ℕ)
    → r < size
    → a < size
    → w < size
    → r ≢ a
    → distance size r a + distance size a w ≡ distance size r w
    → distance size (next_index size r) a + distance size a w ≡ distance size (next_index size r) w
behind_step size r a w p q s ne e = ground arith

behind_ne :
    (size r a w : ℕ)
    → r < size
    → a < size
    → w < size
    → r ≢ a
    → distance size r a + distance size a w ≡ distance size r w
    → r ≢ w
behind_ne size r a w p q s ne e h = ground arith

alt_advance-IsAhead :
    {f : Fifo}
    → IsValid f
    → IsAhead f
    → (f.alt_read_ptr == f.write_ptr) ≡ false
    → IsAhead (alt_advance f)
alt_advance-IsAhead {f} v h e = rw (next_lem f f.alt_read_ptr (omega (arith, v))) (
    ahead_step f.buf_size f.read_ptr f.alt_read_ptr f.write_ptr v.read_in v.alt_in v.write_in
      (ground arith) h)

alt-empty : (f : Fifo) → (f.alt_read_ptr == f.write_ptr) ≡ true → alt_contents f ≡ []
alt-empty f h = let e : distance f.buf_size f.alt_read_ptr f.write_ptr ≡ 0 = ground arith in rw e

alt-cons :
    {f : Fifo}
    → IsValid f
    → (f.alt_read_ptr == f.write_ptr) ≡ false
    → alt_contents f ≡ get_or f.buf f.alt_read_ptr 0 ∷ alt_contents (alt_advance f)
alt-cons {f} v h = rw (next_lem f f.alt_read_ptr (omega (arith, v))) (
    Ring.span-next 0 f.buf f.buf_size f.alt_read_ptr f.write_ptr v.alt_in v.write_in (ground arith))

-- What reading ahead over `n` bytes has done: nothing is removed.
pub record Ahead (f : Fifo) (n : ℕ) (g : Fifo) : Type 0 where
  pub valid : IsValid g
  pub ahead : IsAhead g
  pub same : contents g ≡ contents f
  pub rest : alt_contents g ≡ drop n (alt_contents f)

Ahead-here :
    (n : ℕ) {f : Fifo}
    → IsValid f
    → IsAhead f
    → (f.alt_read_ptr == f.write_ptr) ≡ true
    → Ahead f n f
Ahead-here n {f} v h e = record {
  valid = v;
  ahead = h;
  same = refl;
  rest = alt-empty f e ∙ sym (drops n (alt_contents f) (alt-empty f e));
}
  where
    drops : (n : ℕ) (q : List ℕ) → q ≡ [] → drop n q ≡ []
    drops zero q p = p
    drops (suc n) [] p = refl
    drops (suc n) (c ∷ q) p = cc

Ahead-more :
    (n : ℕ) {f g : Fifo}
    → IsValid f
    → (f.alt_read_ptr == f.write_ptr) ≡ false
    → Ahead (alt_advance f) n g
    → Ahead f (suc n) g
Ahead-more n {f} v e r = record {
  valid = r.valid;
  ahead = r.ahead;
  same = r.same;
  rest = rw (alt-cons v e) r.rest;
}

alt_skip-Ahead :
    (n : ℕ) {f : Fifo}
    → IsValid f
    → IsAhead f
    → Ahead f n (alt_skip n f).1 × ((alt_skip n f).0 ≡ min n (length (alt_contents f)))
unfolding alt_skip
alt_skip-Ahead zero {f} v h =
    (record { valid = v; ahead = h; same = refl; rest = refl }, omega arith)
alt_skip-Ahead (suc n) {f} v h = elim (Bool-cases (f.alt_read_ptr == f.write_ptr)) [
  | inl e ↦ rw e (Ahead-here (suc n) v h e, rw (alt-empty f e) (omega arith))
  | inr e ↦
      let (r, k) = alt_skip-Ahead n (alt_advance-IsValid v) (alt_advance-IsAhead v h e) in
      rw e (Ahead-more n v e r, rw (alt-cons v e) (omega (arith, k)))
]

-- `CO_fifo_altBegin` skips as many held bytes as `offset` asks for, returns their number, removes
-- nothing, and sets the alternate pointer on what follows them.
pub alt_begin_skips :
    (offset : ℕ) {f : Fifo}
    → IsValid f
    → let (n, g) = alt_begin f offset in
      IsValid g
      × IsAhead g
      × (contents g ≡ contents f)
      × (alt_contents g ≡ drop offset (contents f))
      × (n ≡ min offset (length (contents f)))
unfolding alt_begin
alt_begin_skips offset {f} v =
    let start : Fifo = record f { alt_read_ptr = f.read_ptr } in
    let valid : IsValid start = ground (arith, v) in
    let (r, k) = alt_skip-Ahead offset {f = start} valid (ground arith) in
    (r.valid, r.ahead, r.same, r.rest, k)

alt_read-Ahead :
    (n : ℕ) {f : Fifo}
    → IsValid f
    → IsAhead f
    → Ahead f n (alt_read n f).1 × ((alt_read n f).0 ≡ take n (alt_contents f))
unfolding alt_read
alt_read-Ahead zero {f} v h = (record { valid = v; ahead = h; same = refl; rest = refl }, refl)
alt_read-Ahead (suc n) {f} v h = elim (Bool-cases (f.alt_read_ptr == f.write_ptr)) [
  | inl e ↦ rw e (Ahead-here (suc n) v h e, rw (alt-empty f e))
  | inr e ↦
      let (r, k) = alt_read-Ahead n (alt_advance-IsValid v) (alt_advance-IsAhead v h e) in
      rw e (Ahead-more n v e r, rw (alt-cons v e) (ap (◌∷◌ (get_or f.buf f.alt_read_ptr 0)) k))
]

-- `CO_fifo_altRead` gives the bytes from the alternate pointer on, at most `count`, moves that
-- pointer behind them, and removes nothing.
pub alt_read_takes :
    (count : ℕ) {f : Fifo}
    → IsValid f
    → IsAhead f
    → let (bytes, g) = alt_read count f in
      IsValid g
      × IsAhead g
      × (contents g ≡ contents f)
      × (bytes ≡ take count (alt_contents f))
      × (alt_contents g ≡ drop count (alt_contents f))
alt_read_takes count v h =
    let (r, k) = alt_read-Ahead count v h in (r.valid, r.ahead, r.same, k, r.rest)

abbrev advance : Fifo → Fifo
advance f = record f { read_ptr = next f f.read_ptr }

-- What is removed between the read pointer and the alternate pointer.
pub record Caught (f : Fifo) (crc : ℕ) (out : Option (ℕ × Fifo)) : Type 0 where
  pub state : Fifo
  pub taken : List ℕ
  pub valid : IsValid state
  pub returns : out ≡ some (crc16_ccitt taken crc, state)
  pub splits : contents f ≡ taken ++ contents state
  pub rest : contents state ≡ alt_contents f

Caught-step :
    {f : Fifo} (crc : ℕ) (out : Option (ℕ × Fifo))
    → IsValid f
    → f.read_ptr ≢ f.write_ptr
    → get_or f.buf f.read_ptr 0 < 256
    → Caught (advance f) (crc16_ccitt_single crc (get_or f.buf f.read_ptr 0)) out
    → Caught f crc out
Caught-step {f} crc out v ne byte c =
    let b = get_or f.buf f.read_ptr 0 in
    record {
      state = c.state;
      taken = b ∷ c.taken;
      valid = c.valid;
      returns = c.returns ∙ ap (λ t. some (t, c.state)) (sym (loop_step b c.taken crc byte));
      splits = front v ne ∙ ap (◌∷◌ b) c.splits;
      rest = c.rest;
    }
  where
    front :
        IsValid f
        → f.read_ptr ≢ f.write_ptr
        → contents f ≡ get_or f.buf f.read_ptr 0 ∷ contents (advance f)
    front v ne =
        rw (next_lem f f.read_ptr (omega (arith, v)))
          (Ring.span-next 0 f.buf f.buf_size f.read_ptr f.write_ptr v.read_in v.write_in ne)

Caught-here :
    {f : Fifo} (crc : ℕ) → IsValid f → f.read_ptr ≡ f.alt_read_ptr → Caught f crc (some (crc, f))
Caught-here {f} crc v e = record {
  state = f;
  taken = [];
  valid = v;
  returns = unfold crc16_ccitt in refl;
  splits = refl;
  rest = ap (λ p. span f.buf f.buf_size p (distance f.buf_size p f.write_ptr)) e;
}

advance-IsValid : {f : Fifo} → IsValid f → IsValid (advance f)
advance-IsValid {f} v = ground (arith, next_lem f f.read_ptr, next_index-lt f.buf_size f.read_ptr)

advance-IsAhead :
    {f : Fifo}
    → IsValid f
    → IsAhead f
    → f.read_ptr ≢ f.alt_read_ptr
    → IsAhead (advance f)
      × (distance f.buf_size f.read_ptr f.alt_read_ptr
          ≡ suc (distance f.buf_size (next f f.read_ptr) f.alt_read_ptr))
advance-IsAhead {f} v h ne = rw (next_lem f f.read_ptr (omega (arith, v))) (
  behind_step f.buf_size f.read_ptr f.alt_read_ptr f.write_ptr v.read_in v.alt_in v.write_in ne h,
  distance-next f.buf_size f.read_ptr f.alt_read_ptr v.read_in v.alt_in ne,
)

alt_catch_up-Caught :
    (fuel : ℕ) {f : Fifo} (crc : ℕ)
    → IsValid f
    → IsAhead f
    → ((i : ℕ) → get_or f.buf i 0 < 256)
    → distance f.buf_size f.read_ptr f.alt_read_ptr < fuel
    → Caught f crc (alt_catch_up fuel f crc)
unfolding alt_catch_up
alt_catch_up-Caught zero {f} crc v h b d = absurd (omega arith)
alt_catch_up-Caught (suc fuel) {f} crc v h b d = elim (Bool-cases (f.read_ptr == f.alt_read_ptr)) [
  | inl e ↦ rw e (Caught-here crc v (ground arith))
  | inr e ↦
      let ne : f.read_ptr ≢ f.alt_read_ptr = ground arith in
      let apart : f.read_ptr ≢ f.write_ptr =
        behind_ne f.buf_size f.read_ptr f.alt_read_ptr f.write_ptr v.read_in v.alt_in v.write_in ne
          h in
      let (ahead, nearer) = advance-IsAhead v h ne in
      rw e (
        Caught-step crc _ v apart (b f.read_ptr) (
          alt_catch_up-Caught fuel {f = advance f}
            (crc16_ccitt_single crc (get_or f.buf f.read_ptr 0)) (advance-IsValid v) ahead b
            (omega (arith, nearer))))
]

-- `CO_fifo_altFinish` with a CRC, on a valid buffer of bytes whose alternate pointer stands among
-- the bytes held: its loop ends within the fuel, it removes exactly what was read ahead, and runs
-- the CRC over exactly what it removes.
pub alt_finish_removes :
    (crc : ℕ) {f : Fifo}
    → IsValid f
    → IsAhead f
    → ((i : ℕ) → get_or f.buf i 0 < 256)
    → (g : Fifo) × (taken : List ℕ) × IsValid g
      × (alt_finish f (some crc) ≡ some (some (crc16_ccitt taken crc), g))
      × (contents f ≡ taken ++ contents g)
      × (contents g ≡ alt_contents f)
unfolding alt_finish
alt_finish_removes crc {f} v h b =
    let c =
      alt_catch_up-Caught f.buf_size crc v h b
        (distance-lt f.buf_size f.read_ptr f.alt_read_ptr v.read_in v.alt_in) in
    (c.state, c.taken, c.valid, rw (c.returns, alt_finish), c.splits, c.rest)
