-- ===== src/Fifo/Write.antt =====
-- What the writing functions of CO_fifo.c and CO_fifo.h add to the bytes held.
use mathlib.Core.Option
use e_rob_canopen_node_demo.Base.{
  ℕ, suc, ◌+◌, ◌<◌, ◌≡◌, refl, sym, ◌∙◌, ap, List, [], ◌∷◌, ◌++◌, arith, min, Option, none, some,
  inl, inr, set, take, drop, length, length-set, All, take-nil, append-nil, append_assoc, true,
  false, Bool-cases, if◌then◌else◌, ◌==◌,
}
use e_rob_canopen_node_demo.Crc.{crc16_ccitt}
use e_rob_canopen_node_demo.Crc.Bitwise.{loop_step}
use e_rob_canopen_node_demo.Fifo.{Fifo, next, is_full, putc, putc_ov, write, get_space, crc_step}
use e_rob_canopen_node_demo.Fifo.Contents.{IsValid, contents, next_lem, is_full_lem}
use e_rob_canopen_node_demo.Base.Ring.{next_index, distance, next_index-lt}
use e_rob_canopen_node_demo.Base.Ring

-- The record update that every write makes.
abbrev store : Fifo → ℕ → Fifo
store f c = record f { buf = set f.buf f.write_ptr c; write_ptr = next f f.write_ptr }

store-IsValid : {f : Fifo} (c : ℕ) → IsValid f → IsValid (store f c)
store-IsValid {f} c v = ground (
  arith,
  next_lem f f.write_ptr,
  next_index-lt f.buf_size f.write_ptr,
  length-set f.buf f.write_ptr c,
)

contents-store :
    {f : Fifo} (c : ℕ) → IsValid f → is_full f ≡ false → contents (store f c) ≡ contents f ++ c ∷ []
contents-store {f} c v h = rw (next_lem f f.write_ptr (omega (arith, v))) (
    Ring.span-write 0 f.buf f.buf_size f.read_ptr f.write_ptr c v.storage v.read_in v.write_in
      (ground (arith, is_full_lem v)))

space-store :
    {f : Fifo} (c : ℕ) → IsValid f → is_full f ≡ false → get_space f ≡ suc (get_space (store f c))
unfolding get_space
space-store {f} c v h = ground (arith, is_full_lem v, next_lem f f.write_ptr)

space-full : {f : Fifo} → IsValid f → is_full f ≡ true → get_space f ≡ 0
unfolding get_space
space-full {f} v h = ground (arith, is_full_lem v)

-- `CO_fifo_putc` refuses exactly when no space is left; otherwise it appends the byte, and leaves
-- the reading side alone.
pub putc_appends :
    {f : Fifo} (c : ℕ)
    → IsValid f
    → let (done, g) = putc f c in
      IsValid g
      × (contents g ≡ contents f ++ (if get_space f == 0 then [] else c ∷ []))
      × (done ≡ (if get_space f == 0 then false else true))
      × (g.read_ptr ≡ f.read_ptr)
unfolding putc
putc_appends {f} c v = elim (Bool-cases (is_full f)) [
  | inl e ↦ ground (arith, space-full v e, append-nil (contents f))
  | inr e ↦ ground (arith, space-store c v e, store-IsValid c v, contents-store c v e)
]

-- What a write of `bytes` must have done.
pub record Wrote (f : Fifo) (bytes : List ℕ) (crc : Option ℕ) (out : ℕ × Option ℕ × Fifo)
    : Type 0 where
  pub valid : IsValid out.2
  pub count : out.0 ≡ min (length bytes) (get_space f)
  pub appended : contents out.2 ≡ contents f ++ take (get_space f) bytes
  pub checked : out.1 ≡ Option.map (crc16_ccitt (take (get_space f) bytes)) crc
  pub reading : out.2.read_ptr ≡ f.read_ptr

map-crc_nil : (crc : Option ℕ) → Option.map (crc16_ccitt []) crc ≡ crc
unfolding crc16_ccitt
map-crc_nil none = refl
map-crc_nil (some c) = refl

map-crc_cons :
    (b : ℕ) (bytes : List ℕ) (crc : Option ℕ)
    → b < 256
    → Option.map (crc16_ccitt (b ∷ bytes)) crc ≡ Option.map (crc16_ccitt bytes) (crc_step crc b)
map-crc_cons b bytes none h = refl
map-crc_cons b bytes (some c) h = ap some (loop_step b bytes c h)

write-full :
    (f : Fifo) (bytes : List ℕ) (crc : Option ℕ)
    → is_full f ≡ true
    → write f bytes crc ≡ (0, crc, f)
unfolding write
write-full f [] crc h = refl
write-full f (c ∷ bytes) crc h = rw h

write_step :
    (f : Fifo) (c : ℕ) (bytes : List ℕ) (crc : Option ℕ)
    → is_full f ≡ false
    → let rest = write (store f c) bytes (crc_step crc c) in
      write f (c ∷ bytes) crc ≡ (rest.0 + 1, rest.1, rest.2)
unfolding write
write_step f c bytes crc h = rw h

-- `CO_fifo_write` takes as many bytes as fit and returns their number, appends exactly those in
-- order, runs the CRC (where one is given) over exactly those, and keeps the buffer valid and the
-- read pointer.
pub write_appends :
    (bytes : List ℕ) (crc : Option ℕ) {f : Fifo}
    → IsValid f
    → All (λ b. b < 256) bytes
    → Wrote f bytes crc (write f bytes crc)
write_appends [] crc {f} v h = record {
  valid = unfold write in v;
  count = unfold write in omega arith;
  appended = unfold write in rw take-nil (sym (append-nil (contents f)));
  checked = unfold write in rw take-nil (sym (map-crc_nil crc));
  reading = unfold write in refl;
}
write_appends (c ∷ bytes) crc {f} v h = elim (Bool-cases (is_full f)) [
  | inl e ↦ rw (write-full f (c ∷ bytes) crc e) (record {
    valid = v;
    count = rw (space-full v e) (omega arith);
    appended = rw (space-full v e) (sym (append-nil (contents f)));
    checked = rw (space-full v e) (sym (map-crc_nil crc));
    reading = refl;
  })
  | inr e ↦
      let w = write_appends bytes (crc_step crc c) (store-IsValid c v) h.1 in
      let s : get_space f ≡ suc (get_space (store f c)) = space-store c v e in
      rw (write_step f c bytes crc e) (record {
        valid = w.valid;
        count = omega (arith, w.count, s);
        appended = rw s (
            w.appended
            ∙ ap (λ t. t ++ take (get_space (store f c)) bytes) (contents-store c v e)
            ∙ append_assoc (contents f) (c ∷ []) (take (get_space (store f c)) bytes));
        checked =
            rw s (w.checked ∙ sym (map-crc_cons c (take (get_space (store f c)) bytes) crc h.0));
        reading = w.reading;
      })
]

putc_ov-full :
    {f : Fifo} (c : ℕ)
    → IsValid f
    → is_full f ≡ true
    → putc_ov f c ≡ record (store f c) { read_ptr = next f f.read_ptr }
unfolding putc_ov next
putc_ov-full {f} c v e = ground (arith, is_full_lem v, next_lem f f.write_ptr)

putc_ov-room : {f : Fifo} (c : ℕ) → IsValid f → is_full f ≡ false → putc_ov f c ≡ store f c
unfolding putc_ov
putc_ov-room {f} c v e = ground (arith, is_full_lem v, next_lem f f.write_ptr)

contents-overwrite :
    {f : Fifo} (c : ℕ)
    → IsValid f
    → is_full f ≡ true
    → contents (record (store f c) { read_ptr = next f f.read_ptr }) ≡ drop 1 (contents f ++ c ∷ [])
contents-overwrite {f} c v e =
    let size = f.buf_size in
    let n = distance size f.read_ptr f.write_ptr in
    let meets : next_index size f.write_ptr ≡ f.read_ptr = ground (arith, is_full_lem v) in
    let left : distance size (next_index size f.read_ptr) f.read_ptr ≡ n = ground arith in
    rw
      (
        next_lem f f.write_ptr (omega (arith, v)),
        next_lem f f.read_ptr (omega (arith, v)),
        meets,
        left,
      )
      (ap (drop 1)
        (Ring.span-extend 0 f.buf size c f.read_ptr f.write_ptr v.storage v.read_in v.write_in))

-- `CO_fifo_putc_ov` always appends the byte, drops the oldest one exactly when no space was left,
-- and keeps the buffer valid.
pub putc_ov_appends :
    {f : Fifo} (c : ℕ)
    → IsValid f
    → IsValid (putc_ov f c)
      × (contents (putc_ov f c) ≡ drop (if get_space f == 0 then 1 else 0) (contents f ++ c ∷ []))
putc_ov_appends {f} c v = elim (Bool-cases (is_full f)) [
  | inl e ↦
      rw (putc_ov-full c v e, space-full v e)
        (
          ground (
            arith,
            store-IsValid c v,
            next_lem f f.read_ptr,
            next_index-lt f.buf_size f.read_ptr,
          ),
          contents-overwrite c v e,
        )
  | inr e ↦
      let z : (get_space f == 0) ≡ false = ground (arith, space-store c v e) in
      rw (putc_ov-room c v e, z) (store-IsValid c v, contents-store c v e)
]
