-- ===== src/Fifo/Lookup.antt =====
-- The place that CO_fifo_CommSearch finds, before it clears what is behind.
use e_rob_canopen_node_demo.Base.{
  ℕ, ◌+◌, ◌-◌, ◌<◌, ◌≡◌, ◌≢◌, refl, ◌∙◌, ap, subst, [], arith, Option, none, some, inl, inr, Bool,
  true, false, Bool-cases, Option-cases, if◌then◌else◌, ◌==◌, ◌||◌, ltb,
}
use e_rob_canopen_node_demo.Fifo.{Fifo, memchr, comm_find, get_space, delim_command}
use e_rob_canopen_node_demo.Fifo.Contents.{IsValid, span, contents}
use e_rob_canopen_node_demo.Base.Ring.{next_index, distance}
use e_rob_canopen_node_demo.Fifo.Newline.{has_byte, after_byte, memchr-Hit, memchr-none}

-- What the search has found, whichever of its three ways it took.
pub record Found (f : Fifo) (out : Bool × Option ℕ) : Type 0 where
  pub flag : out.0 ≡ (has_byte delim_command (contents f) || get_space f == 0)
  pub inside : (i : ℕ) → out.1 ≡ some i → i < f.buf_size
  pub behind :
      (i : ℕ)
      → out.1 ≡ some i
      → after_byte delim_command (contents f)
        ≡ span f.buf f.buf_size
            (next_index f.buf_size i)
            (distance f.buf_size (next_index f.buf_size i) f.write_ptr)
  pub nothing : out.1 ≡ none → after_byte delim_command (contents f) ≡ []

Found-at :
    (f : Fifo) (i : ℕ)
    → i < f.buf_size
    → has_byte delim_command (contents f) ≡ true
    → after_byte delim_command (contents f)
      ≡ span f.buf f.buf_size
          (next_index f.buf_size i)
          (distance f.buf_size (next_index f.buf_size i) f.write_ptr)
    → Found f (true, some i)
Found-at f i lt there behind = record {
  flag = rw there;
  inside = λ j e. rw (← some_eq e) lt;
  behind = λ j e.
      subst
        (λ t.
          after_byte delim_command (contents f)
          ≡ span f.buf f.buf_size (next_index f.buf_size t)
              (distance f.buf_size (next_index f.buf_size t) f.write_ptr))
        (some_eq e) behind;
  nothing = λ e. cc;
}
  where
    some_eq : {a b : ℕ} → some a ≡ some b → a ≡ b
    some_eq e = cc

Found-none :
    (f : Fifo) (full : Bool)
    → has_byte delim_command (contents f) ≡ false
    → after_byte delim_command (contents f) ≡ []
    → full ≡ (get_space f == 0)
    → Found f (full, none)
Found-none f full miss behind e = record {
  flag = rw miss e;
  inside = λ j h. cc;
  behind = λ j h. cc;
  nothing = λ h. behind;
}

pub none_there : has_byte delim_command [] ≡ false
unfolding has_byte
none_there = refl

pub none_behind : after_byte delim_command [] ≡ []
unfolding after_byte
none_behind = refl

-- One straight piece.
Found-straight : {f : Fifo} → IsValid f → f.read_ptr < f.write_ptr → Found f (comm_find f)
unfolding comm_find get_space
Found-straight {f} v lt =
    let t : ltb f.read_ptr f.write_ptr ≡ true = ground arith in
    let t' : ltb f.write_ptr f.read_ptr ≡ false = ground arith in
    let n = f.write_ptr - f.read_ptr in
    elim (Option-cases (memchr f.buf delim_command f.read_ptr n)) [
      | inl e ↦
          let (miss, behind) =
            memchr-none f.buf f.buf_size delim_command n
              (distance f.buf_size f.read_ptr f.write_ptr) 0 f.read_ptr (ground arith) v.read_in
              (omega (arith, v)) e in
          rw (t, e, t', comm_find)
            (Found-none f _ (miss ∙ none_there) (behind ∙ none_behind) (ground arith))
      | inr (i, e) ↦
          let h =
            memchr-Hit f.buf f.buf_size delim_command n (distance f.buf_size f.read_ptr f.write_ptr)
              0 f.read_ptr i (ground arith) (omega (arith, v)) e in
          let place : f.read_ptr + distance f.buf_size f.read_ptr f.write_ptr - (i + 1)
              ≡ distance f.buf_size (next_index f.buf_size i) f.write_ptr =
            ground (arith, h.from, h.below) in
          rw (t, e, comm_find)
            (Found-at f i (omega (arith, h.below, v)) h.there
              (h.behind ∙ ap (span f.buf f.buf_size (next_index f.buf_size i)) place))
    ]

-- Two pieces, round the end of the buffer.
Found-wrapped : {f : Fifo} → IsValid f → f.write_ptr < f.read_ptr → Found f (comm_find f)
unfolding comm_find get_space
Found-wrapped {f} v lt =
    let t : ltb f.read_ptr f.write_ptr ≡ false = ground arith in
    let t' : ltb f.write_ptr f.read_ptr ≡ true = ground arith in
    let n = f.buf_size - f.read_ptr in
    let k = distance f.buf_size f.read_ptr f.write_ptr in
    let sum : k ≡ n + f.write_ptr = ground (arith, v) in
    elim (Option-cases (memchr f.buf delim_command f.read_ptr n)) [
      | inr (i, e) ↦
          let h =
            memchr-Hit f.buf f.buf_size delim_command n k f.write_ptr f.read_ptr i sum
              (omega (arith, v)) e in
          let place : f.read_ptr + k - (i + 1)
              ≡ distance f.buf_size (next_index f.buf_size i) f.write_ptr =
            ground (arith, h.from, h.below, v) in
          rw (t, e, comm_find)
            (Found-at f i (omega (arith, h.below, v)) h.there
              (h.behind ∙ ap (span f.buf f.buf_size (next_index f.buf_size i)) place))
      | inl e ↦
          let (miss, behind) =
            memchr-none f.buf f.buf_size delim_command n k f.write_ptr f.read_ptr sum v.read_in
              (omega (arith, v)) e in
          let zero_next : (if f.read_ptr + n == f.buf_size then 0 else f.read_ptr + n) ≡ 0 =
            ground (arith, v) in
          let miss' = rw zero_next at miss in
          let behind' = rw zero_next at behind in
          elim (Option-cases (memchr f.buf delim_command 0 f.write_ptr)) [
            | inl e' ↦
                let (miss2, behind2) =
                  memchr-none f.buf f.buf_size delim_command f.write_ptr f.write_ptr 0 0
                    (omega arith) (omega (arith, v)) (omega (arith, v)) e' in
                rw (t, e, t', e', comm_find)
                  (Found-none f _ (miss' ∙ miss2 ∙ none_there) (behind' ∙ behind2 ∙ none_behind)
                    (ground (arith, v)))
            | inr (i, e') ↦
                let h =
                  memchr-Hit f.buf f.buf_size delim_command f.write_ptr f.write_ptr 0 0 i
                    (omega arith) (omega (arith, v)) e' in
                let place : 0 + f.write_ptr - (i + 1)
                    ≡ distance f.buf_size (next_index f.buf_size i) f.write_ptr =
                  ground (arith, h.below, v) in
                rw (t, e, t', e', comm_find)
                  (Found-at f i (omega (arith, h.below, v)) (miss' ∙ h.there) (
                    behind'
                    ∙ h.behind
                    ∙ ap (span f.buf f.buf_size (next_index f.buf_size i)) place))
          ]
    ]

pub comm_find-Found : {f : Fifo} → IsValid f → f.read_ptr ≢ f.write_ptr → Found f (comm_find f)
comm_find-Found {f} v ne = elim (Bool-cases (ltb f.read_ptr f.write_ptr)) [
  | inl t ↦ Found-straight v (ground arith)
  | inr t ↦ Found-wrapped v (ground arith)
]
