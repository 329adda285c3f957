-- ===== src/Fifo/Trim.antt =====
-- CO_fifo_trimSpaces against a scan of the bytes held.
use e_rob_canopen_node_demo.Base.{
  ℕ, zero, suc, ◌+◌, ◌<◌, ◌≡◌, refl, List, [], ◌∷◌, arith, Option, some, inl, inr, get_or, Bool,
  true, false, not, Bool-cases, if◌then◌else◌, ◌==◌, ◌||◌, ◌&&◌,
}
use e_rob_canopen_node_demo.Fifo.{
  Fifo, next, delim_command, delim_comment, is_graph, trim_loop, trim_spaces,
}
use e_rob_canopen_node_demo.Fifo.Contents.{IsValid, contents, next_lem}
use e_rob_canopen_node_demo.Base.Ring.{distance, distance-next, distance-lt}
use e_rob_canopen_node_demo.Fifo.Read.{advance, advance-IsValid, contents-empty, contents-cons}

-- Blanks, control characters and comments are dropped, up to a newline or the first graphic
-- character outside a comment: whether a newline was met, whether the end is inside a comment,
-- and the rest.
unfoldable pub trim : Bool → List ℕ → Bool × Bool × List ℕ
trim inside [] = (false, inside, [])
trim inside (c ∷ q) =
    let rest = trim (c == delim_comment || inside) q in
    if not (c == delim_comment) && (is_graph c && not inside)
    then (false, inside, c ∷ q)
    else if c == delim_command
    then (true, false, q)
    else rest

-- A result of the loop, on a valid buffer.
pub record Trimmed (f : Fifo) (inside : Bool) (out : Option (Bool × Bool × Fifo)) : Type 0 where
  pub flag : Bool
  pub inside_after : Bool
  pub state : Fifo
  pub returns : out ≡ some (flag, inside_after, state)
  pub valid : IsValid state
  pub left : trim inside (contents f) ≡ (flag, inside_after, contents state)

trim_loop-Trimmed :
    (fuel : ℕ) {f : Fifo} (inside : Bool)
    → IsValid f
    → distance f.buf_size f.read_ptr f.write_ptr < fuel
    → Trimmed f inside (trim_loop fuel f inside)
unfolding trim_loop trim
trim_loop-Trimmed zero inside v d = absurd (omega arith)
trim_loop-Trimmed (suc fuel) {f} inside v d = elim (Bool-cases (f.read_ptr == f.write_ptr)) [
  | inl e ↦ rw e (record {
    flag = false;
    inside_after = inside;
    state = f;
    returns = refl;
    valid = v;
    left = rw (contents-empty f e) refl;
  })
  | inr e ↦
      let c = get_or f.buf f.read_ptr 0 in
      let front = contents-cons v e in
      elim (Bool-cases (not (c == delim_comment) && (is_graph c && not inside))) [
        | inl s ↦
            rw (e, s)
              (record {
                flag = false;
                inside_after = inside;
                state = f;
                returns = refl;
                valid = v;
                left = rw (front, s) refl;
              })
        | inr m ↦ elim (Bool-cases (c == delim_command)) [
          | inl s ↦
              rw (e, m, s)
                (record {
                  flag = true;
                  inside_after = false;
                  state = advance f;
                  returns = refl;
                  valid = advance-IsValid v;
                  left = rw (front, m, s) refl;
                })
          | inr m' ↦
              let nearer : distance f.buf_size (next f f.read_ptr) f.write_ptr < fuel =
                rw (next_lem f f.read_ptr (omega (arith, v))) (
                  omega (
                    arith,
                    distance-next f.buf_size f.read_ptr f.write_ptr v.read_in v.write_in
                        (ground arith),
                  )) in
              let r =
                trim_loop-Trimmed fuel {f = advance f} (c == delim_comment || inside)
                  (advance-IsValid v) nearer in
              rw (e, m, m')
                (record {
                  flag = r.flag;
                  inside_after = r.inside_after;
                  state = r.state;
                  returns = r.returns;
                  valid = r.valid;
                  left = rw (front, m, m') r.left;
                })
        ]
      ]
]

-- `CO_fifo_trimSpaces` on a valid buffer ends within the fuel, drops from the bytes held exactly
-- what `trim` drops, reports a newline and an open comment as `trim` does, and keeps it valid.
pub trim_spaces-Trimmed :
    {f : Fifo} (inside : Bool) → IsValid f → Trimmed f inside (trim_spaces f inside)
unfolding trim_spaces
trim_spaces-Trimmed {f} inside v =
    trim_loop-Trimmed (f.buf_size + 1) inside v
      (omega (arith, distance-lt f.buf_size f.read_ptr f.write_ptr v.read_in v.write_in))
