-- ===== src/Fifo/Commands.antt =====
-- The search for command delimiters, CO_fifo_CommSearch: its result, and what is left of the contents.
use native.Mathlib.Decide.{ℕ_discrete}
use e_rob_canopen_node_demo.Base.{
  ℕ, ◌≡◌, ◌≢◌, refl, sym, ◌∙◌, ap, List, [], arith, Option, none, some, inl, inr, Bool, true, false,
  Option-cases, if◌then◌else◌, ◌==◌, ==_ne, ◌||◌,
}
use e_rob_canopen_node_demo.Fifo.{Fifo, comm_find, comm_search, get_space, delim_command}
use e_rob_canopen_node_demo.Fifo.Contents.{IsValid, contents}
use e_rob_canopen_node_demo.Base.Ring.{next_index, distance, next_index-lt}
use e_rob_canopen_node_demo.Fifo.Newline.{has_byte, after_byte}
use e_rob_canopen_node_demo.Fifo.Lookup.{Found, none_there, none_behind, comm_find-Found}

-- What a search for a command has done.
pub record Searched (f : Fifo) (clear : Bool) (out : Bool × Fifo) : Type 0 where
  pub valid : IsValid out.1
  pub flag : out.0 ≡ (has_byte delim_command (contents f) || get_space f == 0)
  pub left : contents out.1 ≡ (if clear then after_byte delim_command (contents f) else contents f)

clear_at : Fifo → Option ℕ → Fifo
clear_at f (some i) = record f { read_ptr = next_index f.buf_size i }
clear_at f none = record f { read_ptr = f.write_ptr }

comm_search-clear :
    (f : Fifo)
    → f.read_ptr ≢ f.write_ptr
    → comm_search f true ≡ ((comm_find f).0, clear_at f (comm_find f).1)
unfolding comm_search clear_at
comm_search-clear f ne = elim (Option-cases (comm_find f).1) [
  | inl e ↦ rw (==_ne f.read_ptr f.write_ptr ne, e) refl
  | inr (i, e) ↦ rw (==_ne f.read_ptr f.write_ptr ne, e) refl
]

comm_search-keep :
    (f : Fifo) → f.read_ptr ≢ f.write_ptr → comm_search f false ≡ ((comm_find f).0, f)
unfolding comm_search
comm_search-keep f ne = rw (==_ne f.read_ptr f.write_ptr ne)

comm_search-empty :
    (f : Fifo) (clear : Bool) → f.read_ptr ≡ f.write_ptr → comm_search f clear ≡ (false, f)
unfolding comm_search
comm_search-empty f clear e = let t : (f.read_ptr == f.write_ptr) ≡ true = ground arith in rw t

empty_contents : (f : Fifo) → f.read_ptr ≡ f.write_ptr → contents f ≡ []
empty_contents f e = let z : distance f.buf_size f.read_ptr f.write_ptr ≡ 0 = ground arith in rw z

empty_space : {f : Fifo} → IsValid f → f.read_ptr ≡ f.write_ptr → (get_space f == 0) ≡ false
unfolding get_space
empty_space v e = ground (arith, v)

cleared :
    {f : Fifo} (out : Bool × Option ℕ)
    → IsValid f
    → Found f out
    → Searched f true (out.0, clear_at f out.1)
unfolding clear_at
cleared {f} (flag, some i) v h = record {
  valid = ground (arith, v, next_index-lt f.buf_size i (h.inside i refl));
  flag = h.flag;
  left = sym (h.behind i refl);
}
cleared {f} (flag, none) v h = record {
  valid = ground (arith, v);
  flag = h.flag;
  left = empty_contents (record f { read_ptr = f.write_ptr }) refl ∙ sym (h.nothing refl);
}

-- `CO_fifo_CommSearch` reports a command exactly when the bytes held contain a newline or the
-- buffer is full. With `clear` it keeps only what follows the first newline (nothing, if there is
-- none), without it every byte, and the buffer stays valid.
pub comm_search_lem : {f : Fifo} (clear : Bool) → IsValid f → Searched f clear (comm_search f clear)
comm_search_lem {f} clear v = elim (ℕ_discrete f.read_ptr f.write_ptr) [
  | yes e ↦ rw (comm_search-empty f clear e) (record {
    valid = v;
    flag = rw (empty_contents f e, empty_space v e) (sym (ap (λ t. t || false) none_there));
    left = rw (empty_contents f e, none_behind) (both_empty clear);
  })
  | no ne ↦ by_clear clear ne
]
  where
    both_empty : (clear : Bool) → ◌≡◌ {A = List ℕ} [] (if clear then [] else [])
    both_empty true = refl
    both_empty false = refl

    by_clear : (clear : Bool) → f.read_ptr ≢ f.write_ptr → Searched f clear (comm_search f clear)
    by_clear true ne = rw (comm_search-clear f ne) (cleared (comm_find f) v (comm_find-Found v ne))
    by_clear false ne =
        rw (comm_search-keep f ne)
          (record { valid = v; flag = (comm_find-Found v ne).flag; left = refl })
