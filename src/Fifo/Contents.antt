-- ===== src/Fifo/Contents.antt =====
-- The bytes that a circular buffer holds, as a list from the oldest.
use e_rob_canopen_node_demo.Base.{ℕ, ◌+◌, ◌≤◌, ◌<◌, ◌≡◌, sym, List, arith, length, ◌==◌}
use e_rob_canopen_node_demo.Base.Ring
use e_rob_canopen_node_demo.Base.Ring.{next_index, distance}
use e_rob_canopen_node_demo.Fifo.{Fifo, next, get_occupied, get_space, is_full}

-- `CO_fifo_t` as its functions keep it: the pointers are inside the buffer, and `bufSize` fits `int`.
pub record IsValid (f : Fifo) : Type 0 where
  pub storage : f.buf_size ≤ length f.buf
  pub usable : 2 ≤ f.buf_size
  pub fits_int : f.buf_size < 2147483648
  pub read_in : f.read_ptr < f.buf_size
  pub write_in : f.write_ptr < f.buf_size
  pub alt_in : f.alt_read_ptr < f.buf_size

abbrev pub span : List ℕ → ℕ → ℕ → ℕ → List ℕ
span = Ring.span 0

abbrev pub contents : Fifo → List ℕ
contents f = span f.buf f.buf_size f.read_ptr (distance f.buf_size f.read_ptr f.write_ptr)

-- What is left to read from the alternate pointer.
abbrev pub alt_contents : Fifo → List ℕ
alt_contents f =
    span f.buf f.buf_size f.alt_read_ptr (distance f.buf_size f.alt_read_ptr f.write_ptr)

pub next_lem : (f : Fifo) (i : ℕ) → i < 2147483648 → next f i ≡ next_index f.buf_size i
unfolding next
next_lem f i h = ground arith

pub is_full_lem :
    {f : Fifo} → IsValid f → is_full f ≡ (next_index f.buf_size f.write_ptr == f.read_ptr)
unfolding is_full
is_full_lem v = ground arith

-- `CO_fifo_getOccupied` counts the bytes held, `CO_fifo_getSpace` the bytes that still fit: one
-- byte of the buffer is never used.
pub occupied_and_space :
    {f : Fifo}
    → IsValid f
    → (get_occupied f ≡ length (contents f)) × (get_occupied f + get_space f + 1 ≡ f.buf_size)
unfolding get_occupied get_space
occupied_and_space {f} v = (
  sym (Ring.length-span 0 f.buf f.buf_size f.read_ptr (distance f.buf_size f.read_ptr f.write_ptr)),
  ground arith,
)
