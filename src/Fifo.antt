-- ===== src/Fifo.antt =====
-- 301/CO_fifo.c and 301/CO_fifo.h: the circular byte buffer, with alternate reading, CRC and the
-- search for commands. A function that changes `*fifo` returns the new record after its results;
-- bytes stored through `buf` are a list, in order, and `*crc` is an option, `none` for NULL.
pub mod Contents
pub mod Write
pub mod Read
pub mod Alternate
pub mod Newline
pub mod Lookup
pub mod Commands
pub mod Trim
mod Tests
use e_rob_canopen_node_demo.Base.{
  ℕ, zero, suc, ◌+◌, ◌-◌, ◌%◌, ◌^◌, List, [], ◌∷◌, Bool, true, false, not, ◌&&◌, ◌||◌, Option, none,
  some, get_or, set, ltb, leb, ◌==◌, if◌then◌else◌, length,
}
use e_rob_canopen_node_demo.Crc.{crc16_ccitt_single}

-- `CO_fifo_t`. `started` and `aux` serve the data type readers only.
pub record Fifo : Type 0 where
  pub buf : List ℕ
  pub buf_size : ℕ
  pub write_ptr : ℕ
  pub read_ptr : ℕ
  pub alt_read_ptr : ℕ
  pub started : Bool
  pub aux : ℕ

-- `size_t` addition
abbrev pub add_size : ℕ → ℕ → ℕ
add_size a b = (a + b) % 2 ^ 64

abbrev pub delim_command : ℕ
delim_command = 10

abbrev pub delim_comment : ℕ
delim_comment = b'#'

-- `if (++ptr == fifo->bufSize) ptr = 0;`, which every loop of the file contains.
unfoldable pub next : Fifo → ℕ → ℕ
next f ptr = let j = add_size ptr 1 in if j == f.buf_size then 0 else j

unfoldable pub init : Fifo → List ℕ → ℕ → Fifo
init f buf buf_size =
    if ltb buf_size 2
    then f
    else record f { read_ptr = 0; write_ptr = 0; buf = buf; buf_size = buf_size }

unfoldable pub reset : Fifo → Fifo
reset f = record f { read_ptr = 0; write_ptr = 0; started = false }

unfoldable pub purge : Fifo → Bool × Fifo
purge f =
    if f.read_ptr == f.write_ptr
    then (false, f)
    else (true, record f { read_ptr = 0; write_ptr = 0 })

-- The `int` differences are negative exactly where the test holds; `bufSize` is at most INT_MAX.
unfoldable pub get_space : Fifo → ℕ
get_space f =
    if ltb f.read_ptr (f.write_ptr + 1)
    then f.read_ptr + f.buf_size - f.write_ptr - 1
    else f.read_ptr - f.write_ptr - 1

unfoldable pub get_occupied : Fifo → ℕ
get_occupied f =
    if ltb f.write_ptr f.read_ptr
    then f.write_ptr + f.buf_size - f.read_ptr
    else f.write_ptr - f.read_ptr

-- The test for a full buffer, which `write` and `putc` share.
unfoldable pub is_full : Fifo → Bool
is_full f =
    let write_next = add_size f.write_ptr 1 in
    write_next == f.read_ptr || (write_next == f.buf_size && f.read_ptr == 0)

unfoldable pub putc : Fifo → ℕ → Bool × Fifo
unfolding is_full next
putc f c =
    if is_full f
    then (false, f)
    else (true, record f { buf = set f.buf f.write_ptr c; write_ptr = next f f.write_ptr })

-- `putc` that overwrites the oldest byte.
unfoldable pub putc_ov : Fifo → ℕ → Fifo
unfolding next
putc_ov f c =
    let g = record f { buf = set f.buf f.write_ptr c; write_ptr = next f f.write_ptr } in
    if g.read_ptr == g.write_ptr then record g { read_ptr = next g g.read_ptr } else g

unfoldable pub getc : Fifo → Option ℕ × Fifo
unfolding next
getc f =
    if f.read_ptr == f.write_ptr
    then (none, f)
    else (some (get_or f.buf f.read_ptr 0), record f { read_ptr = next f f.read_ptr })

abbrev pub crc_step : Option ℕ → ℕ → Option ℕ
crc_step none c = none
crc_step (some crc) c = some (crc16_ccitt_single crc c)

-- The list is `buf[0..count)`; the number is of the bytes written.
unfoldable pub write : Fifo → List ℕ → Option ℕ → ℕ × Option ℕ × Fifo
unfolding is_full next
write f [] crc = (0, crc, f)
write f (c ∷ bytes) crc =
    let g = record f { buf = set f.buf f.write_ptr c; write_ptr = next f f.write_ptr } in
    let rest = write g bytes (crc_step crc c) in
    if is_full f then (0, crc, f) else (rest.0 + 1, rest.1, rest.2)

-- The loop of `CO_fifo_read`, `count` being `i`; `want` says that `eof` is not NULL.
unfoldable pub read_loop : ℕ → Fifo → Bool → List ℕ × Bool × Fifo
unfolding next
read_loop zero f want = ([], false, f)
read_loop (suc count) f want =
    let c = get_or f.buf f.read_ptr 0 in
    let g = record f { read_ptr = next f f.read_ptr } in
    let rest = read_loop count g want in
    if f.read_ptr == f.write_ptr
    then ([], false, f)
    else if want && c == delim_command
    then (c ∷ [], true, g)
    else (c ∷ rest.0, rest.1, rest.2)

-- The bytes read, `*eof`, and the new state.
unfoldable pub read : Fifo → ℕ → Bool → List ℕ × Bool × Fifo
unfolding read_loop
read f count want = if f.read_ptr == f.write_ptr then ([], false, f) else read_loop count f want

-- The loop of `CO_fifo_altBegin`: how many bytes were skipped.
unfoldable pub alt_skip : ℕ → Fifo → ℕ × Fifo
unfolding next
alt_skip zero f = (0, f)
alt_skip (suc offset) f =
    let rest = alt_skip offset (record f { alt_read_ptr = next f f.alt_read_ptr }) in
    if f.alt_read_ptr == f.write_ptr then (0, f) else (rest.0 + 1, rest.1)

unfoldable pub alt_begin : Fifo → ℕ → ℕ × Fifo
unfolding alt_skip
alt_begin f offset = alt_skip offset (record f { alt_read_ptr = f.read_ptr })

-- The `while` loop of `CO_fifo_altFinish`, on fuel.
unfoldable pub alt_catch_up : ℕ → Fifo → ℕ → Option (ℕ × Fifo)
unfolding next
alt_catch_up zero f crc = none
alt_catch_up (suc fuel) f crc =
    let rest =
      alt_catch_up fuel (record f { read_ptr = next f f.read_ptr })
        (crc16_ccitt_single crc (get_or f.buf f.read_ptr 0)) in
    if f.read_ptr == f.alt_read_ptr then some (crc, f) else rest

unfoldable pub alt_read : ℕ → Fifo → List ℕ × Fifo
unfolding next
alt_read zero f = ([], f)
alt_read (suc count) f =
    let c = get_or f.buf f.alt_read_ptr 0 in
    let rest = alt_read count (record f { alt_read_ptr = next f f.alt_read_ptr }) in
    if f.alt_read_ptr == f.write_ptr then ([], f) else (c ∷ rest.0, rest.1)

-- `bufSize` rounds are enough: the pointers are apart by less.
unfoldable pub alt_finish : Fifo → Option ℕ → Option (Option ℕ × Fifo)
unfolding alt_catch_up
alt_finish f none = some (none, record f { read_ptr = f.alt_read_ptr })
alt_finish f (some crc) = elim (alt_catch_up f.buf_size f crc) [
  | none ↦ none
  | some (crc', g) ↦ some (some crc', g)
]

-- `memchr(&buf[start], c, count)`, as the index of the byte found.
unfoldable pub memchr : List ℕ → ℕ → ℕ → ℕ → Option ℕ
memchr buf c start zero = none
memchr buf c start (suc count) =
    let rest = memchr buf c (start + 1) count in
    if get_or buf start 0 == c then some start else rest

-- `newCommand` and `commandEnd` of `CO_fifo_CommSearch`.
unfoldable pub comm_find : Fifo → Bool × Option ℕ
unfolding memchr
comm_find f =
    let count =
      if ltb f.read_ptr f.write_ptr then f.write_ptr - f.read_ptr else f.buf_size - f.read_ptr in
    elim (memchr f.buf delim_command f.read_ptr count) [
      | some i ↦ (true, some i)
      | none ↦
          if ltb f.write_ptr f.read_ptr
          then elim (memchr f.buf delim_command 0 f.write_ptr) [
            | some i ↦ (true, some i)
            | none ↦ (f.read_ptr == add_size f.write_ptr 1, none)
          ]
          else (f.read_ptr == 0 && f.write_ptr == f.buf_size - 1, none)
    ]

unfoldable pub comm_search : Fifo → Bool → Bool × Fifo
unfolding comm_find
comm_search f clear =
    if f.read_ptr == f.write_ptr
    then (false, f)
    else let found = comm_find f in
      if clear
      then elim found.1 [
        | some i ↦ (found.0, record f { read_ptr = if i + 1 == f.buf_size then 0 else i + 1 })
        | none ↦ (found.0, record f { read_ptr = f.write_ptr })
      ]
      else (found.0, f)

-- `isgraph` in the C locale
unfoldable pub is_graph : ℕ → Bool
is_graph c = leb 33 c && leb c 126

-- The `while` loop of `CO_fifo_trimSpaces`, on fuel: `delimCommandFound`, `*insideComment`, state.
unfoldable pub trim_loop : ℕ → Fifo → Bool → Option (Bool × Bool × Fifo)
unfolding next is_graph
trim_loop zero f inside = none
trim_loop (suc fuel) f inside =
    let c = get_or f.buf f.read_ptr 0 in
    let g = record f { read_ptr = next f f.read_ptr } in
    let inside' = c == delim_comment || inside in
    let rest = trim_loop fuel g inside' in
    if f.read_ptr == f.write_ptr
    then some (false, inside, f)
    else if not (c == delim_comment) && (is_graph c && not inside)
    then some (false, inside, f)
    else if c == delim_command
    then some (true, false, g)
    else rest

unfoldable pub trim_spaces : Fifo → Bool → Option (Bool × Bool × Fifo)
unfolding trim_loop
trim_spaces f inside = trim_loop (f.buf_size + 1) f inside
