-- ===== src/Fifo/Tests.antt =====
-- Runs of the buffer, and its theorems at concrete states.
use e_rob_canopen_node_demo.Base.{
  ℕ, ◌+◌, ◌<◌, ◌≡◌, refl, [], ◌∷◌, arith, none, some, true, false, get_or,
}
use e_rob_canopen_node_demo.Fifo.{
  Fifo, write, read, comm_search, trim_spaces, get_occupied, get_space,
}
use e_rob_canopen_node_demo.Fifo.Contents.{IsValid, contents, occupied_and_space}
use e_rob_canopen_node_demo.Fifo.Write.{Wrote, write_appends}
use e_rob_canopen_node_demo.Fifo.Read.{DidRead, read_takes}
use e_rob_canopen_node_demo.Fifo.Commands.{Searched, comm_search_lem}
use e_rob_canopen_node_demo.Fifo.Trim.{Trimmed, trim_spaces-Trimmed}

-- " a\n" round the end of seven bytes, read ahead by one.
abbrev wrapped : Fifo
wrapped = record {
  buf = 10 ∷ 0 ∷ 0 ∷ 0 ∷ 0 ∷ 32 ∷ b'a' ∷ [];
  buf_size = 7;
  write_ptr = 1;
  read_ptr = 5;
  alt_read_ptr = 6;
  started = false;
  aux = 0;
}

wrapped-IsValid : IsValid wrapped
wrapped-IsValid = omega arith

wrapped_bytes : (i : ℕ) → get_or wrapped.buf i 0 < 256
wrapped_bytes i = grind arith

contents-wrapped : contents wrapped ≡ 32 ∷ b'a' ∷ 10 ∷ []
contents-wrapped = refl

write-wrapped :
    let (n, _, f) = write wrapped (1 ∷ 2 ∷ 3 ∷ 4 ∷ []) none in
    (n ≡ 3) × (contents f ≡ 32 ∷ b'a' ∷ 10 ∷ 1 ∷ 2 ∷ 3 ∷ [])
unfolding write
write-wrapped = (refl, refl)

read-wrapped :
    let (bytes, eof, _) = read wrapped 9 true in (bytes ≡ 32 ∷ b'a' ∷ 10 ∷ []) × (eof ≡ true)
unfolding read
read-wrapped = (refl, refl)

search-wrapped : (comm_search wrapped true).1.read_ptr ≡ 1
unfolding comm_search
search-wrapped = refl

occupied_and_space_example :
    (get_occupied wrapped ≡ 3) × (get_occupied wrapped + get_space wrapped + 1 ≡ 7)
occupied_and_space_example = occupied_and_space wrapped-IsValid

write_appends_example :
    Wrote wrapped (1 ∷ 2 ∷ 3 ∷ 4 ∷ []) (some 0) (write wrapped (1 ∷ 2 ∷ 3 ∷ 4 ∷ []) (some 0))
write_appends_example = write_appends (1 ∷ 2 ∷ 3 ∷ 4 ∷ []) (some 0) wrapped-IsValid (omega arith)

read_takes_example : DidRead wrapped 9 true (read wrapped 9 true)
read_takes_example = read_takes 9 true wrapped-IsValid

comm_search_lem_example : Searched wrapped true (comm_search wrapped true)
comm_search_lem_example = comm_search_lem true wrapped-IsValid

trim_spaces-Trimmed_example : Trimmed wrapped false (trim_spaces wrapped false)
trim_spaces-Trimmed_example = trim_spaces-Trimmed false wrapped-IsValid
