-- ===== src/Od/Tests.antt =====
-- The Object Dictionary's theorems at concrete dictionaries and variables.
use e_rob_canopen_node_demo.Base.{ℕ, zero, suc, ◌≡◌, refl, List, [], ◌∷◌, none, some, false, arith}
use e_rob_canopen_node_demo.Od.{Stream, Memory, Odr, write_original}
use e_rob_canopen_node_demo.Od.Elements.{read_whole, write_original_keeps_elements}
use e_rob_canopen_node_demo.Od.Entries.{
  Access, Entry, Io, Object, ObjArray, find, get_sub, get_sub_object,
}
use e_rob_canopen_node_demo.Od.Find.{IsOrdered, Searched, find-Searched}
use e_rob_canopen_node_demo.Od.Transfer.{read_all, read_all_lem, write_original-read_all}

abbrev indexes : List ℕ
indexes = 0x1000 ∷ 0x1001 ∷ 0x1017 ∷ 0x2110 ∷ []

indexes-IsOrdered : IsOrdered indexes
indexes-IsOrdered i (suc (suc (suc (suc j)))) p q = absurd (omega arith)
indexes-IsOrdered zero (suc zero) p q = omega arith
indexes-IsOrdered zero (suc (suc zero)) p q = omega arith
indexes-IsOrdered zero (suc (suc (suc zero))) p q = omega arith
indexes-IsOrdered (suc zero) (suc (suc zero)) p q = omega arith
indexes-IsOrdered (suc zero) (suc (suc (suc zero))) p q = omega arith
indexes-IsOrdered (suc (suc zero)) (suc (suc (suc zero))) p q = omega arith
indexes-IsOrdered i zero p q = absurd (omega arith)
indexes-IsOrdered (suc i) (suc zero) p q = absurd (omega arith)
indexes-IsOrdered (suc (suc i)) (suc (suc zero)) p q = absurd (omega arith)
indexes-IsOrdered (suc (suc (suc i))) (suc (suc (suc zero))) p q = absurd (omega arith)

find-indexes : find indexes 0x1017 ≡ some (some 2)
unfolding find
find-indexes = refl

find-Searched_example : Searched indexes 0x1017 0 4 (find indexes 0x1017)
find-Searched_example = find-Searched indexes 0x1017 indexes-IsOrdered

abbrev stream : Stream
stream = record {
  data_orig = some 1;
  data_length = 5;
  data_offset = 0;
  attribute = 0;
  index = 0x2110;
  sub_index = 0;
}

abbrev bytes : Memory
bytes = 9 ∷ 1 ∷ 2 ∷ 3 ∷ 4 ∷ 5 ∷ 9 ∷ []

read_all_lem_example : read_all 6 bytes stream 2 ≡ some (1 ∷ 2 ∷ 3 ∷ 4 ∷ 5 ∷ [], stream)
read_all_lem_example = read_all_lem bytes stream 1 2 refl (omega arith) refl

write_original-read_all_example :
    let out = write_original bytes stream (7 ∷ 7 ∷ 7 ∷ 7 ∷ 7 ∷ []) in
    (out.code ≡ Odr.ok)
    × (read_all 6 out.memory out.stream 2 ≡ some (7 ∷ 7 ∷ 7 ∷ 7 ∷ 7 ∷ [], stream))
write_original-read_all_example =
    write_original-read_all bytes stream 1 2 (7 ∷ 7 ∷ 7 ∷ 7 ∷ 7 ∷ []) refl (omega arith) refl refl
      (omega arith)

-- An array of two elements of two bytes, each in a place of three.
abbrev pair : ObjArray
pair = record {
  data_orig0 = none;
  data_orig = some 1;
  attribute0 = 0;
  attribute = 0;
  data_element_length = 2;
  data_element_sizeof = 3;
}

abbrev pair_entry : Entry
pair_entry = record {
  index = 0x2120;
  sub_entries_count = 3;
  od_object = some (Object.arr pair);
  extension = none;
}

abbrev pair_io : ℕ → ℕ → Io
pair_io start sub = record {
  stream = record {
    data_orig = some start;
    data_length = 2;
    data_offset = 0;
    attribute = 0;
    index = 0x2120;
    sub_index = sub;
  };
  read = Access.original;
  write = Access.original;
}

one-get_sub : get_sub pair_entry 1 false ≡ (Odr.ok, some (pair_io 1 1))
unfolding get_sub get_sub_object
one-get_sub = refl

two-get_sub : get_sub pair_entry 2 false ≡ (Odr.ok, some (pair_io 4 2))
unfolding get_sub get_sub_object
two-get_sub = refl

write_original_keeps_elements_example :
    let out = write_original bytes (pair_io 1 1).stream (7 ∷ 8 ∷ []) in
    (out.code ≡ Odr.ok)
    × (read_whole out.memory (pair_io 1 1).stream 1 ≡ some (7 ∷ 8 ∷ [], (pair_io 1 1).stream))
    × (read_whole out.memory (pair_io 4 2).stream 1 ≡ read_whole bytes (pair_io 4 2).stream 1)
write_original_keeps_elements_example =
    write_original_keeps_elements pair_entry pair 1 refl refl (omega arith) (omega arith) 1 2 false
      (pair_io 1 1) (pair_io 4 2) bytes (7 ∷ 8 ∷ []) 1 (omega arith) (omega arith) (omega arith)
      (omega arith) (omega arith) (λ e. absurd (omega arith)) one-get_sub two-get_sub refl
      (omega arith)
