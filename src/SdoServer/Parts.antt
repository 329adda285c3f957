-- ===== src/SdoServer/Parts.antt =====
-- How far a segmented download has come.
use e_rob_canopen_node_demo.Base.{
  ℕ, ◌+◌, ◌≤◌, ◌≡◌, refl, ap, ◌∙◌, List, [], ◌++◌, length, length-append, arith, append_assoc,
}
use e_rob_canopen_node_demo.Od.{Memory, slice, splice}
use e_rob_canopen_node_demo.Od.Splices.{splice-splice, slice-splice_behind}
use e_rob_canopen_node_demo.SdoServer.Segments.{Variable}

-- The part of the data that is in the variable, the part in the buffer, and the part to come.
pub record Filled (v : Variable) (mem : Memory) (whole stored held rest : List ℕ) (now : Memory)
    (offset h : ℕ) (buf : List ℕ) : Type 0 where
  pub total : stored ++ (held ++ rest) ≡ whole
  pub count : offset ≡ length stored
  pub pending : h ≡ length held
  pub memory : now ≡ splice mem v.orig stored
  pub kept : slice buf 0 h ≡ held
  pub room : h ≤ 23

module _ (v : Variable) (mem : Memory) (whole stored held rest : List ℕ) (now : Memory)
    (offset h : ℕ) (buf bytes rest' : List ℕ) where
  pub Filled-keeps :
      Filled v mem whole stored held rest now offset h buf
      → bytes ++ rest' ≡ rest
      → h + length bytes ≤ 23
      → Filled v mem whole stored
          (held ++ bytes)
          rest'
          now
          offset
          (h + length bytes)
          (splice buf h bytes)
  Filled-keeps f e p = record {
    total = ap (λ l. stored ++ l) (append_assoc held bytes rest' ∙ ap (λ l. held ++ l) e) ∙ f.total;
    count = f.count;
    pending = omega (arith, f.pending, length-append held bytes);
    memory = f.memory;
    kept = rw (f.pending) (slice-splice_behind buf held bytes (rw (← f.pending) f.kept));
    room = p;
  }

  pub gathered :
      Filled v mem whole stored held rest now offset h buf
      → slice (splice buf h bytes) 0 (h + length bytes) ≡ held ++ bytes
  gathered f = rw (f.pending) (slice-splice_behind buf held bytes (rw (← f.pending) f.kept))

  pub written :
      Filled v mem whole stored held rest now offset h buf
      → v.orig ≤ length mem
      → splice now (v.orig + offset) (held ++ bytes) ≡ splice mem v.orig (stored ++ (held ++ bytes))
  written f p = rw (f.memory, f.count) (splice-splice mem v.orig stored (held ++ bytes) p)

  pub Filled-flushes :
      Filled v mem whole stored held rest now offset h buf
      → bytes ++ rest' ≡ rest
      → v.orig ≤ length mem
      → Filled v mem whole
          (stored ++ (held ++ bytes))
          []
          rest'
          (splice now (v.orig + offset) (held ++ bytes))
          (offset + length (held ++ bytes))
          0
          (splice buf h bytes)
  Filled-flushes f e p = record {
    total =
        append_assoc stored (held ++ bytes) rest'
        ∙ ap (λ l. stored ++ l) (append_assoc held bytes rest' ∙ ap (λ l. held ++ l) e)
        ∙ f.total;
    count = omega (arith, f.count, length-append stored (held ++ bytes));
    pending = refl;
    memory = written f p;
    kept = refl;
    room = omega arith;
  }
