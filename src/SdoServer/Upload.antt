-- ===== src/SdoServer/Upload.antt =====
-- A segmented upload: the server sends the bytes of the variable.
use e_rob_canopen_node_demo.Base.{
  ℕ, ◌+◌, ◌-◌, ◌*◌, ◌≤◌, ◌<◌, ◌≡◌, refl, sym, ap, ◌∙◌, inl, inr, bit_or, List, [], ◌∷◌, ◌++◌, Bool,
  true, false, ◌&&◌, ◌||◌, length, length-append, take, drop, leb, ltb, ◌==◌, arith, u32, sub32,
  Bool-cases, append_assoc, append-nil, replicate,
}
use e_rob_canopen_node_demo.Base.Bits.{all_below, all_below_sound}
use e_rob_canopen_node_demo.Od.{Memory, slice}
use e_rob_canopen_node_demo.Od.Splices.{
  take-length, drop-length, slice-slice, length-slice, length-slice_front, length-take,
}
use e_rob_canopen_node_demo.SdoServer.{Server, idle, upload_segment_req, Functions, sent}
use e_rob_canopen_node_demo.SdoServer.Process.{send_segment, waiting_response, flip}
use e_rob_canopen_node_demo.SdoServer.Channel.{command, segment, IsToggle}
use e_rob_canopen_node_demo.SdoServer.Segments.{Variable}
use e_rob_canopen_node_demo.SdoServer.Refill.{reading, unread, Ready}

-- The request of a segment.
abbrev pub ask : ℕ → List ℕ
ask toggle = (0x60 + toggle) ∷ replicate 7 0

abbrev says : ℕ → ℕ → Bool
says toggle count = bit_or toggle (bit_or (2 * (7 - count)) 0x01) == command toggle true count

all_say : (toggle : ℕ) → IsToggle toggle → all_below 8 (says toggle) ≡ true
unfolding all_below
all_say toggle (inl e) = rw e refl
all_say toggle (inr e) = rw e refl

-- The first byte of the last segment.
says_last :
    (toggle count : ℕ)
    → IsToggle toggle
    → count ≤ 7
    → bit_or toggle (bit_or (2 * (7 - count)) 0x01) ≡ command toggle true count
says_last toggle count t c =
    let h : says toggle count ≡ true =
      all_below_sound 8 (says toggle) count (all_say toggle t) (omega arith) in
    ground arith

module _ (fns : Functions) (v : Variable) (mem : Memory) where
  -- The parts of the rest of the variable before and behind a segment.
  pub record Parted (rest : List ℕ) (offset : ℕ) (buf : List ℕ) (rd wr : ℕ) (fin : Bool)
      : Type 0 where
    pub first : slice buf rd 7 ≡ take 7 rest
    pub ready : Ready fns v mem (drop 7 rest) offset buf (rd + 7) wr fin

  pub Ready-Parted :
      (rest : List ℕ) (offset : ℕ) (buf : List ℕ) (rd wr : ℕ) (fin : Bool)
      → Ready fns v mem rest offset buf rd wr fin
      → 7 ≤ wr - rd
      → Parted rest offset buf rd wr fin
  Ready-Parted rest offset buf rd wr fin y l =
      let more : List ℕ = slice buf (rd + 7) (wr - (rd + 7)) in
      let seven : length (slice buf rd 7) ≡ 7 = length-slice_front buf rd 7 (wr - rd) y.held l in
      let two : slice buf rd 7 ++ more ≡ slice buf rd (wr - rd) =
        slice-slice buf rd 7 (wr - (rd + 7)) ∙ ap (slice buf rd) (omega arith) in
      let e : slice buf rd 7 ++ (more ++ unread fns v mem offset fin) ≡ rest =
        sym (append_assoc (slice buf rd 7) more (unread fns v mem offset fin))
        ∙ ap (λ l. l ++ unread fns v mem offset fin) two
        ∙ y.parts in
      record {
        first =
            sym (take-length (slice buf rd 7) (more ++ unread fns v mem offset fin))
            ∙ ap (λ k. take k (slice buf rd 7 ++ (more ++ unread fns v mem offset fin))) seven
            ∙ ap (take 7) e;
        ready = record {
          parts =
              sym (drop-length (slice buf rd 7) (more ++ unread fns v mem offset fin))
              ∙ ap (λ k. drop k (slice buf rd 7 ++ (more ++ unread fns v mem offset fin))) seven
              ∙ ap (drop 7) e;
          order = omega (arith, y.order);
          room = y.room;
          held = omega (arith, ap length two, length-append (slice buf rd 7) more, seven, y.held);
          more = y.more;
        };
      }

  -- More than a segment is left where the variable is not read to its end, or the buffer holds more.
  pub is_end :
      (rest : List ℕ) (offset : ℕ) (buf : List ℕ) (rd wr : ℕ) (fin : Bool)
      → Ready fns v mem rest offset buf rd wr fin
      → v.orig + v.size ≤ length mem
      → (fin || leb 7 (wr - rd)) ≡ true
      → (ltb (wr - rd) 7 || (fin && (wr - rd == 7))) ≡ leb (length rest) 7
  is_end rest offset buf rd wr true y w e =
      let n : wr - rd ≡ length rest =
        omega (arith, ap length y.parts, length-append (slice buf rd (wr - rd)) [], y.held) in
      rw n (elim (Bool-cases (leb (length rest) 7)) [ inl h ↦ ground arith | inr h ↦ ground arith ])
  is_end rest offset buf rd wr false y w e =
      let tail : List ℕ = slice mem (v.orig + offset) (v.size - offset) in
      let m : length tail ≡ v.size - offset =
        length-slice mem (v.orig + offset) (v.size - offset) (omega (arith, y.more refl)) in
      let n : wr - rd + (v.size - offset) ≡ length rest =
        omega (arith, ap length y.parts, length-append (slice buf rd (wr - rd)) tail, y.held, m) in
      let below = y.more refl in ground arith

  Ready-whole :
      (rest : List ℕ) (offset : ℕ) (buf : List ℕ) (rd wr : ℕ) (fin : Bool)
      → Ready fns v mem rest offset buf rd wr fin
      → v.orig + v.size ≤ length mem
      → (fin || leb 7 (wr - rd)) ≡ true
      → length rest ≤ 7
      → slice buf rd (wr - rd) ≡ rest
  Ready-whole rest offset buf rd wr true y w e l =
      sym (append-nil (slice buf rd (wr - rd))) ∙ y.parts
  Ready-whole rest offset buf rd wr false y w e l =
      let g = is_end rest offset buf rd wr false y w e in absurd (ground arith)

  pub send-last :
      (c : Server) (rest : List ℕ) (offset : ℕ) (buf : List ℕ) (rd wr : ℕ) (fin : Bool)
      → Ready fns v mem rest offset buf rd wr fin
      → v.orig + v.size ≤ length mem
      → (fin || leb 7 (wr - rd)) ≡ true
      → length rest ≤ 7
      → c.size_ind ≡ v.size
      → c.size_tran + length rest ≡ v.size
      → v.size < 0x100000000
      → IsToggle c.toggle
      → let a = send_segment (reading fns v mem c offset buf rd wr fin) in
        (a.server.memory ≡ mem)
        × (a.server.state ≡ idle)
        × (a.events ≡ sent (segment c.toggle true rest) ∷ [])
  unfolding send_segment
  send-last c rest offset buf rd wr fin y w e l i t b k =
      let whole = Ready-whole rest offset buf rd wr fin y w e l in
      let n : wr - rd ≡ length rest = omega (arith, ap length whole, y.held) in
      let have : sub32 wr rd ≡ wr - rd = omega (arith, y.order, y.room) in
      let last = is_end rest offset buf rd wr fin y w e in
      let l' : leb (length rest) 7 ≡ true = ground arith in
      let u : u32 (c.size_tran + (wr - rd)) ≡ v.size = omega arith in
      let x : (ltb 0 v.size && ltb v.size v.size) ≡ false = ground arith in
      let z : (ltb 0 v.size && true && ltb v.size v.size) ≡ false = ground arith in
      let s = says_last c.toggle (length rest) k l in
      rw (have, last, l', i, u, x, z) (refl, refl, rw whole (rw (n, s) refl))

  pub send-more :
      (c : Server) (rest : List ℕ) (offset : ℕ) (buf : List ℕ) (rd wr : ℕ) (fin : Bool)
      → Ready fns v mem rest offset buf rd wr fin
      → v.orig + v.size ≤ length mem
      → (fin || leb 7 (wr - rd)) ≡ true
      → 7 < length rest
      → c.size_ind ≡ v.size
      → c.size_tran + length rest ≡ v.size
      → v.size < 0x100000000
      → Parted rest offset buf rd wr fin
      → send_segment (reading fns v mem c offset buf rd wr fin) ≡ record {
        server =
            reading fns v mem
              (record c {
                state = upload_segment_req;
                toggle = flip c.toggle;
                timeout_timer = 0;
                size_tran = c.size_tran + 7;
              })
              offset
              buf
              (rd + 7)
              wr
              fin;
        code = 0;
        ret = waiting_response;
        events = sent (segment c.toggle false (take 7 rest)) ∷ [];
      }
  unfolding send_segment
  send-more c rest offset buf rd wr fin y w e l i t b p =
      let have : sub32 wr rd ≡ wr - rd = omega (arith, y.order, y.room) in
      let last = is_end rest offset buf rd wr fin y w e in
      let l' : leb (length rest) 7 ≡ false = ground arith in
      let u : u32 (c.size_tran + 7) ≡ c.size_tran + 7 = omega arith in
      let x : (ltb 0 v.size && ltb v.size (c.size_tran + 7)) ≡ false = ground arith in
      let z : (ltb 0 v.size && false) ≡ false = ground arith in
      let n : length (take 7 rest) ≡ 7 = length-take 7 rest (omega arith) in
      let k : command c.toggle false 7 ≡ c.toggle = omega arith in
      rw (have, last, l', i, u, x, z) (rw (p.first, n, k) refl)
