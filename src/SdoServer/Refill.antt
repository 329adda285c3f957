-- ===== src/SdoServer/Refill.antt =====
-- `readFromOd` of 301/CO_SDOserver.c: the buffer of an upload is filled from the variable.
use e_rob_canopen_node_demo.Base.{
  ℕ, ◌+◌, ◌-◌, ◌≤◌, ◌<◌, ◌≡◌, refl, sym, ap, ◌∙◌, inl, inr, bit_and, List, [], ◌++◌, Bool, true,
  false, not, ◌&&◌, ◌||◌, length, length-append, leb, ltb, ◌==◌, if◌then◌else◌, arith, sub32,
  Bool-cases, append_assoc, append-nil,
}
use e_rob_canopen_node_demo.Od.{Odr, Memory, ReadOut, slice, splice, read_original}
use e_rob_canopen_node_demo.Od.Entries.{Access}
use e_rob_canopen_node_demo.Od.Splices.{take-length, slice-slice, length-slice, slice-splice_behind}
use e_rob_canopen_node_demo.Od.Transfer.{read_original-partial, read_original-last}
use e_rob_canopen_node_demo.SdoServer.{
  Server, Functions, io_read, read_from_od, shorten, is_string, is_good, is_partial, with_stream,
  buffer_size,
}
use e_rob_canopen_node_demo.SdoServer.Segments.{Variable, at}

-- Nothing is done where the buffer holds a segment, or all that is left.
read_from_od-rests :
    (fns : Functions) (s : Server)
    → (s.finished || leb 7 (sub32 s.buf_offset_wr s.buf_offset_rd)) ≡ true
    → read_from_od fns s 7 ≡ (s, 0)
unfolding read_from_od
read_from_od-rests fns s h = rw h refl

-- What is read stands behind the bytes that were left, at the front of the buffer.
read_from_od-loads :
    (fns : Functions) (s : Server) (remain : ℕ) (r : ReadOut)
    → s.finished ≡ false
    → sub32 s.buf_offset_wr s.buf_offset_rd ≡ remain
    → remain < 7
    → io_read fns s.od_io s.memory (buffer_size - remain) ≡ r
    → is_string s ≡ false
    → is_good r.code ≡ true
    → 0 < remain + length r.bytes
    → (is_partial r.code ≡ true → 7 ≤ remain + length r.bytes)
    → read_from_od fns s 7 ≡ (
      record (with_stream s r.stream) {
        buf = splice (splice s.buf 0 (slice s.buf s.buf_offset_rd remain)) remain r.bytes;
        buf_offset_rd = 0;
        buf_offset_wr = remain + length r.bytes;
        finished = not (is_partial r.code);
      },
      0,
    )
unfolding read_from_od shorten
read_from_od-loads fns s remain r f e l io str g z p =
    let a : leb 7 remain ≡ false = ground arith in
    let b : (remain + length r.bytes == 0) ≡ false = ground arith in
    let c : (not (not (is_partial r.code)) && ltb (remain + length r.bytes) 7) ≡ false =
      ground arith in
    let h : (ltb 0 (length r.bytes) && false) ≡ false = ground arith in
    rw (e, io, str, h, f, a, g, b, c) refl

-- An upload of the variable `v`, over a memory that it lies in.
module _ (fns : Functions) (v : Variable) (mem : Memory) where
  -- The server whose buffer holds the bytes from `rd` to `wr`, with the stream at `offset`.
  abbrev pub reading : Server → ℕ → List ℕ → ℕ → ℕ → Bool → Server
  reading b offset buf rd wr fin = record b {
    memory = mem;
    od_io = at v offset;
    buf = buf;
    buf_offset_rd = rd;
    buf_offset_wr = wr;
    finished = fin;
  }

  abbrev pub unread : ℕ → Bool → List ℕ
  unread offset fin = if fin then [] else slice mem (v.orig + offset) (v.size - offset)

  -- The bytes in the buffer and those behind the stream are the rest of the variable.
  pub record Ready (rest : List ℕ) (offset : ℕ) (buf : List ℕ) (rd wr : ℕ) (fin : Bool)
      : Type 0 where
    pub parts : slice buf rd (wr - rd) ++ unread offset fin ≡ rest
    pub order : rd ≤ wr
    pub room : wr ≤ 32
    pub held : length (slice buf rd (wr - rd)) ≡ wr - rd
    pub more : fin ≡ false → offset < v.size

  pub record Refilled (b : Server) (rest : List ℕ) (s : Server) : Type 0 where
    pub offset : ℕ
    pub buf : List ℕ
    pub rd : ℕ
    pub wr : ℕ
    pub fin : Bool
    pub filled : read_from_od fns s 7 ≡ (reading b offset buf rd wr fin, 0)
    pub ready : Ready rest offset buf rd wr fin
    pub enough : (fin || leb 7 (wr - rd)) ≡ true
    pub at_front : s.buf_offset_rd ≡ 0 → rd ≡ 0

  -- The front of the buffer behind a copy.
  front :
      (buf kept bytes : List ℕ) (n : ℕ)
      → n ≡ length kept
      → slice (splice (splice buf 0 kept) n bytes) 0 (n + length bytes) ≡ kept ++ bytes
  front buf kept bytes n e =
      rw e (slice-splice_behind (splice buf 0 kept) kept bytes (take-length kept _))

  io_read-original :
      (offset count : ℕ)
      → v.read ≡ Access.original
      → io_read fns (at v offset) mem count ≡ read_original mem (at v offset).stream count
  unfolding io_read
  io_read-original offset count o = rw o refl

  -- The buffer behind a read of `bytes`.
  abbrev topped : List ℕ → ℕ → ℕ → List ℕ → List ℕ
  topped buf rd remain bytes = splice (splice buf 0 (slice buf rd remain)) remain bytes

  module _ (rest : List ℕ) (offset : ℕ) (buf : List ℕ) (rd wr : ℕ) (bytes : List ℕ) where
    Ready-front :
        Ready rest offset buf rd wr false
        → slice (topped buf rd (wr - rd) bytes) 0 (wr - rd + length bytes)
          ≡ slice buf rd (wr - rd) ++ bytes
    Ready-front y = front buf (slice buf rd (wr - rd)) bytes (wr - rd) (sym y.held)

    Ready-loaded :
        (offset' : ℕ) (fin : Bool)
        → Ready rest offset buf rd wr false
        → wr - rd + length bytes ≤ 32
        → bytes ++ unread offset' fin ≡ unread offset false
        → (fin ≡ false → offset' < v.size)
        → Ready rest offset' (topped buf rd (wr - rd) bytes) 0 (wr - rd + length bytes) fin
    Ready-loaded offset' fin y l e m =
        let kept : List ℕ = slice buf rd (wr - rd) in
        let z : wr - rd + length bytes - 0 ≡ wr - rd + length bytes = omega arith in
        record {
          parts =
              rw (z, Ready-front y)
                (append_assoc kept bytes (unread offset' fin) ∙ ap (λ l. kept ++ l) e ∙ y.parts);
          order = omega arith;
          room = l;
          held = rw (z, Ready-front y) (omega (arith, length-append kept bytes, y.held));
          more = m;
        }

  refill_more :
      (b : Server) (rest : List ℕ) (offset : ℕ) (buf : List ℕ) (rd wr : ℕ)
      → Ready rest offset buf rd wr false
      → v.read ≡ Access.original
      → bit_and v.attribute 0x80 ≡ 0
      → v.orig + v.size ≤ length mem
      → wr - rd < 7
      → 32 - (wr - rd) < v.size - offset
      → Refilled b rest (reading b offset buf rd wr false)
  refill_more b rest offset buf rd wr y o str w l m =
      let remain : ℕ = wr - rd in
      let count : ℕ = 32 - remain in
      let bytes : List ℕ = slice mem (v.orig + offset) count in
      let out : ReadOut = record {
        code = Odr.partial;
        bytes = bytes;
        stream = (at v (offset + count)).stream;
      } in
      let n : length bytes ≡ count = length-slice mem (v.orig + offset) count (omega arith) in
      let r : io_read fns (at v offset) mem count ≡ out =
        io_read-original offset count o
        ∙ read_original-partial mem (at v offset).stream v.orig count refl (y.more refl) m in
      let e : sub32 wr rd ≡ remain = omega (arith, y.order, y.room) in
      let joined : bytes ++ slice mem (v.orig + (offset + count)) (v.size - (offset + count))
          ≡ slice mem (v.orig + offset) (v.size - offset) =
        let a : v.orig + (offset + count) ≡ v.orig + offset + count = omega arith in
        let c : count + (v.size - (offset + count)) ≡ v.size - offset = omega arith in
        rw a (
          slice-slice mem (v.orig + offset) count (v.size - (offset + count))
          ∙ ap (slice mem (v.orig + offset)) c) in
      record {
        offset = offset + count;
        buf = topped buf rd remain bytes;
        rd = 0;
        wr = remain + length bytes;
        fin = false;
        filled =
            read_from_od-loads fns (reading b offset buf rd wr false) remain out refl e l r
              (rw str refl) refl (omega arith) (λ _. omega arith);
        ready =
            Ready-loaded rest offset buf rd wr bytes (offset + count) false y (omega arith) joined
              (λ _. omega arith);
        enough = ground arith;
        at_front = λ _. refl;
      }

  refill_last :
      (b : Server) (rest : List ℕ) (offset : ℕ) (buf : List ℕ) (rd wr : ℕ)
      → Ready rest offset buf rd wr false
      → v.read ≡ Access.original
      → bit_and v.attribute 0x80 ≡ 0
      → v.orig + v.size ≤ length mem
      → wr - rd < 7
      → v.size - offset ≤ 32 - (wr - rd)
      → Refilled b rest (reading b offset buf rd wr false)
  refill_last b rest offset buf rd wr y o str w l m =
      let remain : ℕ = wr - rd in
      let bytes : List ℕ = slice mem (v.orig + offset) (v.size - offset) in
      let out : ReadOut = record { code = Odr.ok; bytes = bytes; stream = (at v 0).stream } in
      let below = y.more refl in
      let n : length bytes ≡ v.size - offset =
        length-slice mem (v.orig + offset) (v.size - offset) (omega arith) in
      let r : io_read fns (at v offset) mem (32 - remain) ≡ out =
        io_read-original offset (32 - remain) o
        ∙ read_original-last mem (at v offset).stream v.orig (32 - remain) refl (λ _. below) m in
      let e : sub32 wr rd ≡ remain = omega (arith, y.order, y.room) in
      record {
        offset = 0;
        buf = topped buf rd remain bytes;
        rd = 0;
        wr = remain + length bytes;
        fin = true;
        filled =
            read_from_od-loads fns (reading b offset buf rd wr false) remain out refl e l r
              (rw str refl) refl (omega arith) (λ p. absurd (ground arith));
        ready =
            Ready-loaded rest offset buf rd wr bytes 0 true y (omega arith) (append-nil bytes)
              (λ p. absurd (ground arith));
        enough = refl;
        at_front = λ _. refl;
      }

  -- The buffer holds a segment, or all that is left.
  pub refill :
      (b : Server) (rest : List ℕ) (offset : ℕ) (buf : List ℕ) (rd wr : ℕ) (fin : Bool)
      → Ready rest offset buf rd wr fin
      → v.read ≡ Access.original
      → bit_and v.attribute 0x80 ≡ 0
      → v.orig + v.size ≤ length mem
      → Refilled b rest (reading b offset buf rd wr fin)
  refill b rest offset buf rd wr fin y o str w =
      let e : sub32 wr rd ≡ wr - rd = omega (arith, y.order, y.room) in
      elim (Bool-cases (fin || leb 7 (wr - rd))) [
        | inl h ↦ record {
          offset = offset;
          buf = buf;
          rd = rd;
          wr = wr;
          fin = fin;
          filled = read_from_od-rests fns (reading b offset buf rd wr fin) (rw e h);
          ready = y;
          enough = h;
          at_front = λ z. z;
        }
        | inr h ↦
            let f : fin ≡ false = ground arith in
            let l : wr - rd < 7 = ground arith in
            let y' : Ready rest offset buf rd wr false = rw (← f) y in
            rw f (elim (Bool-cases (ltb (32 - (wr - rd)) (v.size - offset))) [
              | inl m ↦ refill_more b rest offset buf rd wr y' o str w l (ground arith)
              | inr m ↦ refill_last b rest offset buf rd wr y' o str w l (ground arith)
            ])
      ]
