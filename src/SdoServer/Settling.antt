-- ===== src/SdoServer/Settling.antt =====
-- What the server does with a segment of a download, and with its full buffer.
use e_rob_canopen_node_demo.Base.{
  ℕ, ◌+◌, ◌≤◌, ◌<◌, ◌≡◌, refl, ap, ◌∙◌, inl, inr, bit_and, List, Bool, true, false, not, length,
  ltb, ◌==◌, arith, sub32, Bool-cases,
}
use e_rob_canopen_node_demo.Od.{Odr, Stream, Memory, slice, splice, write_original}
use e_rob_canopen_node_demo.SdoServer.{
  Server, Functions, flush, validate_and_write_to_od, io_write, buffer_size, with_stream,
}
use e_rob_canopen_node_demo.SdoServer.Requests.{take_segment, settle}
use e_rob_canopen_node_demo.SdoServer.Channel.{segment, Read-command, IsToggle}
use e_rob_canopen_node_demo.SdoServer.Segments.{
  Variable, at, filling, filled, settled, IsIndicated, gather-filled, write_more, write_last,
  validate_more, validate_last,
}

module _ (fns : Functions) (v : Variable) where
  pub take_segment-eq :
      (b : Server) (mem : Memory) (offset held toggle size_ind : ℕ) (buf bytes : List ℕ)
      (last : Bool)
      → IsToggle toggle
      → length bytes ≤ 7
      → offset + held + length bytes ≤ v.size
      → v.size < 0x100000000
      → take_segment fns (record (filling v b mem offset buf held toggle size_ind) {
        can_rx_data = segment toggle last bytes;
        can_rx_new = true;
      })
        ≡ settle fns (filled v b mem offset buf held toggle size_ind last bytes)
  unfolding take_segment
  take_segment-eq b mem offset held toggle size_ind buf bytes last t c f w =
      let r = Read-command toggle (length bytes) last t c in
      let eq : (toggle == toggle) ≡ true = ground arith in
      let long : ltb v.size (offset + (held + length bytes)) ≡ false = ground arith in
      let double : not (not last) ≡ last = elim (Bool-cases last) [
        | inl e ↦ rw e refl
        | inr e ↦ rw e refl
      ] in
      rw
        (
          r.kind,
          r.same,
          r.end,
          eq,
          double,
          gather-filled v b mem offset held toggle size_ind buf bytes last t c (omega arith),
          long,
        )
        (elim (Bool-cases (ltb 0 v.size)) [ inl e ↦ rw e refl | inr e ↦ rw e refl ])

  flush_more :
      (s : Server) (n : ℕ) (mem : Memory) (stream : Stream)
      → s.finished ≡ false
      → io_write fns s.od_io s.memory (slice s.buf 0 s.buf_offset_wr)
        ≡ record { code = Odr.partial; count_written = n; memory = mem; stream = stream }
      → flush fns s ≡ (record (with_stream s stream) { memory = mem; buf_offset_wr = 0 }, 0)
  unfolding flush
  flush_more s n mem stream f w = rw (w, f) refl

  flush_last :
      (s : Server) (n : ℕ) (mem : Memory) (stream : Stream)
      → s.finished ≡ true
      → io_write fns s.od_io s.memory (slice s.buf 0 s.buf_offset_wr)
        ≡ record { code = Odr.ok; count_written = n; memory = mem; stream = stream }
      → flush fns s ≡ (record (with_stream s stream) { memory = mem; buf_offset_wr = 0 }, 0)
  unfolding flush
  flush_last s n mem stream f w = rw (w, f) refl

  pub settle_keeps :
      (b : Server) (mem : Memory) (offset held toggle size_ind : ℕ) (buf bytes : List ℕ)
      → held + length bytes ≤ 23
      → settle fns (filled v b mem offset buf held toggle size_ind false bytes) ≡ (
        settled v b mem offset
            (splice buf held bytes)
            (offset + (held + length bytes))
            (held + length bytes)
            toggle
            size_ind
            false
            bytes,
        0,
      )
  unfolding settle
  settle_keeps b mem offset held toggle size_ind buf bytes h =
      let e : ltb (sub32 buffer_size (held + length bytes)) 9 ≡ false = ground arith in rw e refl

  pub settle_flushes :
      (b : Server) (mem : Memory) (offset held toggle size_ind : ℕ) (buf bytes pending : List ℕ)
      → 23 < held + length bytes
      → held + length bytes ≤ 30
      → length pending ≡ held + length bytes
      → slice (splice buf held bytes) 0 (held + length bytes) ≡ pending
      → offset + length pending < v.size
      → IsIndicated v size_ind
      → settle fns (filled v b mem offset buf held toggle size_ind false bytes) ≡ (
        settled v b
            (splice mem (v.orig + offset) pending)
            (offset + length pending)
            (splice buf held bytes)
            (offset + (held + length bytes))
            0
            toggle
            size_ind
            false
            bytes,
        0,
      )
  unfolding settle validate_and_write_to_od io_write
  settle_flushes b mem offset held toggle size_ind buf bytes pending h h' l e f i =
      let s : Server = filled v b mem offset buf held toggle size_ind false bytes in
      let a : ltb (sub32 buffer_size (held + length bytes)) 9 ≡ true = ground arith in
      let w = ap (write_original mem (at v offset).stream) e ∙ write_more v mem offset pending f in
      let v = validate_more v s refl (omega arith) i in
      let fl = flush_more s (length pending) _ _ refl w in rw (a, v) (rw fl refl)

  pub settle_last :
      (b : Server) (mem : Memory) (offset held toggle size_ind : ℕ) (buf bytes pending : List ℕ)
      → length pending ≡ held + length bytes
      → slice (splice buf held bytes) 0 (held + length bytes) ≡ pending
      → offset + length pending ≡ v.size
      → 0 < length pending
      → IsIndicated v size_ind
      → bit_and v.attribute 0x80 ≡ 0
      → settle fns (filled v b mem offset buf held toggle size_ind true bytes) ≡ (
        settled v b
            (splice mem (v.orig + offset) pending)
            0
            (splice buf held bytes)
            (offset + (held + length bytes))
            0
            toggle
            size_ind
            true
            bytes,
        0,
      )
  unfolding settle validate_and_write_to_od io_write
  settle_last b mem offset held toggle size_ind buf bytes pending l e f p i a =
      let s : Server = filled v b mem offset buf held toggle size_ind true bytes in
      let w =
        ap (write_original mem (at v offset).stream) e ∙ write_last v mem offset pending f p in
      let v = validate_last v s (omega arith) refl i (rw a refl) (omega arith) in
      let fl = flush_last s (length pending) _ _ refl w in rw v (rw fl refl)
