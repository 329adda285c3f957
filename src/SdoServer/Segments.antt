-- ===== src/SdoServer/Segments.antt =====
-- The states of the server in a segmented download, and what it does with a segment.
use e_rob_canopen_node_demo.Base.{
  ℕ, zero, suc, ◌+◌, ◌-◌, ◌≤◌, ◌<◌, ◌≡◌, refl, ◌⊎◌, inl, inr, List, Bool, true, false, not, ◌&&◌,
  ◌||◌, some, length, leb, ltb, ◌==◌, arith, u32, Bool-cases,
}
use e_rob_canopen_node_demo.Od.{Odr, Memory, slice, splice, write_original}
use e_rob_canopen_node_demo.Od.Entries.{Io, Access}
use e_rob_canopen_node_demo.Od.Splices.{take-length}
use e_rob_canopen_node_demo.SdoServer.{
  Server, download_segment_req, download_segment_rsp, validate, is_string,
}
use e_rob_canopen_node_demo.SdoServer.Requests.{gather}
use e_rob_canopen_node_demo.SdoServer.Channel.{segment, Read-command, IsToggle}

-- The variable of a download.
pub record Variable : Type 0 where
  pub orig : ℕ
  pub size : ℕ
  pub attribute : ℕ
  pub read : Access
  pub index : ℕ
  pub sub : ℕ

module _ (v : Variable) where
  abbrev pub at : ℕ → Io
  at offset = record {
    stream = record {
      data_orig = some v.orig;
      data_length = v.size;
      data_offset = offset;
      attribute = v.attribute;
      index = v.index;
      sub_index = v.sub;
    };
    read = v.read;
    write = Access.original;
  }

  -- The server that has put `offset` bytes into the variable, and holds `held` more.
  abbrev pub filling : Server → Memory → ℕ → List ℕ → ℕ → ℕ → ℕ → Server
  filling b mem offset buf held toggle size_ind = record b {
    memory = mem;
    valid = true;
    state = download_segment_req;
    od_io = at offset;
    can_rx_new = false;
    size_ind = size_ind;
    size_tran = offset + held;
    toggle = toggle;
    buf = buf;
    buf_offset_wr = held;
  }

  -- The server once a segment is in the buffer.
  abbrev pub filled : Server → Memory → ℕ → List ℕ → ℕ → ℕ → ℕ → Bool → List ℕ → Server
  filled b mem offset buf held toggle size_ind last bytes =
      record (filling b mem offset (splice buf held bytes) (held + length bytes) toggle size_ind) {
        can_rx_data = segment toggle last bytes;
        can_rx_new = true;
        finished = last;
      }

  -- The server that has answered a segment, with `offset` bytes in the variable and `held` in the buffer.
  abbrev pub settled : Server → Memory → ℕ → List ℕ → ℕ → ℕ → ℕ → ℕ → Bool → List ℕ → Server
  settled b mem offset buf tran held toggle size_ind last bytes =
      record (filling b mem offset buf held toggle size_ind) {
        state = download_segment_rsp;
        can_rx_data = segment toggle last bytes;
        can_rx_new = true;
        finished = last;
        size_tran = tran;
      }

  pub gather-filled :
      (b : Server) (mem : Memory) (offset held toggle size_ind : ℕ) (buf bytes : List ℕ)
      (last : Bool)
      → IsToggle toggle
      → length bytes ≤ 7
      → offset + held + length bytes < 0x100000000
      → gather (record (filling b mem offset buf held toggle size_ind) {
        can_rx_data = segment toggle last bytes;
        can_rx_new = true;
        finished = last;
      })
        ≡ filled b mem offset buf held toggle size_ind last bytes
  unfolding gather
  gather-filled b mem offset held toggle size_ind buf bytes last t c w =
      let r = Read-command toggle (length bytes) last t c in
      let tran : u32 (offset + held + length bytes) ≡ offset + (held + length bytes) =
        omega arith in
      let got : slice (segment toggle last bytes) 1 (length bytes) ≡ bytes = take-length bytes _ in
      rw r.size (rw (tran, got) refl)

  pub write_more :
      (mem : Memory) (offset : ℕ) (bytes : List ℕ)
      → offset + length bytes < v.size
      → write_original mem (at offset).stream bytes ≡ record {
        code = Odr.partial;
        count_written = length bytes;
        memory = splice mem (v.orig + offset) bytes;
        stream = (at (offset + length bytes)).stream;
      }
  unfolding write_original
  write_more mem offset bytes h =
      let a : (ltb 0 offset || ltb (length bytes) v.size) ≡ true = ground arith in
      let b : leb v.size offset ≡ false = ground arith in
      let c : ltb (length bytes) (v.size - offset) ≡ true = ground arith in rw (a, b, c) refl

  pub write_last :
      (mem : Memory) (offset : ℕ) (bytes : List ℕ)
      → offset + length bytes ≡ v.size
      → 0 < length bytes
      → write_original mem (at offset).stream bytes ≡ record {
        code = Odr.ok;
        count_written = length bytes;
        memory = splice mem (v.orig + offset) bytes;
        stream = (at 0).stream;
      }
  unfolding write_original
  write_last mem zero bytes h p =
      let e : length bytes ≡ v.size = omega arith in
      let a : ltb (length bytes) v.size ≡ false = ground arith in
      let b : ltb v.size (length bytes) ≡ false = ground arith in
      let c : v.orig + 0 ≡ v.orig = omega arith in rw (a, b, c, e) refl
  write_last mem (suc offset) bytes h p =
      let a : (ltb 0 (suc offset) || ltb (length bytes) v.size) ≡ true = ground arith in
      let b : leb v.size (suc offset) ≡ false = ground arith in
      let e : v.size - suc offset ≡ length bytes = omega arith in
      let c : ltb (length bytes) (length bytes) ≡ false = ground arith in rw (a, b, e, c) refl

  abbrev pub IsIndicated : ℕ → Type 0
  IsIndicated size_ind = (size_ind ≡ 0) ⊎ (size_ind ≡ v.size)

  pub validate_more :
      (s : Server)
      → s.finished ≡ false
      → s.size_tran ≤ v.size
      → IsIndicated s.size_ind
      → validate s ≡ (s, 0)
  unfolding validate
  validate_more s f t i =
      let c : (ltb 0 s.size_ind && ltb s.size_ind s.size_tran) ≡ false = ground arith in
      rw (f, c) refl

  pub validate_last :
      (s : Server)
      → s.size_tran ≡ v.size
      → s.od_io.stream.data_length ≡ v.size
      → IsIndicated s.size_ind
      → is_string s ≡ false
      → 0 < v.size
      → validate s ≡ (s, 0)
  unfolding validate
  validate_last s t l i a p =
      let c : (ltb 0 s.size_ind && not (s.size_tran == s.size_ind)) ≡ false = ground arith in
      let z : (v.size == 0) ≡ false = ground arith in
      let n : (v.size == v.size) ≡ true = ground arith in
      elim (Bool-cases s.finished) [
        | inl e ↦ rw (e, c, a, l, t, z, n) refl
        | inr e ↦
            let d : (ltb 0 s.size_ind && ltb s.size_ind s.size_tran) ≡ false = ground arith in
            rw (e, d) refl
      ]
