-- ===== src/SdoServer/Readout.antt =====
-- The start of an upload, and the whole of it.
use e_rob_canopen_node_demo.Base.{
  ℕ, ◌+◌, ◌-◌, ◌*◌, ◌/◌, ◌%◌, ◌≤◌, ◌<◌, ◌≡◌, refl, sym, ap, ◌∙◌, inl, inr, bit_and, List, [], ◌∷◌,
  map, Bool, true, false, ◌&&◌, some, length, length-append, leb, ltb, ◌==◌, arith, Bool-cases,
  replicate,
}
use e_rob_canopen_node_demo.Od.{Odr, slice}
use e_rob_canopen_node_demo.Od.Splices.{length-slice}
use e_rob_canopen_node_demo.Od.Entries.{Access}
use e_rob_canopen_node_demo.SdoServer.{
  Server, idle, upload_initiate_req, upload_initiate_rsp, Functions, sent, receive,
}
use e_rob_canopen_node_demo.SdoServer.Requests.{
  on_message, dispatch, look_up, open_object, load, start,
}
use e_rob_canopen_node_demo.SdoServer.Process.{
  process, conclude, time_out, respond, send_abort, answer_upload, waiting_response, bytes32,
}
use e_rob_canopen_node_demo.SdoServer.Channel.{exchange, segments, deliver}
use e_rob_canopen_node_demo.SdoServer.Segments.{Variable, at}
use e_rob_canopen_node_demo.SdoServer.Refill.{reading, unread, Ready, Refilled, refill}
use e_rob_canopen_node_demo.SdoServer.Reading.{serving, requests, Delivered-cons, sends}
use e_rob_canopen_node_demo.SdoServer.Protocol.{waiting, waiting-eq}

-- The request of an upload, and the answer that announces its size.
abbrev pub ask_upload : ℕ → ℕ → List ℕ
ask_upload index sub = 0x40 ∷ index % 256 ∷ index / 256 % 256 ∷ sub ∷ replicate 4 0

abbrev pub announcement : ℕ → ℕ → ℕ → List ℕ
announcement index sub size = 0x41 ∷ index % 256 ∷ index / 256 % 256 ∷ sub ∷ bytes32 size

module _ (fns : Functions) (v : Variable) (s : Server) where
  abbrev heard : Server
  heard = record (waiting fns v s) {
    can_rx_data = ask_upload v.index v.sub;
    can_rx_new = true;
    state = upload_initiate_req;
  }

  abbrev opened : Server
  opened = record heard { index = v.index; sub_index = v.sub; od_io = at v 0 }

  opens :
      look_up s.od v.index v.sub ≡ (Odr.ok, some (at v 0))
      → v.index < 0x10000
      → (bit_and v.attribute 0x03 == 0) ≡ false
      → (bit_and v.attribute 0x01 == 0) ≡ false
      → open_object heard true ≡ (opened, 0)
  unfolding open_object
  opens found w a a' =
      let i : 256 * (v.index / 256 % 256) + v.index % 256 ≡ v.index = omega arith in
      rw (open_object, i) (rw (found, a, a') (rw i refl))

  abbrev whole : List ℕ
  whole = slice s.memory v.orig v.size

  Ready-start : 0 < v.size → Ready fns v s.memory whole 0 s.buf 0 0 false
  Ready-start p =
      let a : v.orig + 0 ≡ v.orig = omega arith in
      let b : v.size - 0 ≡ v.size = omega arith in
      record {
        parts = rw (a, b) refl;
        order = omega arith;
        room = omega arith;
        held = refl;
        more = λ _. p;
      }

  abbrev loading : Server
  loading = record opened { size_tran = 0 }

  loads :
      (r : Refilled fns v s.memory loading whole (reading fns v s.memory loading 0 s.buf 0 0 false))
      → bit_and v.attribute 0x80 ≡ 0
      → 0 < v.size
      → v.orig + v.size ≤ length s.memory
      → load fns opened ≡ (
        record (reading fns v s.memory loading r.offset r.buf r.rd r.wr r.fin) {
          size_ind = v.size;
        },
        0,
      )
  unfolding load
  loads r str p w =
      let y = r.ready in
      let z : (v.size == 0) ≡ false = ground arith in
      elim (Bool-cases r.fin) [
        | inl f ↦
            let u : unread fns v s.memory r.offset r.fin ≡ [] = rw f refl in
            let n : v.size ≡ r.wr = omega (
              arith,
              ap length y.parts,
              length-append (slice r.buf r.rd (r.wr - r.rd)) (unread fns v s.memory r.offset r.fin),
              ap length u,
              y.held,
              y.order,
              r.at_front refl,
              length-slice s.memory v.orig v.size w,
            ) in
            let q : (r.wr == r.wr) ≡ true = ground arith in rw (r.filled, f, z) (rw (n, q) refl)
        | inr f ↦ rw (r.filled, f, str) refl
      ]

  abbrev requested : Server
  requested = record (waiting fns v s) { can_rx_data = ask_upload v.index v.sub; can_rx_new = true }

  abbrev loaded : ℕ → List ℕ → ℕ → ℕ → Bool → Server
  loaded offset buf rd wr fin = record (reading fns v s.memory loading offset buf rd wr fin) {
    size_ind = v.size;
  }

  on_message-loads :
      (offset : ℕ) (buf : List ℕ) (rd wr : ℕ) (fin : Bool)
      → open_object heard true ≡ (opened, 0)
      → load fns opened ≡ (loaded offset buf rd wr fin, 0)
      → on_message fns requested ≡ (
        record (loaded offset buf rd wr fin) {
          state = upload_initiate_rsp;
          timeout_timer = 0;
          can_rx_new = false;
        },
        0,
      )
  unfolding on_message dispatch start
  on_message-loads offset buf rd wr fin o l = rw (o, l) refl

  -- The server that has announced the size, before the first request of a segment.
  abbrev begun : Server
  begun = record opened { timeout_timer = 0 }

  exchange-announces :
      (offset : ℕ) (buf : List ℕ) (rd wr : ℕ) (fin : Bool)
      → 4 < v.size
      → 0 < s.timeout_time_us
      → on_message fns requested ≡ (
        record (loaded offset buf rd wr fin) {
          state = upload_initiate_rsp;
          timeout_timer = 0;
          can_rx_new = false;
        },
        0,
      )
      → exchange fns (waiting fns v s) (ask_upload v.index v.sub) ≡ record {
        server = serving fns v s.memory begun 0 0 offset buf rd wr fin;
        code = 0;
        ret = waiting_response;
        events = sent (announcement v.index v.sub v.size) ∷ [];
      }
  unfolding exchange receive process conclude time_out respond answer_upload send_abort
  exchange-announces offset buf rd wr fin p d m =
      let z : leb s.timeout_time_us 0 ≡ false = ground arith in
      let y : ltb 0 s.timeout_time_us ≡ true = ground arith in
      let a : (ltb 0 v.size && leb v.size 4) ≡ false = ground arith in
      let b : ltb 0 v.size ≡ true = ground arith in rw (m, y, z, a, b) refl

-- An idle server over a variable that can be read, is no string, has a size from 5 up to 2^32 - 1 and
-- the functions of the stack for its access, within the memory, and a client that asks for it and then
-- for one segment after the other, without delay: what the server sends is the announcement of the
-- size and the segments of exactly the bytes that the memory has at the address of the variable, with
-- the toggle bit changing from segment to segment and the last one marked; the server is idle behind
-- that and the memory is as before. No byte is lost or out of order at the places where the buffer of
-- 32 bytes is filled again from the variable.
pub deliver_reads :
    (fns : Functions) (v : Variable) (s : Server)
    → s.state ≡ idle
    → s.valid ≡ true
    → s.can_rx_new ≡ false
    → 0 < s.timeout_time_us
    → look_up s.od v.index v.sub ≡ (Odr.ok, some (at v 0))
    → v.index < 0x10000
    → (bit_and v.attribute 0x03 == 0) ≡ false
    → (bit_and v.attribute 0x01 == 0) ≡ false
    → bit_and v.attribute 0x80 ≡ 0
    → v.read ≡ Access.original
    → 4 < v.size
    → v.size < 0x100000000
    → v.orig + v.size ≤ length s.memory
    → let bytes = slice s.memory v.orig v.size in
      let out = deliver fns s (ask_upload v.index v.sub ∷ requests v.size 0 bytes) in
      (out.0.memory ≡ s.memory)
      × (out.0.state ≡ idle)
      × (out.1 ≡ map sent (announcement v.index v.sub v.size ∷ segments v.size 0 bytes))
deliver_reads fns v s st va rx d found i a a' str o p w l =
    let bytes : List ℕ = slice s.memory v.orig v.size in
    let n = length-slice s.memory v.orig v.size l in
    let r =
      refill fns v s.memory (loading fns v s) bytes 0 s.buf 0 0 false
        (Ready-start fns v s (omega arith)) o str l in
    let m =
      on_message-loads fns v s r.offset r.buf r.rd r.wr r.fin (opens fns v s found i a a')
        (loads fns v s r str (omega arith) l) in
    let x =
      ap (λ t. exchange fns t (ask_upload v.index v.sub)) (sym (waiting-eq fns v s st va rx))
      ∙ exchange-announces fns v s r.offset r.buf r.rd r.wr r.fin p d m in
    let c =
      sends fns v s.memory v.size (begun fns v s) bytes 0 0 r.offset r.buf r.rd r.wr r.fin r.ready o
        str l w (inl refl) d (omega arith) (omega arith) (omega arith) in
    let all =
      Delivered-cons fns v s.memory s (ask_upload v.index v.sub) (announcement v.index v.sub v.size)
        (requests v.size 0 bytes) (segments v.size 0 bytes) _ x refl c in
    (all.kept, all.is_done, all.told)
