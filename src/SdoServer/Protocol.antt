-- ===== src/SdoServer/Protocol.antt =====
-- A whole segmented download between an SDO client and the server.
use e_rob_canopen_node_demo.Base.{
  ℕ, ◌+◌, ◌*◌, ◌/◌, ◌%◌, ◌≤◌, ◌<◌, ◌≡◌, refl, sym, ap, ◌∙◌, inl, inr, bit_and, List, [], ◌∷◌, map,
  true, false, ◌&&◌, some, length, leb, ltb, ◌==◌, arith,
}
use e_rob_canopen_node_demo.Od.{Odr, splice}
use e_rob_canopen_node_demo.Od.Splices.{splice-nil}
use e_rob_canopen_node_demo.SdoServer.{
  Server, idle, download_initiate_req, download_initiate_rsp, Functions, receive,
}
use e_rob_canopen_node_demo.SdoServer.Requests.{
  on_message, start, open_object, look_up, announce, dispatch, le32,
}
use e_rob_canopen_node_demo.SdoServer.Process.{
  process, conclude, time_out, respond, answer_download, send_abort, waiting_response, bytes32,
}
use e_rob_canopen_node_demo.SdoServer.Channel.{
  deliver-cons, exchange, segments, deliver, confirmation, initiate, initiated,
}
use e_rob_canopen_node_demo.SdoServer.Segments.{Variable, at, filling}
use e_rob_canopen_node_demo.SdoServer.Download.{Resting, fills}
use e_rob_canopen_node_demo.SdoServer.Parts.{Filled}

le32-bytes32 : (n : ℕ) → n < 0x100000000 → le32 (bytes32 n) 0 ≡ n
le32-bytes32 n h = omega arith

open_object-eq :
    (v : Variable) (s : Server) (size : ℕ)
    → look_up s.od v.index v.sub ≡ (Odr.ok, some (at v 0))
    → v.index < 0x10000
    → (bit_and v.attribute 0x03 == 0) ≡ false
    → (bit_and v.attribute 0x02 == 0) ≡ false
    → s.can_rx_data ≡ initiate v.index v.sub size
    → open_object s false ≡ (record s { index = v.index; sub_index = v.sub; od_io = at v 0 }, 0)
unfolding open_object
open_object-eq v s size found w a a' e =
    let i : 256 * (v.index / 256 % 256) + v.index % 256 ≡ v.index = omega arith in
    rw e (rw (open_object, i) (rw (found, a, a') (rw i refl)))

announce-eq :
    (s : Server) (index sub size : ℕ)
    → s.can_rx_data ≡ initiate index sub size
    → s.od_io.stream.data_length ≡ size
    → size < 0x100000000
    → announce s
      ≡ (record s { size_ind = size; state = download_initiate_rsp; finished = false }, 0)
unfolding announce
announce-eq s index sub size e l w =
    let n : le32 (initiate index sub size) 4 ≡ size = omega arith in
    let z : (ltb 0 size && ltb size size) ≡ false = ground arith in
    let y : ltb size size ≡ false = ground arith in
    let x : (ltb 0 size && false) ≡ false = ground arith in rw (e, l) (rw n (rw (y, x) refl))

-- The server that has confirmed the announcement.
abbrev announced : Variable → Server → ℕ → Server
announced v s size = record s {
  index = v.index;
  sub_index = v.sub;
  can_rx_data = initiate v.index v.sub size;
  finished = false;
  timeout_timer = 0;
  buf_offset_rd = 0;
}

module _ (fns : Functions) (v : Variable) (s : Server) where
  -- The server that waits for a request.
  abbrev pub waiting : Server
  waiting = record s { state = idle; valid = true; can_rx_new = false }

  pub waiting-eq : s.state ≡ idle → s.valid ≡ true → s.can_rx_new ≡ false → waiting ≡ s
  waiting-eq st va rx = rw (← st, ← va, ← rx) refl

  abbrev heard : Server
  heard = record waiting { can_rx_data = initiate v.index v.sub v.size; can_rx_new = true }

  abbrev opened : Server
  opened = record heard {
    state = download_initiate_req;
    index = v.index;
    sub_index = v.sub;
    od_io = at v 0;
  }

  start-eq :
      look_up s.od v.index v.sub ≡ (Odr.ok, some (at v 0))
      → v.index < 0x10000
      → (bit_and v.attribute 0x03 == 0) ≡ false
      → (bit_and v.attribute 0x02 == 0) ≡ false
      → start fns heard ≡ (opened, 0)
  unfolding start
  start-eq found i a a' =
      open_object-eq v (record heard { state = download_initiate_req }) v.size found i a a' refl

  on_message-eq :
      v.size < 0x100000000
      → start fns heard ≡ (opened, 0)
      → on_message fns heard ≡ (
        record opened {
          size_ind = v.size;
          state = download_initiate_rsp;
          finished = false;
          timeout_timer = 0;
          can_rx_new = false;
        },
        0,
      )
  unfolding on_message dispatch
  on_message-eq w e = rw (e, announce-eq opened v.index v.sub v.size refl refl w) refl

  exchange-initiate :
      0 < s.timeout_time_us
      → on_message fns heard ≡ (
        record opened {
          size_ind = v.size;
          state = download_initiate_rsp;
          finished = false;
          timeout_timer = 0;
          can_rx_new = false;
        },
        0,
      )
      → exchange fns waiting (initiate v.index v.sub v.size) ≡ record {
        server = filling v (announced v s v.size) s.memory 0 s.buf 0 0 v.size;
        code = 0;
        ret = waiting_response;
        events = initiated v.index v.sub ∷ [];
      }
  unfolding exchange receive process conclude time_out respond answer_download send_abort
  exchange-initiate d e =
      let z : leb s.timeout_time_us 0 ≡ false = ground arith in
      let y : ltb 0 s.timeout_time_us ≡ true = ground arith in rw (e, y, z) refl

-- An idle server over a variable that can be written, is no string, has a size from 1 up to 2^32 - 1
-- and the functions of the stack for its access, in memory that its address lies in, and a client
-- that announces a download of that size and sends the bytes in its segments, without delay: the
-- memory behind the exchange has exactly those bytes at the address of the variable and is otherwise
-- as before, the server is idle, and what it has sent is the confirmation of the announcement and one
-- of every segment, with the toggle bit of that segment; it is ready for the next message, with the
-- same dictionary and timeout. No byte is lost or out of order at the
-- places where the buffer of 32 bytes is emptied into the variable.
pub deliver_stores :
    (fns : Functions) (v : Variable) (s : Server) (bytes : List ℕ)
    → s.state ≡ idle
    → s.valid ≡ true
    → s.can_rx_new ≡ false
    → 0 < s.timeout_time_us
    → look_up s.od v.index v.sub ≡ (Odr.ok, some (at v 0))
    → v.index < 0x10000
    → (bit_and v.attribute 0x03 == 0) ≡ false
    → (bit_and v.attribute 0x02 == 0) ≡ false
    → bit_and v.attribute 0x80 ≡ 0
    → length bytes ≡ v.size
    → 0 < v.size
    → v.size < 0x100000000
    → v.orig ≤ length s.memory
    → let messages = segments v.size 0 bytes in
      let out = deliver fns s (initiate v.index v.sub v.size ∷ messages) in
      (out.0.memory ≡ splice s.memory v.orig bytes)
      × (out.0.state ≡ idle)
      × (out.1 ≡ initiated v.index v.sub ∷ map confirmation messages)
      × Resting s out.0
deliver_stores fns v s bytes st va rx d found i a a' str l p w o =
    let on = on_message-eq fns v s w (start-eq fns v s found i a a') in
    let x =
      ap (λ t. exchange fns t (initiate v.index v.sub v.size)) (sym (waiting-eq fns v s st va rx))
      ∙ exchange-initiate fns v s d on in
    let f : Filled v s.memory bytes [] [] bytes s.memory 0 0 s.buf = record {
      total = refl;
      count = refl;
      pending = refl;
      memory = sym (splice-nil s.memory v.orig);
      kept = refl;
      room = omega arith;
    } in
    let c =
      fills fns v s.memory bytes v.size v.size (announced v s v.size) [] [] bytes s.memory 0 0 0
        s.buf f l w o (inr refl) str d (inl refl) (omega arith) (omega arith) in
    rw (deliver-cons fns s (initiate v.index v.sub v.size) (segments v.size 0 bytes) _ x) (
      c.stored,
      c.is_done,
      ap (λ es. initiated v.index v.sub ∷ es) c.confirmed,
      record {
        is_valid = c.resting.is_valid;
        is_free = c.resting.is_free;
        same_od = c.resting.same_od;
        same_time = c.resting.same_time;
      },
    )
