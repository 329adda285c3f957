-- ===== src/SdoServer/RoundTrip.antt =====
-- A download of a variable and an upload of it.
use e_rob_canopen_node_demo.Base.{
  ℕ, ◌+◌, ◌≤◌, ◌<◌, ◌≡◌, sym, ap, subst, ◌∙◌, bit_and, List, ◌∷◌, map, false, true, some, length,
  ◌==◌, arith,
}
use e_rob_canopen_node_demo.Od.{Odr, slice, splice}
use e_rob_canopen_node_demo.Od.Entries.{Access}
use e_rob_canopen_node_demo.Od.Splices.{length-splice}
use e_rob_canopen_node_demo.Od.Transfer.{slice-splice}
use e_rob_canopen_node_demo.SdoServer.{Server, idle, Functions, sent}
use e_rob_canopen_node_demo.SdoServer.Requests.{look_up}
use e_rob_canopen_node_demo.SdoServer.Channel.{deliver, segments, initiate}
use e_rob_canopen_node_demo.SdoServer.Segments.{Variable, at}
use e_rob_canopen_node_demo.SdoServer.Protocol.{deliver_stores}
use e_rob_canopen_node_demo.SdoServer.Reading.{requests}
use e_rob_canopen_node_demo.SdoServer.Readout.{ask_upload, announcement, deliver_reads}

-- An idle server over a variable that can be written and read, is no string, has a size from 5 up to
-- 2^32 - 1 and the functions of the stack for its access, within the memory: a client that downloads
-- bytes of that size in segments and then asks for the variable gets the announcement of the size and
-- the segments of the same bytes.
pub deliver-deliver :
    (fns : Functions) (v : Variable) (s : Server) (bytes : List ℕ)
    → s.state ≡ idle
    → s.valid ≡ true
    → s.can_rx_new ≡ false
    → 0 < s.timeout_time_us
    → look_up s.od v.index v.sub ≡ (Odr.ok, some (at v 0))
    → v.index < 0x10000
    → (bit_and v.attribute 0x03 == 0) ≡ false
    → (bit_and v.attribute 0x02 == 0) ≡ false
    → (bit_and v.attribute 0x01 == 0) ≡ false
    → bit_and v.attribute 0x80 ≡ 0
    → v.read ≡ Access.original
    → length bytes ≡ v.size
    → 4 < v.size
    → v.size < 0x100000000
    → v.orig + v.size ≤ length s.memory
    → let there = deliver fns s (initiate v.index v.sub v.size ∷ segments v.size 0 bytes) in
      let back = deliver fns there.0 (ask_upload v.index v.sub ∷ requests v.size 0 bytes) in
      back.1 ≡ map sent (announcement v.index v.sub v.size ∷ segments v.size 0 bytes)
deliver-deliver fns v s bytes st va rx d found i a a' a'' str o l p w m =
    let there =
      deliver_stores fns v s bytes st va rx d found i a a' str l (omega arith) w (omega arith) in
    let r = there.3 in
    let t : Server = (deliver fns s (initiate v.index v.sub v.size ∷ segments v.size 0 bytes)).0 in
    let inside : v.orig + length bytes ≤ length s.memory = omega arith in
    let same : slice t.memory v.orig v.size ≡ bytes =
      ap (λ mem. slice mem v.orig v.size) there.0
      ∙ ap (slice (splice s.memory v.orig bytes) v.orig) (sym l)
      ∙ slice-splice s.memory v.orig bytes (omega arith) in
    let size : length t.memory ≡ length s.memory =
      ap length there.0 ∙ length-splice s.memory v.orig bytes inside in
    let back =
      deliver_reads fns v t there.1 r.is_valid r.is_free (omega (arith, r.same_time))
        (ap (λ od. look_up od v.index v.sub) r.same_od ∙ found) i a a'' str o p w (omega arith) in
    subst
      (λ (bs : List ℕ).
        (deliver fns t (ask_upload v.index v.sub ∷ requests v.size 0 bs)).1
        ≡ map sent (announcement v.index v.sub v.size ∷ segments v.size 0 bs))
      same back.2
