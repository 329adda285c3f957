-- ===== src/SdoServer/Reading.antt =====
-- A whole segmented upload between an SDO client and the server.
use e_rob_canopen_node_demo.Base.{
  ℕ, zero, suc, ◌+◌, ◌≤◌, ◌<◌, ◌≡◌, refl, ap, ◌∙◌, inl, inr, bit_and, List, [], ◌∷◌, ◌++◌, map,
  Bool, true, false, length, length-append, take, drop, leb, ltb, ◌==◌, if◌then◌else◌, arith,
  Bool-cases,
}
use e_rob_canopen_node_demo.Od.{Memory}
use e_rob_canopen_node_demo.Od.Splices.{take-drop, length-take}
use e_rob_canopen_node_demo.Od.Entries.{Access}
use e_rob_canopen_node_demo.SdoServer.{
  Server, idle, upload_segment_req, upload_segment_rsp, Functions, Event, sent, receive,
  read_from_od,
}
use e_rob_canopen_node_demo.SdoServer.Requests.{on_message, dispatch, ask_segment}
use e_rob_canopen_node_demo.SdoServer.Process.{
  process, conclude, time_out, respond, send_segment, send_abort, Answered, flip,
}
use e_rob_canopen_node_demo.SdoServer.Channel.{exchange, deliver-cons, segments, deliver, IsToggle}
use e_rob_canopen_node_demo.SdoServer.Segments.{Variable}
use e_rob_canopen_node_demo.SdoServer.Refill.{reading, Ready, Refilled, refill}
use e_rob_canopen_node_demo.SdoServer.Upload.{is_end, ask, Ready-Parted, send-last, send-more}
use e_rob_canopen_node_demo.SdoServer.Download.{flip-IsToggle}

-- The requests of the segments of some bytes, with fuel for their number.
unfoldable pub requests : ℕ → ℕ → List ℕ → List (List ℕ)
requests zero toggle bytes = []
requests (suc fuel) toggle bytes =
    let rest = requests fuel (flip toggle) (drop 7 bytes) in
    if leb (length bytes) 7 then ask toggle ∷ [] else ask toggle ∷ rest

-- What the server reads out of a request.
record Asked (toggle : ℕ) : Type 0 where
  other : (0x60 + toggle == 0x80) ≡ false
  kind : (bit_and (0x60 + toggle) 0xEF == 0x60) ≡ true
  same : (bit_and (0x60 + toggle) 0x10 == toggle) ≡ true

IsToggle-Asked : (toggle : ℕ) → IsToggle toggle → Asked toggle
IsToggle-Asked toggle (inl e) = rw e (record { other = refl; kind = refl; same = refl })
IsToggle-Asked toggle (inr e) = rw e (record { other = refl; kind = refl; same = refl })

module _ (fns : Functions) (v : Variable) (mem : Memory) where
  -- The server that expects a request, and the one that answers it.
  abbrev pub serving : Server → ℕ → ℕ → ℕ → List ℕ → ℕ → ℕ → Bool → Server
  serving b toggle done offset buf rd wr fin =
      reading fns v mem
        (record b {
          valid = true;
          state = upload_segment_req;
          can_rx_new = false;
          size_ind = v.size;
          toggle = toggle;
          size_tran = done;
        })
        offset buf rd wr fin

  abbrev asked : Server → ℕ → ℕ → Server
  asked b toggle done = record b {
    valid = true;
    state = upload_segment_rsp;
    can_rx_new = false;
    can_rx_data = ask toggle;
    timeout_timer = 0;
    size_ind = v.size;
    toggle = toggle;
    size_tran = done;
  }

  on_message-ask :
      (b : Server) (toggle done offset : ℕ) (buf : List ℕ) (rd wr : ℕ) (fin : Bool)
      → IsToggle toggle
      → on_message fns (record (serving b toggle done offset buf rd wr fin) {
        can_rx_data = ask toggle;
        can_rx_new = true;
      })
        ≡ (reading fns v mem (asked b toggle done) offset buf rd wr fin, 0)
  unfolding on_message dispatch ask_segment
  on_message-ask b toggle done offset buf rd wr fin t =
      let k = IsToggle-Asked toggle t in rw (k.kind, k.same) refl

  exchange-hears :
      (b : Server) (toggle done offset : ℕ) (buf : List ℕ) (rd wr : ℕ) (fin : Bool)
      → IsToggle toggle
      → exchange fns (serving b toggle done offset buf rd wr fin) (ask toggle)
        ≡ conclude fns (reading fns v mem (asked b toggle done) offset buf rd wr fin, 0) 0 false
  unfolding exchange receive process
  exchange-hears b toggle done offset buf rd wr fin t =
      let k = IsToggle-Asked toggle t in
      rw k.other
        (ap (λ st. conclude fns st 0 false) (on_message-ask b toggle done offset buf rd wr fin t))

  conclude-sends :
      (c : Server) (u : Server) (a : Answered)
      → 0 < c.timeout_time_us
      → read_from_od fns (record c { state = upload_segment_rsp; timeout_timer = 0 }) 7 ≡ (u, 0)
      → send_segment u ≡ a
      → conclude fns (record c { state = upload_segment_rsp; timeout_timer = 0 }, 0) 0 false
        ≡ send_abort a.server.state a
  unfolding conclude time_out respond
  conclude-sends c u a d r e =
      let z : leb c.timeout_time_us 0 ≡ false = ground arith in
      let y : ltb 0 c.timeout_time_us ≡ true = ground arith in rw (y, z, r, e) refl

  exchange-ask :
      (b : Server) (rest : List ℕ) (toggle done offset : ℕ) (buf : List ℕ) (rd wr : ℕ) (fin : Bool)
      → IsToggle toggle
      → 0 < b.timeout_time_us
      → (r : Refilled fns v mem
          (asked b toggle done)
          rest
          (reading fns v mem (asked b toggle done) offset buf rd wr fin))
      → (a : Answered)
      → send_segment (reading fns v mem (asked b toggle done) r.offset r.buf r.rd r.wr r.fin) ≡ a
      → exchange fns (serving b toggle done offset buf rd wr fin) (ask toggle)
        ≡ send_abort a.server.state a
  exchange-ask b rest toggle done offset buf rd wr fin t d r a e =
      exchange-hears b toggle done offset buf rd wr fin t
      ∙ conclude-sends (reading fns v mem (asked b toggle done) offset buf rd wr fin) _ a d r.filled
          e

  send_abort-idle : (a : Answered) → a.server.state ≡ idle → send_abort a.server.state a ≡ a
  unfolding send_abort
  send_abort-idle a e = rw e refl

  -- An upload that is complete: the variables are as before, and the messages are sent.
  pub record Delivered (messages : List (List ℕ)) (out : Server × List Event) : Type 0 where
    pub kept : out.0.memory ≡ mem
    pub is_done : out.0.state ≡ idle
    pub told : out.1 ≡ map sent messages

  Delivered-end :
      (s : Server) (m answer : List ℕ) (a : Answered)
      → exchange fns s m ≡ send_abort a.server.state a
      → (a.server.memory ≡ mem) × (a.server.state ≡ idle) × (a.events ≡ sent answer ∷ [])
      → Delivered (answer ∷ []) (deliver fns s (m ∷ []))
  unfolding deliver
  Delivered-end s m answer a e h =
      rw (deliver-cons fns s m [] a (e ∙ send_abort-idle a h.1))
        (record { kept = h.0; is_done = h.1; told = ap (λ es. es ++ []) h.2 })

  pub Delivered-cons :
      (s : Server) (m answer : List ℕ) (asks messages : List (List ℕ)) (a : Answered)
      → exchange fns s m ≡ a
      → a.events ≡ sent answer ∷ []
      → Delivered messages (deliver fns a.server asks)
      → Delivered (answer ∷ messages) (deliver fns s (m ∷ asks))
  Delivered-cons s m answer asks messages a e h d = rw (deliver-cons fns s m asks a e) (record {
    kept = d.kept;
    is_done = d.is_done;
    told = rw h (ap (λ es. sent answer ∷ es) d.told);
  })

  pub sends :
      (fuel : ℕ) (b : Server) (rest : List ℕ) (toggle done offset : ℕ) (buf : List ℕ) (rd wr : ℕ)
      (fin : Bool)
      → Ready fns v mem rest offset buf rd wr fin
      → v.read ≡ Access.original
      → bit_and v.attribute 0x80 ≡ 0
      → v.orig + v.size ≤ length mem
      → v.size < 0x100000000
      → IsToggle toggle
      → 0 < b.timeout_time_us
      → done + length rest ≡ v.size
      → 0 < length rest
      → length rest ≤ fuel
      → Delivered
          (segments fuel toggle rest)
          (deliver fns (serving b toggle done offset buf rd wr fin) (requests fuel toggle rest))
  unfolding segments requests send_abort
  sends zero b rest toggle done offset buf rd wr fin y o str w l t d n p c = absurd (omega arith)
  sends (suc fuel) b rest toggle done offset buf rd wr fin y o str w l t d n p c =
      let r = refill fns v mem (asked b toggle done) rest offset buf rd wr fin y o str w in
      let x = exchange-ask b rest toggle done offset buf rd wr fin t d r in
      elim (Bool-cases (leb (length rest) 7)) [
        | inl s ↦ rw s (
            Delivered-end _ _ _ _ (x _ refl) (
              send-last fns v mem (asked b toggle done) rest r.offset r.buf r.rd r.wr r.fin r.ready
                w r.enough (ground arith) refl n l t))
        | inr s ↦
            let g = is_end fns v mem rest r.offset r.buf r.rd r.wr r.fin r.ready w r.enough in
            let q =
              Ready-Parted fns v mem rest r.offset r.buf r.rd r.wr r.fin r.ready (ground arith) in
            let z =
              send-more fns v mem (asked b toggle done) rest r.offset r.buf r.rd r.wr r.fin r.ready
                w r.enough (ground arith) refl n l q in
            let e = ap length (take-drop 7 rest) in
            let k : length (take 7 rest) ≡ 7 = length-take 7 rest (ground arith) in
            let m : 7 + length (drop 7 rest) ≡ length rest =
              omega (arith, e, k, length-append (take 7 rest) (drop 7 rest)) in
            rw s (
              Delivered-cons _ _ _ _ _ _ (x _ z) refl (
                sends fuel (asked b toggle done) (drop 7 rest) (flip toggle) (done + 7) r.offset
                  r.buf (r.rd + 7) r.wr r.fin q.ready o str w l (flip-IsToggle toggle t) d
                  (omega arith) (ground arith) (ground arith)))
      ]
