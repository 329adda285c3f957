-- ===== src/SdoServer/Download.antt =====
-- A segmented download: the server puts the bytes of the segments into the variable.
use e_rob_canopen_node_demo.Base.{
  ℕ, zero, suc, ◌+◌, ◌≤◌, ◌<◌, ◌≡◌, refl, ap, ◌∙◌, inl, inr, bit_and, List, [], ◌∷◌, ◌++◌, map,
  true, false, length, length-append, take, drop, leb, ltb, arith, Bool-cases,
}
use e_rob_canopen_node_demo.Od.{Memory, splice}
use e_rob_canopen_node_demo.Od.Splices.{take-drop, length-take}
use e_rob_canopen_node_demo.SdoServer.{Server, idle, Functions, Event, receive}
use e_rob_canopen_node_demo.SdoServer.Requests.{on_message, dispatch, take_segment}
use e_rob_canopen_node_demo.SdoServer.Process.{
  flip, process, conclude, time_out, respond, answer_segment, send_abort, waiting_response,
  ok_communication_end,
}
use e_rob_canopen_node_demo.SdoServer.Channel.{
  exchange, segment, segments, deliver, confirmation, Read-command, IsToggle,
}
use e_rob_canopen_node_demo.SdoServer.Segments.{Variable, filling, settled, IsIndicated}
use e_rob_canopen_node_demo.SdoServer.Settling.{
  take_segment-eq, settle_keeps, settle_flushes, settle_last,
}
use e_rob_canopen_node_demo.SdoServer.Parts.{
  Filled, Filled-keeps, Filled-flushes, gathered, written,
}

-- A server that takes the next message, with the dictionary and the timeout of another.
pub record Resting (s t : Server) : Type 0 where
  pub is_valid : t.valid ≡ true
  pub is_free : t.can_rx_new ≡ false
  pub same_od : t.od ≡ s.od
  pub same_time : t.timeout_time_us ≡ s.timeout_time_us

-- A download that is complete: the data is in the variable, and every segment is confirmed.
pub record Complete (memory : Memory) (messages : List (List ℕ)) (s : Server)
    (out : Server × List Event) : Type 0 where
  pub resting : Resting s out.0
  pub stored : out.0.memory ≡ memory
  pub is_done : out.0.state ≡ idle
  pub confirmed : out.1 ≡ map confirmation messages

pub flip-IsToggle : (toggle : ℕ) → IsToggle toggle → IsToggle (flip toggle)
flip-IsToggle toggle (inl e) = inr (rw e refl)
flip-IsToggle toggle (inr e) = inl (rw e refl)

module _ (fns : Functions) (v : Variable) where
  exchange-segment :
      (b : Server) (mem mem' : Memory) (offset held offset' tran held' toggle size_ind : ℕ)
      (buf buf' bytes : List ℕ)
      → IsToggle toggle
      → length bytes ≤ 7
      → 0 < b.timeout_time_us
      → tran ≡ offset' + held'
      → take_segment fns (record (filling v b mem offset buf held toggle size_ind) {
        can_rx_data = segment toggle false bytes;
        can_rx_new = true;
      })
        ≡ (settled v b mem' offset' buf' tran held' toggle size_ind false bytes, 0)
      → exchange fns (filling v b mem offset buf held toggle size_ind) (segment toggle false bytes)
        ≡ record {
          server =
              filling v
                (record b {
                  can_rx_data = segment toggle false bytes;
                  finished = false;
                  timeout_timer = 0;
                })
                mem'
                offset'
                buf'
                held'
                (flip toggle)
                size_ind;
          code = 0;
          ret = waiting_response;
          events = confirmation (segment toggle false bytes) ∷ [];
        }
  unfolding exchange receive process conclude on_message dispatch time_out respond answer_segment
      send_abort
  exchange-segment b mem mem' offset held offset' tran held' toggle size_ind buf buf' bytes t c w n
        e =
      let r = Read-command toggle (length bytes) false t c in
      let z : leb b.timeout_time_us 0 ≡ false = ground arith in
      let y : ltb 0 b.timeout_time_us ≡ true = ground arith in rw (r.other, e, y, z, r.same, n) refl

  exchange-last :
      (b : Server) (mem mem' : Memory) (offset held offset' tran held' toggle size_ind : ℕ)
      (buf buf' bytes : List ℕ)
      → IsToggle toggle
      → length bytes ≤ 7
      → 0 < b.timeout_time_us
      → take_segment fns (record (filling v b mem offset buf held toggle size_ind) {
        can_rx_data = segment toggle true bytes;
        can_rx_new = true;
      })
        ≡ (settled v b mem' offset' buf' tran held' toggle size_ind true bytes, 0)
      → let a =
          exchange fns
            (filling v b mem offset buf held toggle size_ind)
            (segment toggle true bytes) in
        (a.server.memory ≡ mem')
        × (a.server.state ≡ idle)
        × Resting b a.server
        × (a.code ≡ 0)
        × (a.ret ≡ ok_communication_end)
        × (a.events ≡ confirmation (segment toggle true bytes) ∷ [])
  unfolding exchange receive process conclude on_message dispatch time_out respond answer_segment
      send_abort
  exchange-last b mem mem' offset held offset' tran held' toggle size_ind buf buf' bytes t c w e =
      let r = Read-command toggle (length bytes) true t c in
      let z : leb b.timeout_time_us 0 ≡ false = ground arith in
      let y : ltb 0 b.timeout_time_us ≡ true = ground arith in
      rw (r.other, e, y, z, r.same)
        (
          refl,
          refl,
          record { is_valid = refl; is_free = refl; same_od = refl; same_time = refl },
          refl,
          refl,
          refl,
        )

  module _ (mem : Memory) (whole : List ℕ) (size_ind : ℕ) where
    -- The last segment completes the download.
    ends :
        (b : Server) (stored held rest : List ℕ) (now : Memory) (offset h toggle : ℕ) (buf : List ℕ)
        → Filled v mem whole stored held rest now offset h buf
        → length whole ≡ v.size
        → v.size < 0x100000000
        → v.orig ≤ length mem
        → IsIndicated v size_ind
        → bit_and v.attribute 0x80 ≡ 0
        → 0 < b.timeout_time_us
        → IsToggle toggle
        → 0 < length rest
        → length rest ≤ 7
        → Complete
            (splice mem v.orig whole)
            (segment toggle true rest ∷ [])
            (filling v b now offset buf h toggle size_ind)
            (deliver fns
              (filling v b now offset buf h toggle size_ind)
              (segment toggle true rest ∷ []))
    unfolding deliver
    ends b stored held rest now offset h toggle buf f l w p i a d t r c =
        let n : offset + h + length rest ≡ v.size = omega (
          arith,
          f.count,
          f.pending,
          ap length f.total,
          length-append stored (held ++ rest),
          length-append held rest,
          l,
        ) in
        let m : length (held ++ rest) ≡ h + length rest =
          omega (arith, f.pending, length-append held rest) in
        let e =
          take_segment-eq fns v b now offset h toggle size_ind buf rest true t c (omega arith) w
          ∙ settle_last fns v b now offset h toggle size_ind buf rest (held ++ rest) m
              (gathered v mem whole stored held rest now offset h buf rest [] f) (omega arith)
              (omega arith) i a in
        let x = exchange-last b now _ offset h 0 _ 0 toggle size_ind buf _ rest t c d e in
        record {
          stored =
              x.0
              ∙ written v mem whole stored held rest now offset h buf rest [] f p
              ∙ ap (splice mem v.orig) f.total;
          is_done = x.1;
          resting = record {
            is_valid = x.2.is_valid;
            is_free = x.2.is_free;
            same_od = x.2.same_od;
            same_time = x.2.same_time;
          };
          confirmed = ap (λ es. es ++ []) x.5;
        }

    abbrev Completes : Server → List (List ℕ) → Type 0
    Completes s messages = Complete (splice mem v.orig whole) messages s (deliver fns s messages)

    then-Completes :
        (s : Server) (m : List ℕ) (messages : List (List ℕ)) (next : Server)
        → exchange fns s m
          ≡ record { server = next; code = 0; ret = waiting_response; events = confirmation m ∷ [] }
        → next.od ≡ s.od
        → next.timeout_time_us ≡ s.timeout_time_us
        → Completes next messages
        → Completes s (m ∷ messages)
    unfolding deliver
    then-Completes s m messages next e od time c = record {
      resting = rw e (record {
        is_valid = c.resting.is_valid;
        is_free = c.resting.is_free;
        same_od = c.resting.same_od ∙ od;
        same_time = c.resting.same_time ∙ time;
      });
      stored = rw e c.stored;
      is_done = rw e c.is_done;
      confirmed = rw e (ap (λ es. confirmation m ∷ es) c.confirmed);
    }

    pub fills :
        (fuel : ℕ) (b : Server) (stored held rest : List ℕ) (now : Memory) (offset h toggle : ℕ)
        (buf : List ℕ)
        → Filled v mem whole stored held rest now offset h buf
        → length whole ≡ v.size
        → v.size < 0x100000000
        → v.orig ≤ length mem
        → IsIndicated v size_ind
        → bit_and v.attribute 0x80 ≡ 0
        → 0 < b.timeout_time_us
        → IsToggle toggle
        → 0 < length rest
        → length rest ≤ fuel
        → Completes (filling v b now offset buf h toggle size_ind) (segments fuel toggle rest)
    unfolding segments
    fills zero b stored held rest now offset h toggle buf f l w p i a d t r c = absurd (omega arith)
    fills (suc fuel) b stored held rest now offset h toggle buf f l w p i a d t r c =
        elim (Bool-cases (leb (length rest) 7)) [
          | inl s ↦
              rw s
                (ends b stored held rest now offset h toggle buf f l w p i a d t r (ground arith))
          | inr s ↦
              let bytes : List ℕ = take 7 rest in
              let rest' : List ℕ = drop 7 rest in
              let long : 7 < length rest = ground arith in
              let e : bytes ++ rest' ≡ rest = take-drop 7 rest in
              let k : length bytes ≡ 7 = length-take 7 rest (omega arith) in
              let k' : 7 + length rest' ≡ length rest =
                omega (arith, k, ap length e, length-append bytes rest') in
              let n : offset + h + length rest ≡ v.size = omega (
                arith,
                f.count,
                f.pending,
                ap length f.total,
                length-append stored (held ++ rest),
                length-append held rest,
                l,
              ) in
              let m : length (held ++ bytes) ≡ h + length bytes =
                omega (arith, f.pending, length-append held bytes) in
              let b' : Server = record b {
                can_rx_data = segment toggle false bytes;
                finished = false;
                timeout_timer = 0;
              } in
              let z =
                take_segment-eq fns v b now offset h toggle size_ind buf bytes false t (omega arith)
                  (omega arith) w in
              rw s (elim (Bool-cases (leb (h + length bytes) 23)) [
                | inl q ↦
                    then-Completes _ _ _ _
                      (exchange-segment b now now offset h offset _ (h + length bytes) toggle
                        size_ind buf _ bytes t (omega arith) d refl
                        (z
                          ∙ settle_keeps fns v b now offset h toggle size_ind buf bytes
                              (ground arith)))
                      refl refl
                      (fills fuel b' stored (held ++ bytes) rest' now offset (h + length bytes)
                        (flip toggle) (splice buf h bytes)
                        (Filled-keeps v mem whole stored held rest now offset h buf bytes rest' f e
                          (ground arith))
                        l w p i a d (flip-IsToggle toggle t) (omega arith) (omega arith))
                | inr q ↦
                    then-Completes _ _ _ _
                      (exchange-segment b now _ offset h (offset + length (held ++ bytes)) _ 0
                        toggle size_ind buf _ bytes t (omega arith) d (omega arith)
                        (z
                          ∙ settle_flushes fns v b now offset h toggle size_ind buf bytes
                              (held ++ bytes) (ground arith) (omega (arith, f.room)) m
                              (gathered v mem whole stored held rest now offset h buf bytes rest' f)
                              (omega arith) i))
                      refl refl
                      (fills fuel b' (stored ++ (held ++ bytes)) [] rest' _
                        (offset + length (held ++ bytes)) 0 (flip toggle) (splice buf h bytes)
                        (Filled-flushes v mem whole stored held rest now offset h buf bytes rest' f
                          e p)
                        l w p i a d (flip-IsToggle toggle t) (omega arith) (omega arith))
              ])
        ]
