-- ===== src/SdoServer/Refusals.antt =====
-- The messages that the SDO server refuses in a segmented download.
use e_rob_canopen_node_demo.Base.{
  ℕ, ◌+◌, ◌-◌, ◌*◌, ◌/◌, ◌%◌, ◌<◌, ◌≡◌, ◌≢◌, subst, refl, inl, inr, bit_and, List, [], ◌∷◌, Bool,
  true, false, not, ◌&&◌, get_or, leb, ltb, ◌==◌, if◌then◌else◌, arith, u32, Bool-cases,
}
use e_rob_canopen_node_demo.Base.Bits.{all_below, all_below_sound}
use e_rob_canopen_node_demo.SdoServer.{
  Server, idle, abort, download_segment_req, Functions, receive, ab_cmd, ab_toggle_bit,
  ab_data_long,
}
use e_rob_canopen_node_demo.SdoServer.Requests.{on_message, dispatch, take_segment, gather}
use e_rob_canopen_node_demo.SdoServer.Process.{
  process, conclude, time_out, respond, send_abort, Answered, ended_with_server_abort,
}
use e_rob_canopen_node_demo.SdoServer.Channel.{exchange}
use e_rob_canopen_node_demo.SdoServer.Silence.{abort_message}

-- What is wrong with the first byte of a message that should be a segment, and with its length, as
-- the code of an abort; 0 for a segment that fits.
abbrev pub refusal : Server → List ℕ → ℕ
refusal s m =
    let c = get_or m 0 0 in
    let size = s.od_io.stream.data_length in
    if not (c / 32 % 8 == 0)
    then ab_cmd
    else if not (16 * (c / 16 % 2) == s.toggle)
    then ab_toggle_bit
    else if ltb 0 size && ltb size (s.size_tran + (7 - c / 2 % 8))
    then ab_data_long
    else 0

-- An abort of the object of the server, which leaves the variable alone.
pub record Refuses (s : Server) (code : ℕ) (a : Answered) : Type 0 where
  pub unchanged : a.server.memory ≡ s.memory
  pub is_ended : a.server.state ≡ idle
  pub returned : a.ret ≡ ended_with_server_abort
  pub told : a.events ≡ abort_message s code ∷ []

-- The masks of the code as divisions.
record Masks (c : ℕ) : Type 0 where
  kind : (bit_and c 0xE0 == 0) ≡ (c / 32 % 8 == 0)
  toggle : bit_and c 0x10 ≡ 16 * (c / 16 % 2)

abbrev is_masked : ℕ → Bool
is_masked c =
    ((if bit_and c 0xE0 == 0 then 1 else 0) == (if c / 32 % 8 == 0 then 1 else 0))
    && (bit_and c 0x10 == 16 * (c / 16 % 2))

all_masked : all_below 256 is_masked ≡ true
unfolding all_below
all_masked = refl

Masks-byte : (c : ℕ) → c < 256 → Masks c
Masks-byte c h =
    let e : is_masked c ≡ true = all_below_sound 256 is_masked c all_masked h in ground arith

module _ (fns : Functions) (s : Server) (m : List ℕ) where
  -- The server that expects a segment, and the message in it.
  abbrev expecting : Server
  expecting = record s { state = download_segment_req; valid = true; can_rx_new = false }

  abbrev heard : Server
  heard = record expecting { can_rx_data = m; can_rx_new = true }

  expecting-eq :
      s.state ≡ download_segment_req → s.valid ≡ true → s.can_rx_new ≡ false → expecting ≡ s
  expecting-eq st va rx = rw (← st, ← va, ← rx) refl

  -- A step that fails is followed by the abort message.
  refused-Refuses :
      (t : Server) (code : ℕ)
      → 0 < t.timeout_time_us
      → (get_or m 0 0 == 0x80) ≡ false
      → take_segment fns heard ≡ (record t { state = abort }, code)
      → t.memory ≡ s.memory
      → t.index ≡ s.index
      → t.sub_index ≡ s.sub_index
      → Refuses expecting code (exchange fns expecting m)
  unfolding exchange receive process conclude on_message dispatch time_out respond send_abort
  refused-Refuses t code d n e em ei es =
      let z : leb t.timeout_time_us 0 ≡ false = ground arith in
      let y : ltb 0 t.timeout_time_us ≡ true = ground arith in
      rw (n, e, y, z)
        (record { unchanged = em; is_ended = refl; returned = refl; told = rw (ei, es) refl })

  expecting-Refuses :
      0 < s.timeout_time_us
      → s.size_tran < 0xFFFFFFF0
      → get_or m 0 0 < 256
      → get_or m 0 0 ≢ 0x80
      → refusal s m ≢ 0
      → Refuses expecting (refusal s m) (exchange fns expecting m)
  unfolding take_segment gather
  expecting-Refuses d w b n r =
      let c : ℕ = get_or m 0 0 in
      let size : ℕ = s.od_io.stream.data_length in
      let k = Masks-byte c b in
      let no : (c == 0x80) ≡ false = ground arith in
      let t : Server = record heard { finished = not (bit_and c 0x01 == 0) } in
      elim (Bool-cases (c / 32 % 8 == 0)) [
        | inr e ↦ rw e (refused-Refuses heard ab_cmd d no (rw (k.kind, e) refl) refl refl refl)
        | inl e ↦ elim (Bool-cases (16 * (c / 16 % 2) == s.toggle)) [
          | inr f ↦
              rw (e, f)
                (refused-Refuses t ab_toggle_bit d no (rw (k.kind, k.toggle, e, f) refl) refl refl
                  refl)
          | inl f ↦
              let u : u32 (s.size_tran + (7 - c / 2 % 8)) ≡ s.size_tran + (7 - c / 2 % 8) =
                omega arith in
              elim (Bool-cases (ltb 0 size && ltb size (s.size_tran + (7 - c / 2 % 8)))) [
                | inr g ↦ absurd (r (rw (e, f, g) refl))
                | inl g ↦
                    rw (e, f, g)
                      (refused-Refuses (gather t) ab_data_long d no
                        (rw (k.kind, k.toggle, e, f, u, g) refl) refl refl refl)
              ]
        ]
      ]

-- A server that expects a segment of a download gets a message that is not the client's abort: where
-- the message is no segment, has the toggle bit of the segment before, or brings more bytes than the
-- variable has, the server answers with one message, the abort of its object with the code of the
-- first of these reasons, is idle, and has not changed a variable. The sizes are below 2^32 - 16.
pub exchange-Refuses :
    (fns : Functions) (s : Server) (m : List ℕ)
    → s.state ≡ download_segment_req
    → s.valid ≡ true
    → s.can_rx_new ≡ false
    → 0 < s.timeout_time_us
    → s.size_tran < 0xFFFFFFF0
    → get_or m 0 0 < 256
    → get_or m 0 0 ≢ 0x80
    → refusal s m ≢ 0
    → Refuses s (refusal s m) (exchange fns s m)
exchange-Refuses fns s m st va rx d w b n r =
    subst (λ x. Refuses x (refusal s m) (exchange fns x m)) (expecting-eq fns s m st va rx)
      (expecting-Refuses fns s m d w b n r)
