-- ===== src/PpMode/Answers.antt =====
-- The answer that the SDO client of example/pp_mode_control.c takes out of the frames it hears.
use e_rob_canopen_node_demo.Base.{
  ℕ, ◌+◌, ◌/◌, ◌%◌, ◌<◌, ◌≡◌, refl, ap, ◌∙◌, bit_and, List, [], ◌∷◌, ◌++◌, Bool, true, false, some,
  arith, ◌==◌, if◌then◌else◌,
}
use e_rob_canopen_node_demo.PpMode.{
  App, Frame, answered, Link, hears, sent, did_read, kind, payload, next_link, receive_sdo_response,
  hear, await, request, read_sdo, value_of,
}

-- A frame that is no SDO answer of the motor: of another node, or of another kind.
abbrev pub is_foreign : ℕ → Frame → Bool
is_foreign motor f =
    if f.can_id == 0x580 + motor
    then if kind f == 0x40
      then false
      else if kind f == 0x60
      then false
      else if kind f == 0x80
      then false
      else true
    else true

abbrev pub AllForeign : ℕ → List Frame → Type 0
AllForeign motor [] = Unit {0}
AllForeign motor (f ∷ frames) = (is_foreign motor f ≡ true) × AllForeign motor frames

-- The bytes of an answer that carries a value, behind its command byte and the index.
abbrev pub upload_response : ℕ → ℕ → ℕ → ℕ → Frame
upload_response motor command index v = record {
  can_id = 0x580 + motor;
  bytes =
      command
      ∷ index % 256
      ∷ index / 256 % 256
      ∷ 0
      ∷ v % 256
      ∷ v / 256 % 256
      ∷ v / 65536 % 256
      ∷ v / 16777216 % 256
      ∷ [];
}

receive_skips_one :
    (motor : ℕ) (f : Frame) (frames : List Frame)
    → is_foreign motor f ≡ true
    → receive_sdo_response motor (f ∷ frames) ≡ receive_sdo_response motor frames
unfolding receive_sdo_response
receive_skips_one motor f frames h = ground arith

receive_skips :
    (motor : ℕ) (before frames : List Frame)
    → AllForeign motor before
    → receive_sdo_response motor (before ++ frames) ≡ receive_sdo_response motor frames
receive_skips motor [] frames h = refl
receive_skips motor (f ∷ before) frames h =
    receive_skips_one motor f (before ++ frames) h.0 ∙ receive_skips motor before frames h.1

eq_self : (n : ℕ) → (n == n) ≡ true
eq_self n = ground arith

receive_takes :
    (motor command index v : ℕ) (frames : List Frame)
    → bit_and command 0xE0 ≡ 0x40
    → v < 0x100000000
    → receive_sdo_response motor (upload_response motor command index v ∷ frames)
      ≡ (answered v, frames)
unfolding receive_sdo_response
receive_takes motor command index v frames c b =
    let p : payload (upload_response motor command index v) ≡ v = omega arith in
    rw (eq_self (0x580 + motor), c, p) refl

-- Where the frames before it are of other nodes or no answers, the answer of the motor gives its value
-- to `read_sdo`, and the frames behind it stay for the next request. The value is any of 32 bits,
-- and the index in the answer is not looked at.
pub read_sdo_gets :
    (s : App) (i index command v : ℕ) (before behind : List Frame) (links : List Link)
    → AllForeign s.current_motor_id s.inbox
    → AllForeign s.current_motor_id before
    → s.links
      ≡ hears (before ++ upload_response s.current_motor_id command index v ∷ behind) ∷ links
    → bit_and command 0xE0 ≡ 0x40
    → v < 0x100000000
    → read_sdo i s ≡ (
      some v,
      record s { inbox = behind; links = links },
      sent (request s i 0 0 false) ∷ did_read i (some v) ∷ [],
    )
unfolding read_sdo await hear
read_sdo_gets s i index command v before behind links fi fb l c b =
    let motor = s.current_motor_id in
    let answer = upload_response motor command index v ∷ behind in
    let r : receive_sdo_response motor (s.inbox ++ (before ++ answer)) ≡ (answered v, behind) =
      receive_skips motor s.inbox (before ++ answer) fi
      ∙ receive_skips motor before answer fb
      ∙ receive_takes motor command index v behind c b in
    let q : hear motor s.inbox (next_link s.links).0 ≡ (some v, behind) =
      ap (λ x. hear motor s.inbox (next_link x).0) l ∙ ap (λ a. (value_of a.0, a.1)) r in
    let frame = request s i 0 0 false in
    ap
      (λ a. (
        a.0,
        record s { inbox = a.1; links = (next_link s.links).1 },
        sent frame ∷ did_read i a.0 ∷ [],
      ))
      q
    ∙ ap
        (λ x. (
          some v,
          record s { inbox = behind; links = (next_link x).1 },
          sent frame ∷ did_read i (some v) ∷ [],
        ))
        l
