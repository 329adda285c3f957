-- ===== src/SdoServer/Channel.antt =====
-- The messages of an SDO client in a segmented download, and the server's answer to a message.
use e_rob_canopen_node_demo.Base.{
  ℕ, zero, suc, ◌+◌, ◌-◌, ◌*◌, ◌/◌, ◌%◌, ◌≤◌, ◌≡◌, ap, refl, ◌⊎◌, inl, inr, bit_and, bit_or, List,
  [], ◌∷◌, ◌++◌, get_or, Bool, true, false, not, ◌&&◌, length, take, drop, leb, ◌==◌, if◌then◌else◌,
  arith,
}
use e_rob_canopen_node_demo.Base.Bits.{all_below, all_below_sound}
use e_rob_canopen_node_demo.SdoServer.{Server, Functions, Event, sent, receive}
use e_rob_canopen_node_demo.SdoServer.Process.{flip, Answered, process, pad, bytes32}

-- A message that the server receives and processes at once.
unfoldable pub exchange : Functions → Server → List ℕ → Answered
exchange fns s bytes = process fns (receive s bytes 8).0 true 0 false

-- A segment of at most seven bytes.
abbrev pub command : ℕ → Bool → ℕ → ℕ
command toggle last count = toggle + 2 * (7 - count) + (if last then 1 else 0)

abbrev pub segment : ℕ → Bool → List ℕ → List ℕ
segment toggle last bytes = pad 8 (command toggle last (length bytes) ∷ bytes)

-- The segments of the data, with fuel for their number.
unfoldable pub segments : ℕ → ℕ → List ℕ → List (List ℕ)
segments zero toggle bytes = []
segments (suc fuel) toggle bytes =
    let rest = segments fuel (flip toggle) (drop 7 bytes) in
    if leb (length bytes) 7
    then segment toggle true bytes ∷ []
    else segment toggle false (take 7 bytes) ∷ rest

-- Messages one after another: the server behind them, and what it sends.
unfoldable pub deliver : Functions → Server → List (List ℕ) → Server × List Event
deliver fns s [] = (s, [])
deliver fns s (m ∷ messages) =
    let a = exchange fns s m in
    let rest = deliver fns a.server messages in (rest.0, a.events ++ rest.1)

pub deliver-cons :
    (fns : Functions) (s : Server) (m : List ℕ) (messages : List (List ℕ)) (a : Answered)
    → exchange fns s m ≡ a
    → deliver fns s (m ∷ messages)
      ≡ ((deliver fns a.server messages).0, a.events ++ (deliver fns a.server messages).1)
unfolding deliver
deliver-cons fns s m messages a e =
    ap
      (λ (x : Answered).
        ((deliver fns x.server messages).0, x.events ++ (deliver fns x.server messages).1))
      e

-- The confirmation of a segment.
abbrev pub confirmation : List ℕ → Event
confirmation m = sent (pad 8 (bit_or 0x20 (bit_and (get_or m 0 0) 0x10) ∷ []))

-- The request that announces a download of `size` bytes, and its confirmation.
abbrev pub initiate : ℕ → ℕ → ℕ → List ℕ
initiate index sub size = 0x21 ∷ index % 256 ∷ index / 256 % 256 ∷ sub ∷ bytes32 size

abbrev pub initiated : ℕ → ℕ → Event
initiated index sub = sent (0x60 ∷ index % 256 ∷ index / 256 % 256 ∷ sub ∷ bytes32 0)

-- What the server reads out of the first byte of a segment.
pub record Read (toggle count : ℕ) (last : Bool) : Type 0 where
  pub kind : bit_and (command toggle last count) 0xE0 ≡ 0
  pub same : bit_and (command toggle last count) 0x10 ≡ toggle
  pub end : (bit_and (command toggle last count) 0x01 == 0) ≡ not last
  pub size : 7 - command toggle last count / 2 % 8 ≡ count
  pub other : (command toggle last count == 0x80) ≡ false

abbrev pub IsToggle : ℕ → Type 0
IsToggle toggle = (toggle ≡ 0) ⊎ (toggle ≡ 0x10)

abbrev is_read : ℕ → Bool → ℕ → Bool
is_read toggle last count =
    (bit_and (command toggle last count) 0xE0 == 0)
    && (bit_and (command toggle last count) 0x10 == toggle)
    && ((if bit_and (command toggle last count) 0x01 == 0 then 0 else 1) == (if last then 1 else 0))
    && (7 - command toggle last count / 2 % 8 == count)
    && not (command toggle last count == 0x80)

Read-checked :
    (toggle count : ℕ) (last : Bool) → is_read toggle last count ≡ true → Read toggle count last
Read-checked toggle count last h = ground arith

all_read : (toggle : ℕ) (last : Bool) → IsToggle toggle → all_below 8 (is_read toggle last) ≡ true
unfolding all_below
all_read toggle true (inl e) = rw e refl
all_read toggle true (inr e) = rw e refl
all_read toggle false (inl e) = rw e refl
all_read toggle false (inr e) = rw e refl

pub Read-command :
    (toggle count : ℕ) (last : Bool) → IsToggle toggle → count ≤ 7 → Read toggle count last
Read-command toggle count last t c =
    Read-checked toggle count last
      (all_below_sound 8 (is_read toggle last) count (all_read toggle last t) (omega arith))
