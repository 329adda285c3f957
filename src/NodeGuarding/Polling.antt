-- ===== src/NodeGuarding/Polling.antt =====
-- A master and a slave over a bus that delivers the requests and the answers at once.
use e_rob_canopen_node_demo.Base.{
  ℕ, ◌-◌, ◌≤◌, ◌<◌, ◌≡◌, refl, ap, ◌⊎◌, inl, inr, bit_and, bit_or, List, [], ◌∷◌, ◌++◌, Bool, true,
  false, not, ◌&&◌, ltb, ◌==◌, if◌then◌else◌, arith, Bool-cases,
}
use e_rob_canopen_node_demo.Base.Bits.{all_below, all_below_sound}
use e_rob_canopen_node_demo.NodeGuarding.{Event, answered, requested, reported, cleared}
use e_rob_canopen_node_demo.NodeGuarding.Slave
use e_rob_canopen_node_demo.NodeGuarding.Slave.{Slave}
use e_rob_canopen_node_demo.NodeGuarding.Master
use e_rob_canopen_node_demo.NodeGuarding.Master.{
  Node, accept, receive_node, verify, request, process_node, is_enabled,
}

abbrev is_requested : List Event → Bool
is_requested [] = false
is_requested (requested ident ∷ events) = true
is_requested (e ∷ events) = is_requested events

abbrev byte_of : List Event → ℕ
byte_of (answered byte ∷ events) = byte
byte_of events = 0

-- The calls of both objects after `dt` microseconds, with the slave in the given NMT state.
pub record Pair : Type 0 where
  pub node : Node
  pub slave : Slave
  pub events : List Event

unfoldable pub poll : Node → Slave → ℕ → ℕ → Pair
poll n s nmt_state dt =
    let m = process_node n dt false in
    let a = Slave.process (Slave.receive s) nmt_state false dt in
    let w = Slave.process s nmt_state false dt in
    if is_requested m.1
    then record { node = accept m.0 (byte_of a.1); slave = a.0; events = m.1 ++ a.1 }
    else record { node = m.0; slave = w.0; events = m.1 ++ w.1 }

unfoldable pub is_quiet : List Event → Bool
is_quiet [] = true
is_quiet (reported info ∷ events) = false
is_quiet (e ∷ events) = is_quiet events

abbrev is_coded : ℕ → Bool
is_coded state =
    (bit_and state 0x80 == 0)
    && (bit_and (bit_or state 0x80) 0x80 == 0x80)
    && (bit_and (bit_or state 0x80) 0x7F == state)
    && (bit_and state 0x7F == state)

all_coded : all_below 128 is_coded ≡ true
unfolding all_below
all_coded = refl

record Coded (state : ℕ) : Type 0 where
  clear : bit_and state 0x80 ≡ 0
  marked : bit_and (bit_or state 0x80) 0x80 ≡ 0x80
  behind : bit_and (bit_or state 0x80) 0x7F ≡ state
  same : bit_and state 0x7F ≡ state

Coded-below : (state : ℕ) → state < 128 → Coded state
Coded-below state h =
    let e : is_coded state ≡ true = all_below_sound 128 is_coded state all_coded h in ground arith

process_node-waits :
    (n : Node) (dt : ℕ) (full : Bool)
    → is_enabled n ≡ true
    → dt < n.guard_timer
    → process_node n dt full ≡ (record n { guard_timer = n.guard_timer - dt }, [])
unfolding process_node
process_node-waits n dt full e l =
    let h : ltb dt n.guard_timer ≡ true = ground arith in rw (e, h) refl

abbrev pub is_known : Node → Bool
is_known n = not (n.nmt_state == Master.nmt_unknown)

abbrev pub asking : Node → Bool → Node
asking n known = record n {
  monitoring_active = if known then true else n.monitoring_active;
  can_tx_was_busy = false;
  response_received = false;
  guard_timer = n.guard_time_us;
}

abbrev pub asks : Node → Bool → List Event
asks n true = cleared (bit_and n.ident 0x7F) ∷ requested n.ident ∷ []
asks n false = requested n.ident ∷ []

process_node-asks :
    (n : Node) (dt : ℕ)
    → is_enabled n ≡ true
    → n.guard_timer ≤ dt
    → n.response_received ≡ true
    → n.can_tx_was_busy ≡ false
    → process_node n dt false ≡ (asking n (is_known n), asks n (is_known n))
unfolding process_node verify request
process_node-asks n dt e l r b =
    let h : ltb dt n.guard_timer ≡ false = ground arith in
    elim (Bool-cases (is_known n)) [
      | inl k ↦ rw (e, h, r, b, k) refl
      | inr k ↦ rw (e, h, r, b, k) refl
    ]

-- The answer is the one that the master accepts.
accept-answer :
    (n : Node) (state : ℕ) (toggle : Bool)
    → n.toggle ≡ (if toggle then 0x80 else 0)
    → state < 128
    → accept n (if toggle then bit_or state 0x80 else state) ≡ record n {
      response_received = true;
      nmt_state = state;
      toggle = if toggle then 0 else 0x80;
    }
unfolding accept
accept-answer n state true e h = let c = Coded-below state h in rw (e, c.marked, c.behind) refl
accept-answer n state false e h = let c = Coded-below state h in rw (e, c.clear, c.same) refl

abbrev answering : Slave → Slave
answering s = record s {
  life_timer = s.life_time_us;
  toggle = not s.toggle;
  life_time_timeout = false;
  can_rx_new = false;
}

pub poll-asks :
    (n : Node) (s : Slave) (state dt : ℕ)
    → is_enabled n ≡ true
    → n.guard_timer ≤ dt
    → n.response_received ≡ true
    → n.can_tx_was_busy ≡ false
    → n.toggle ≡ (if s.toggle then 0x80 else 0)
    → s.life_time_timeout ≡ false
    → state < 128
    → poll n s state dt ≡ record {
      node = record (asking n (is_known n)) {
        response_received = true;
        nmt_state = state;
        toggle = if s.toggle then 0 else 0x80;
      };
      slave = answering s;
      events =
          asks n (is_known n) ++ (answered (if s.toggle then bit_or state 0x80 else state) ∷ []);
    }
unfolding poll Slave.process Slave.answer
poll-asks n s state dt e l r b t a h = elim (Bool-cases (is_known n)) [
  | inl k ↦
      rw (process_node-asks n dt e l r b, k, a)
        (ap
          (λ (x : Node). record {
            node = x;
            slave = answering s;
            events = asks n true ++ (answered (if s.toggle then bit_or state 0x80 else state) ∷ []);
          })
          (accept-answer (asking n true) state s.toggle t h))
  | inr k ↦
      rw (process_node-asks n dt e l r b, k, a)
        (ap
          (λ (x : Node). record {
            node = x;
            slave = answering s;
            events =
                asks n false ++ (answered (if s.toggle then bit_or state 0x80 else state) ∷ []);
          })
          (accept-answer (asking n false) state s.toggle t h))
]

pub poll-waits :
    (n : Node) (s : Slave) (state dt : ℕ)
    → is_enabled n ≡ true
    → dt < n.guard_timer
    → s.can_rx_new ≡ false
    → (s.life_timer ≡ 0) ⊎ (dt < s.life_timer)
    → poll n s state dt ≡ record {
      node = record n { guard_timer = n.guard_timer - dt };
      slave = record s { life_timer = s.life_timer - dt };
      events = [];
    }
unfolding poll Slave.process Slave.watch
poll-waits n s state dt e l r (inl z) =
    let y : 0 - dt ≡ 0 = omega arith in rw (process_node-waits n dt false e l, r, z) (rw y refl)
poll-waits n s state dt e l r (inr z) =
    let y : ltb dt s.life_timer ≡ true = ground arith in
    let x : ltb 0 s.life_timer ≡ true = ground arith in
    rw (process_node-waits n dt false e l, r, y, x) refl
