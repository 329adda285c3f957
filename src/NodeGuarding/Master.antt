-- ===== src/NodeGuarding/Master.antt =====
-- 301/CO_Node_Guarding.c: the node guarding master.
use e_rob_canopen_node_demo.Base.{
  ℕ, ◌+◌, ◌-◌, ◌*◌, bit_and, List, [], ◌∷◌, ◌++◌, Bool, true, false, not, ◌&&◌, get_or, ltb, ◌==◌,
  if◌then◌else◌, min,
}
use e_rob_canopen_node_demo.NodeGuarding.{Event, can_id_heartbeat, requested, reported, cleared}

-- `CO_nodeGuardingMasterNode_t`; the state CO_NMT_UNKNOWN, -1 in the code, is none of a byte: 255.
pub record Node : Type 0 where
  pub guard_time_us : ℕ
  pub guard_timer : ℕ
  pub ident : ℕ
  pub nmt_state : ℕ
  pub toggle : ℕ
  pub response_received : Bool
  pub can_tx_was_busy : Bool
  pub monitoring_active : Bool

abbrev pub nmt_unknown : ℕ
nmt_unknown = 255

abbrev pub nmt_operational : ℕ
nmt_operational = 5

-- `CO_nodeGuardingMaster_t`
pub record Master : Type 0 where
  pub nodes : List Node
  pub all_monitored_active : Bool
  pub all_monitored_operational : Bool

-- The node that `CO_nodeGuardingMaster_initNode` leaves, for a node-ID from 1 to 127.
abbrev pub init_node : ℕ → ℕ → Node
init_node node_id guard_time_ms = record {
  guard_time_us = guard_time_ms * 1000;
  guard_timer = 0;
  ident = can_id_heartbeat + node_id;
  nmt_state = nmt_unknown;
  toggle = 0;
  response_received = true;
  can_tx_was_busy = false;
  monitoring_active = false;
}

-- An answer, at the node that it comes from.
unfoldable pub accept : Node → ℕ → Node
accept n byte =
    let toggle = bit_and byte 0x80 in
    if toggle == n.toggle
    then record n {
      response_received = true;
      nmt_state = bit_and byte 0x7F;
      toggle = if toggle == 0 then 0x80 else 0;
    }
    else n

-- `CO_ngm_receive`: the first node with the identifier.
unfoldable pub receive_node : List Node → ℕ → ℕ → List Node
receive_node [] ident byte = []
receive_node (n ∷ nodes) ident byte =
    if ident == n.ident then accept n byte ∷ nodes else n ∷ receive_node nodes ident byte

unfoldable pub receive : Master → ℕ → List ℕ → ℕ → Master
receive m ident bytes dlc =
    if dlc == 1 then record m { nodes = receive_node m.nodes ident (get_or bytes 0 0) } else m

-- The check of the last answer, before the next request.
unfoldable pub verify : Node → Node × List Event
verify n =
    if n.can_tx_was_busy
    then (n, [])
    else if not n.response_received
    then (record n { monitoring_active = false }, reported (bit_and n.ident 0x7F) ∷ [])
    else if not (n.nmt_state == nmt_unknown)
    then (record n { monitoring_active = true }, cleared (bit_and n.ident 0x7F) ∷ [])
    else (n, [])

-- The next request, where the transmit buffer is free.
unfoldable pub request : Node → Bool → Node × List Event
request n buffer_full =
    if buffer_full then (record n { guard_timer = 0; can_tx_was_busy = true }, []) else (
      record n {
        can_tx_was_busy = false;
        response_received = false;
        guard_timer = n.guard_time_us;
      },
      requested n.ident ∷ [],
    )

abbrev pub is_enabled : Node → Bool
is_enabled n = ltb 0 n.guard_time_us && ltb can_id_heartbeat n.ident

-- The part of `CO_nodeGuardingMaster_process` for a node; `buffer_full` is the flag of the transmit
-- buffer at that place.
unfoldable pub process_node : Node → ℕ → Bool → Node × List Event
process_node n dt buffer_full =
    let v = verify n in
    let r = request v.0 buffer_full in
    if not (is_enabled n)
    then (n, [])
    else if ltb dt n.guard_timer
    then (record n { guard_timer = n.guard_timer - dt }, [])
    else (r.0, v.1 ++ r.1)

-- The nodes in turn, from place `i` on, with the two flags so far.
unfoldable pub process_nodes : List Node → ℕ → ℕ → (ℕ → Bool) → Bool → Bool → Master × List Event
process_nodes [] i dt full active operational = (
  record { nodes = []; all_monitored_active = active; all_monitored_operational = operational },
  [],
)
process_nodes (n ∷ nodes) i dt full active operational =
    let r = process_node n dt (full i) in
    let counts = is_enabled n && active in
    let on = r.0.monitoring_active in
    let rest =
      process_nodes nodes (i + 1) dt full (if counts then on else active)
        (if counts then operational && on && (r.0.nmt_state == nmt_operational) else operational) in
    (record rest.0 { nodes = r.0 ∷ rest.0.nodes }, r.1 ++ rest.1)

-- `CO_nodeGuardingMaster_process`; `full` is the flag of the transmit buffer at each node.
unfoldable pub process : Master → ℕ → (ℕ → Bool) → Master × List Event
process m dt full = process_nodes m.nodes 0 dt full true true

-- `*timerNext_us` after the call: not later than the end of the guard time of any node.
unfoldable pub timer_next : List Node → ℕ → ℕ → ℕ
timer_next [] dt next = next
timer_next (n ∷ nodes) dt next =
    timer_next nodes dt
      (if is_enabled n && ltb dt n.guard_timer then min next (n.guard_timer - dt) else next)
