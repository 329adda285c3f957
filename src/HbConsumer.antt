-- ===== src/HbConsumer.antt =====
-- 301/CO_HBconsumer.c and 301/CO_HBconsumer.h: the heartbeat consumer, with the callbacks of
-- CO_CONFIG_HB_CONS_CALLBACK_MULTI. An NMT state is the received byte, or `none` for
-- CO_NMT_UNKNOWN. `CO_CANrxBufferInit` is the driver's: its identifier is a result here.
pub mod Entries
pub mod Alive
pub mod Activity
pub mod Timeout
mod Tests
use e_rob_canopen_node_demo.Base.{
  ℕ, zero, suc, ◌+◌, ◌-◌, ◌*◌, ◌/◌, ◌%◌, List, [], ◌∷◌, ◌++◌, Bool, true, false, not, ◌&&◌, ◌||◌,
  Option, none, some, get_or, get_elem?, set, length, ltb, leb, ◌==◌, if◌then◌else◌, u8, u16, u32,
  add32,
}
use e_rob_canopen_node_demo.Od.{Odr}
use e_rob_canopen_node_demo.Emergency.{Em, error}

-- `CO_HBconsumer_state_t`
pub data HbState : Type 0 where
  unconfigured unknown active timeout : HbState

abbrev pub is_active : HbState → Bool
is_active unconfigured = false
is_active unknown = false
is_active active = true
is_active timeout = false

abbrev pub is_unconfigured : HbState → Bool
is_unconfigured unconfigured = true
is_unconfigured unknown = false
is_unconfigured active = false
is_unconfigured timeout = false

-- `CO_HBconsNode_t`
pub record Node : Type 0 where
  pub node_id : ℕ
  pub nmt_state : Option ℕ
  pub hb_state : HbState
  pub timeout_timer : ℕ
  pub time_us : ℕ
  pub can_rx_new : Bool
  pub nmt_state_prev : Option ℕ

-- `CO_HBconsumer_t`
pub record HbCons : Type 0 where
  pub em : Em
  pub monitored_nodes : List Node
  pub all_monitored_active : Bool
  pub all_monitored_operational : Bool
  pub nmt_is_pre_or_operational_prev : Bool

-- Calls of the callbacks for a node, named by its index.
pub data Event : Type 0 where
  remote_reset hb_started timed_out : ℕ → Event
  nmt_changed : ℕ → Option ℕ → Event

-- `CO_HBcons_receive`
unfoldable pub receive : Node → List ℕ → ℕ → Node
receive node bytes dlc =
    if dlc == 1
    then record node { nmt_state = some (get_or bytes 0 0); can_rx_new = true }
    else node

abbrev pub nmt_operational : ℕ
nmt_operational = 5

abbrev pub same_nmt : Option ℕ → Option ℕ → Bool
same_nmt none none = true
same_nmt none (some b) = false
same_nmt (some a) none = false
same_nmt (some a) (some b) = a == b

-- The received message: the node, the time that counts against its timeout, the calls, and whether
-- an active node has been reset.
pub record Heard : Type 0 where
  pub node : Node
  pub dt : ℕ
  pub events : List Event
  pub reset_error : Bool

unfoldable pub hear : ℕ → ℕ → Node → Heard
hear i dt node =
    if node.can_rx_new
    then if same_nmt node.nmt_state (some 0)
      then record {
        node = record node { hb_state = unknown; can_rx_new = false };
        dt = dt;
        events = remote_reset i ∷ [];
        reset_error = is_active node.hb_state;
      }
      else record {
        node = record node { hb_state = active; timeout_timer = 0; can_rx_new = false };
        dt = 0;
        events = if is_active node.hb_state then [] else hb_started i ∷ [];
        reset_error = false;
      }
    else record { node = node; dt = dt; events = []; reset_error = false }

-- The timeout of one node: the node, whether it expired, and `*timerNext_us`.
pub record Watched : Type 0 where
  pub node : Node
  pub expired : Bool
  pub timer_next : ℕ

unfoldable pub watch : Node → ℕ → ℕ → Watched
watch node dt timer_next =
    let timer = add32 node.timeout_timer dt in
    if is_active node.hb_state
    then if leb node.time_us timer
      then record {
        node = record node { timeout_timer = timer; nmt_state = none; hb_state = timeout };
        expired = true;
        timer_next = timer_next;
      }
      else record {
        node = record node { timeout_timer = timer };
        expired = false;
        timer_next =
            if ltb (node.time_us - timer) timer_next then node.time_us - timer else timer_next;
      }
    else record { node = node; expired = false; timer_next = timer_next }

-- What the loop carries: the two flags, the emergency object, the calls, `*timerNext_us`.
pub record Loop : Type 0 where
  pub nodes : List Node
  pub em : Em
  pub active : Bool
  pub operational : Bool
  pub events : List Event
  pub timer_next : ℕ

abbrev error_if : Bool → ℕ → ℕ → Em → Em
error_if b bit i em = if b then (error em true bit 0x8130 i).0 else em

-- One round of the loop of `CO_HBconsumer_process`, with the flags and the calls so far.
unfoldable pub process_node : ℕ → ℕ → Node → Loop → Loop
unfolding hear watch
process_node i dt node l =
    let heard = hear i dt node in
    let watched = watch heard.node heard.dt l.timer_next in
    let after = watched.node in
    let em1 = error_if heard.reset_error 0x1C i l.em in
    let em2 = error_if watched.expired 0x1B i em1 in
    if is_unconfigured node.hb_state then record l { nodes = l.nodes ++ node ∷ [] } else record {
      nodes = l.nodes ++ record after { nmt_state_prev = after.nmt_state } ∷ [];
      em = em2;
      active = l.active && is_active after.hb_state;
      operational = l.operational && same_nmt after.nmt_state (some nmt_operational);
      events =
          l.events
          ++ (heard.events
              ++ ((if watched.expired then timed_out i ∷ [] else [])
                  ++ (if same_nmt after.nmt_state after.nmt_state_prev
                      then []
                      else nmt_changed i after.nmt_state ∷ [])));
      timer_next = watched.timer_next;
    }

unfoldable pub process_nodes : ℕ → ℕ → List Node → Loop → Loop
unfolding process_node
process_nodes i dt [] l = l
process_nodes i dt (node ∷ nodes) l = process_nodes (i + 1) dt nodes (process_node i dt node l)

-- The loop that forgets what was heard.
abbrev pub clear_node : Node → Node
clear_node node = record node {
  nmt_state = none;
  nmt_state_prev = none;
  can_rx_new = false;
  hb_state = if is_unconfigured node.hb_state then unconfigured else unknown;
}

unfoldable pub clear_nodes : List Node → List Node
clear_nodes [] = []
clear_nodes (node ∷ nodes) = clear_node node ∷ clear_nodes nodes

-- The three ways through the first part of `CO_HBconsumer_process`.
unfoldable pub monitor : HbCons → Bool → ℕ → ℕ → Loop
unfolding process_nodes clear_nodes
monitor h now dt timer_next =
    let prev = h.nmt_is_pre_or_operational_prev in
    let start : Loop = record {
      nodes = [];
      em = h.em;
      active = true;
      operational = true;
      events = [];
      timer_next = timer_next;
    } in
    if now && prev
    then process_nodes 0 dt h.monitored_nodes start
    else if now || prev
    then record start { nodes = clear_nodes h.monitored_nodes; active = false; operational = false }
    else record start { nodes = h.monitored_nodes }

abbrev pub reset_errors : Em → Em
reset_errors em = (error (error em false 0x1B 0 0).0 false 0x1C 0 0).0

-- `CO_HBconsumer_process`: the consumer, the calls and `*timerNext_us`.
unfoldable pub process : HbCons → Bool → ℕ → ℕ → HbCons × List Event × ℕ
unfolding monitor
process h now dt timer_next =
    let l = monitor h now dt timer_next in
    (
      record {
        em = if not h.all_monitored_active && l.active then reset_errors l.em else l.em;
        monitored_nodes = l.nodes;
        all_monitored_active = l.active;
        all_monitored_operational = l.operational;
        nmt_is_pre_or_operational_prev = now;
      },
      l.events,
      l.timer_next,
    )

-- Whether another entry monitors the node, from an index on.
unfoldable pub has_duplicate : List Node → ℕ → ℕ → ℕ → Bool
has_duplicate [] i idx node_id = false
has_duplicate (node ∷ nodes) i idx node_id =
    (not (idx == i) && not (node.time_us == 0) && (node.node_id == node_id))
    || has_duplicate nodes (i + 1) idx node_id

-- `CO_ReturnError_t`, the values that occur here.
pub data InitResult : Type 0 where
  illegal_argument od_parameters : InitResult
  configured : HbCons → ℕ → InitResult

abbrev pub can_id_heartbeat : ℕ
can_id_heartbeat = 0x700

-- `CO_HBconsumer_initEntry`: the consumer, and the identifier that is received from now on.
unfoldable pub init_entry : HbCons → ℕ → ℕ → ℕ → InitResult
unfolding has_duplicate
init_entry h idx node_id consumer_time_ms =
    let used = not (consumer_time_ms == 0) && not (node_id == 0) in
    let node : Node = record {
      node_id = node_id;
      nmt_state = none;
      hb_state = if used then unknown else unconfigured;
      timeout_timer = elim (get_elem? h.monitored_nodes idx) [
        | none ↦ 0
        | some n ↦ n.timeout_timer
      ];
      time_us = if used then u32 (consumer_time_ms * 1000) else 0;
      can_rx_new = false;
      nmt_state_prev = none;
    } in
    if leb (length h.monitored_nodes) idx
    then illegal_argument
    else if used && has_duplicate h.monitored_nodes 0 idx node_id
    then od_parameters
    else configured (record h { monitored_nodes = set h.monitored_nodes idx node })
        (if used then u16 (node_id + can_id_heartbeat) else 0)

-- `OD_write_1016`, up to the write of the original value.
unfoldable pub write_1016 : HbCons → ℕ → ℕ → ℕ → Odr × Option (HbCons × ℕ)
unfolding init_entry
write_1016 h sub_index count value =
    if ltb sub_index 1 || ltb (length h.monitored_nodes) sub_index || not (count == 4)
    then (Odr.dev_incompat, none)
    else elim (init_entry h (sub_index - 1) (value / 65536 % 256) (value % 65536)) [
      | illegal_argument ↦ (Odr.par_incompat, none)
      | od_parameters ↦ (Odr.par_incompat, none)
      | configured h2 cob_id ↦ (Odr.ok, some (h2, cob_id))
    ]

-- `CO_HBconsumer_getIdxByNodeId`
unfoldable pub get_idx_by_node_id : List Node → ℕ → ℕ → Option ℕ
get_idx_by_node_id [] i node_id = none
get_idx_by_node_id (node ∷ nodes) i node_id =
    if node.node_id == node_id then some i else get_idx_by_node_id nodes (i + 1) node_id

-- `CO_HBconsumer_getState`
unfoldable pub get_state : HbCons → ℕ → HbState
get_state h idx = elim (get_elem? h.monitored_nodes idx) [
  | none ↦ unconfigured
  | some n ↦ n.hb_state
]

-- `CO_HBconsumer_getNmtState`, where it returns 0.
unfoldable pub get_nmt_state : HbCons → ℕ → Option (Option ℕ)
get_nmt_state h idx = elim (get_elem? h.monitored_nodes idx) [
  | none ↦ none
  | some n ↦ if is_active n.hb_state then some n.nmt_state else none
]
