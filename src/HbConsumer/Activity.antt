-- ===== src/HbConsumer/Activity.antt =====
-- When all monitored nodes are active, and what CO_HBconsumer_process does to its errors then.
use e_rob_canopen_node_demo.Base.{
  ℕ, ◌≡◌, ◌⊎◌, inl, inr, refl, ◌∙◌, List, [], ◌∷◌, Bool, true, false, ◌&&◌, arith, none,
  if◌then◌else◌, not, Bool-cases, All,
}
use e_rob_canopen_node_demo.Emergency.{Em, error, is_error}
use e_rob_canopen_node_demo.Emergency.StatusBits.{HasBytes, is_error-error, error-HasBytes}
use e_rob_canopen_node_demo.HbConsumer.{
  Node, HbCons, unconfigured, unknown, is_unconfigured, Loop, clear_nodes, monitor, process,
  reset_errors,
}
use e_rob_canopen_node_demo.HbConsumer.Alive.{IsAlive, IsAlive-process_nodes, process_nodes-IsAlive}

and_no : (b : Bool) → (b && false) ≡ false
and_no true = refl
and_no false = refl

reset_errors_lem :
    (em : Em)
    → HasBytes em
    → (is_error (reset_errors em) 0x1B ≡ false) × (is_error (reset_errors em) 0x1C ≡ false)
reset_errors_lem em h =
    let h1 = error-HasBytes em false 0x1B 0 0 h in
    (
      is_error-error (error em false 0x1B 0 0).0 false 0x1C 0 0 0x1B h1 (omega arith)
          ∙ is_error-error em false 0x1B 0 0 0x1B h (omega arith),
      is_error-error (error em false 0x1B 0 0).0 false 0x1C 0 0 0x1C h1 (omega arith),
    )

-- The node is (pre-)operational in this call and was in the one before.
abbrev pub IsWatching : HbCons → Bool → Type 0
IsWatching h now = (now ≡ true) × (h.nmt_is_pre_or_operational_prev ≡ true)

-- An entry of which nothing is known: it monitors no node, or its node has not been heard.
pub record IsForgotten (node : Node) : Type 0 where
  pub state : (node.hb_state ≡ unconfigured) ⊎ (node.hb_state ≡ unknown)
  pub nmt : node.nmt_state ≡ none
  pub no_message : node.can_rx_new ≡ false

-- Neither the heartbeat consumer error nor the remote reset error is set.
abbrev pub IsCleared : Em → Type 0
IsCleared em = (is_error em 0x1B ≡ false) × (is_error em 0x1C ≡ false)

-- The flag and the errors after a call, by the entries before it and the state of the node itself.
pub record Checked (h : HbCons) (now : Bool) (dt : ℕ) (out : HbCons) : Type 0 where
  pub rises :
      IsWatching h now → All (IsAlive dt) h.monitored_nodes → out.all_monitored_active ≡ true
  pub only : IsWatching h now → out.all_monitored_active ≡ true → All (IsAlive dt) h.monitored_nodes
  pub cleared :
      IsWatching h now
      → h.all_monitored_active ≡ false
      → All (IsAlive dt) h.monitored_nodes
      → IsCleared out.em
  pub quiet :
      IsWatching h now
      → h.all_monitored_active ≡ true
      → All (IsAlive dt) h.monitored_nodes
      → out.em ≡ h.em
  pub changes :
      now ≡ not h.nmt_is_pre_or_operational_prev
      → (out.all_monitored_active ≡ false) × (out.em ≡ h.em) × All IsForgotten out.monitored_nodes
  pub outside :
      now ≡ false
      → h.nmt_is_pre_or_operational_prev ≡ false
      → (out.all_monitored_active ≡ true)
        × (out.monitored_nodes ≡ h.monitored_nodes)
        × (h.all_monitored_active ≡ false → IsCleared out.em)

IsAlive-monitor :
    (h : HbCons) (now : Bool) (dt next : ℕ)
    → IsWatching h now
    → All (IsAlive dt) h.monitored_nodes
    → ((monitor h now dt next).active ≡ true) × ((monitor h now dt next).em ≡ h.em)
unfolding monitor
IsAlive-monitor h now dt next w a = rw (w.0, w.1) (IsAlive-process_nodes 0 dt h.monitored_nodes _ a)

monitor-IsAlive :
    (h : HbCons) (now : Bool) (dt next : ℕ)
    → IsWatching h now
    → (monitor h now dt next).active ≡ true
    → All (IsAlive dt) h.monitored_nodes
unfolding monitor
monitor-IsAlive h now dt next w =
    rw (w.0, w.1) (λ e. (process_nodes-IsAlive 0 dt h.monitored_nodes _ e).1)

clear_nodes-IsForgotten : (nodes : List Node) → All IsForgotten (clear_nodes nodes)
unfolding clear_nodes
clear_nodes-IsForgotten [] = tt
clear_nodes-IsForgotten (node ∷ nodes) = (
  record { state = either (is_unconfigured node.hb_state); nmt = refl; no_message = refl },
  clear_nodes-IsForgotten nodes,
)
  where
    either :
        (b : Bool)
        → ((if b then unconfigured else unknown) ≡ unconfigured)
          ⊎ ((if b then unconfigured else unknown) ≡ unknown)
    either true = inl refl
    either false = inr refl

record Forgets (h : HbCons) (l : Loop) : Type 0 where
  flag : l.active ≡ false
  same : l.em ≡ h.em
  all : All IsForgotten l.nodes

monitor-Forgets :
    (h : HbCons) (now : Bool) (dt next : ℕ)
    → now ≡ not h.nmt_is_pre_or_operational_prev
    → Forgets h (monitor h now dt next)
unfolding monitor
monitor-Forgets h now dt next e = elim (Bool-cases h.nmt_is_pre_or_operational_prev) [
  | inl p ↦
      rw (e, p)
        (record { flag = refl; same = refl; all = clear_nodes-IsForgotten h.monitored_nodes })
  | inr p ↦
      rw (e, p)
        (record { flag = refl; same = refl; all = clear_nodes-IsForgotten h.monitored_nodes })
]

monitor_outside :
    (h : HbCons) (now : Bool) (dt next : ℕ)
    → now ≡ false
    → h.nmt_is_pre_or_operational_prev ≡ false
    → ((monitor h now dt next).active ≡ true)
      × ((monitor h now dt next).em ≡ h.em)
      × ((monitor h now dt next).nodes ≡ h.monitored_nodes)
unfolding monitor
monitor_outside h now dt next n p = rw (n, p) (refl, refl, refl)

-- In a call of CO_HBconsumer_process while the node is and was (pre-)operational, all monitored
-- nodes count as active exactly when each of them has sent a heartbeat other than the boot-up since
-- the last call, and has a consumer time other than zero, or is active, silent since and within its
-- consumer time. Then, if they did not before the call, neither the heartbeat consumer error nor
-- the remote reset error stays set; if they did, the emergency object stays as it is. In the call
-- at which the node enters or leaves these states every entry forgets its node, the flag is cleared
-- and the errors stay. In a further call outside of these states the flag is set and, if it was
-- not, the two errors are cleared, while the entries stay. The emergency object has its ten bytes
-- of status bits.
pub process-Checked :
    (h : HbCons) (now : Bool) (dt next : ℕ)
    → HasBytes h.em
    → Checked h now dt (process h now dt next).0
unfolding process
process-Checked h now dt next b = record {
  rises = λ w a. (IsAlive-monitor h now dt next w a).0;
  only = λ w. monitor-IsAlive h now dt next w;
  cleared = λ w f a.
      let m = IsAlive-monitor h now dt next w a in rw (f, m.0, m.1) (reset_errors_lem h.em b);
  quiet = λ w f a. let m = IsAlive-monitor h now dt next w a in rw (f, m.1) refl;
  changes = λ e.
      let m = monitor-Forgets h now dt next e in
      (m.flag, rw (m.flag, and_no (not h.all_monitored_active)) m.same, m.all);
  outside = λ n p.
      let m = monitor_outside h now dt next n p in
      (m.0, m.2, λ f. rw (f, m.0, m.1) (reset_errors_lem h.em b));
}
