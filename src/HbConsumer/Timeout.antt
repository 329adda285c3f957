-- ===== src/HbConsumer/Timeout.antt =====
-- The heartbeat consumer's emergencies: a monitored node that is late is reported.
use e_rob_canopen_node_demo.Base.{
  ℕ, zero, suc, ◌+◌, ◌≤◌, ◌≡◌, inl, inr, refl, ◌∙◌, List, [], ◌∷◌, Bool, true, false, not, ◌&&◌,
  arith, some, get_elem?, leb, ◌==◌, if◌then◌else◌, add32, Bool-cases,
}
use e_rob_canopen_node_demo.Emergency.{Em, is_error}
use e_rob_canopen_node_demo.Emergency.StatusBits.{HasBytes, target, is_error-error, error-HasBytes}
use e_rob_canopen_node_demo.HbConsumer.{
  Node, HbCons, active, timeout, is_unconfigured, hear, watch, Loop, error_if, process_node,
  process_nodes, monitor, process,
}

-- What the loop keeps of an error: the status bytes, and an error 0x1B that is set.
record Later (before after : Loop) : Type 0 where
  bytes : HasBytes after.em
  error : is_error before.em 0x1B ≡ true → is_error after.em 0x1B ≡ true
  active : before.active ≡ false → after.active ≡ false

error_if-HasBytes : (b : Bool) (bit i : ℕ) (em : Em) → HasBytes em → HasBytes (error_if b bit i em)
error_if-HasBytes true bit i em h = error-HasBytes em true bit 0x8130 i h
error_if-HasBytes false bit i em h = h

either_way : (c d : Bool) → d ≡ true → (if c then true else d) ≡ true
either_way true d h = refl
either_way false d h = h

error_if-keeps :
    (b : Bool) (bit i : ℕ) (em : Em)
    → HasBytes em
    → is_error em 0x1B ≡ true
    → is_error (error_if b bit i em) 0x1B ≡ true
error_if-keeps true bit i em h e =
    is_error-error em true bit 0x8130 i 0x1B h (omega arith) ∙ either_way (0x1B == target bit) _ e
error_if-keeps false bit i em h e = e

process_node-Later :
    (i dt : ℕ) (node : Node) (l : Loop) → HasBytes l.em → Later l (process_node i dt node l)
unfolding process_node
process_node-Later i dt node l h = elim (Bool-cases (is_unconfigured node.hb_state)) [
  | inl e ↦ rw e (record { bytes = h; error = λ x. x; active = λ x. x })
  | inr e ↦
      let heard = hear i dt node in
      let watched = watch heard.node heard.dt l.timer_next in
      let h1 = error_if-HasBytes heard.reset_error 0x1C i l.em h in
      rw e (record {
        bytes = error_if-HasBytes watched.expired 0x1B i _ h1;
        error = λ x.
            error_if-keeps watched.expired 0x1B i _ h1
              (error_if-keeps heard.reset_error 0x1C i l.em h x);
        active = λ x. rw x refl;
      })
]

process_nodes-Later :
    (i dt : ℕ) (nodes : List Node) (l : Loop) → HasBytes l.em → Later l (process_nodes i dt nodes l)
unfolding process_nodes
process_nodes-Later i dt [] l h = record { bytes = h; error = λ x. x; active = λ x. x }
process_nodes-Later i dt (node ∷ nodes) l h =
    let a = process_node-Later i dt node l h in
    let b = process_nodes-Later (i + 1) dt nodes (process_node i dt node l) a.bytes in
    record {
      bytes = b.bytes;
      error = λ x. b.error (a.error x);
      active = λ x. b.active (a.active x);
    }

-- An active node of which nothing has been heard for its consumer time.
pub record IsLate (node : Node) (dt : ℕ) : Type 0 where
  pub was_active : node.hb_state ≡ active
  pub no_message : node.can_rx_new ≡ false
  pub late : node.time_us ≤ add32 node.timeout_timer dt

late-watch :
    (i dt next : ℕ) (node : Node)
    → IsLate node dt
    → ((watch (hear i dt node).node (hear i dt node).dt next).expired ≡ true)
      × ((watch (hear i dt node).node (hear i dt node).dt next).node.hb_state ≡ timeout)
unfolding hear watch
late-watch i dt next node h =
    let e : leb node.time_us (add32 node.timeout_timer dt) ≡ true = ground (arith, h.late) in
    rw (h.no_message, h.was_active, e) (refl, refl)

and_false : (b : Bool) → (b && false) ≡ false
and_false true = refl
and_false false = refl

late-process_node :
    (i dt : ℕ) (node : Node) (l : Loop)
    → HasBytes l.em
    → IsLate node dt
    → (is_error (process_node i dt node l).em 0x1B ≡ true)
      × ((process_node i dt node l).active ≡ false)
unfolding process_node
late-process_node i dt node l h late =
    let heard = hear i dt node in
    let w = late-watch i dt l.timer_next node late in
    let h1 = error_if-HasBytes heard.reset_error 0x1C i l.em h in
    let u : is_unconfigured node.hb_state ≡ false = rw late.was_active refl in
    rw (u, w.0, w.1) (is_error-error _ true 0x1B 0x8130 i 0x1B h1 (omega arith), and_false l.active)

late-process_nodes :
    (i dt k : ℕ) (nodes : List Node) (node : Node) (l : Loop)
    → HasBytes l.em
    → get_elem? nodes k ≡ some node
    → IsLate node dt
    → (is_error (process_nodes i dt nodes l).em 0x1B ≡ true)
      × ((process_nodes i dt nodes l).active ≡ false)
unfolding process_nodes
late-process_nodes i dt k [] node l h at late = absurd cc
late-process_nodes i dt zero (x ∷ xs) node l h at late =
    let e : node ≡ x = cc in
    let here = late-process_node i dt x l h (rw (← e) late) in
    let after =
      process_nodes-Later (i + 1) dt xs (process_node i dt x l)
        (process_node-Later i dt x l h).bytes in
    (after.error here.0, after.active here.1)
late-process_nodes i dt (suc k) (x ∷ xs) node l h at late =
    late-process_nodes (i + 1) dt k xs node (process_node i dt x l)
      (process_node-Later i dt x l h).bytes at late

monitor-late :
    (h : HbCons) (dt next k : ℕ) (node : Node)
    → HasBytes h.em
    → h.nmt_is_pre_or_operational_prev ≡ true
    → get_elem? h.monitored_nodes k ≡ some node
    → IsLate node dt
    → (is_error (monitor h true dt next).em 0x1B ≡ true) × ((monitor h true dt next).active ≡ false)
unfolding monitor
monitor-late h dt next k node b p at late =
    rw p (late-process_nodes 0 dt k h.monitored_nodes node _ b at late)

-- While the node stays (pre-)operational, one monitored node that is active and late is enough for
-- CO_HBconsumer_process to leave the heartbeat consumer error set and to say that not all
-- monitored nodes are active.
pub process-late :
    (h : HbCons) (dt next k : ℕ) (node : Node)
    → HasBytes h.em
    → h.nmt_is_pre_or_operational_prev ≡ true
    → get_elem? h.monitored_nodes k ≡ some node
    → IsLate node dt
    → (is_error (process h true dt next).0.em 0x1B ≡ true)
      × ((process h true dt next).0.all_monitored_active ≡ false)
unfolding process
process-late h dt next k node b p at late =
    let m = monitor-late h dt next k node b p at late in
    rw (m.1, and_false (not h.all_monitored_active)) (m.0, refl)
