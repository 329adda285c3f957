-- ===== src/HbConsumer/Alive.antt =====
-- The loop of CO_HBconsumer_process: over which entries the flag stays set.
use e_rob_canopen_node_demo.Base.{
  ℕ, ◌+◌, ◌<◌, ◌≡◌, ◌≢◌, inl, inr, refl, sym, ap, ◌∙◌, List, [], ◌∷◌, Bool, true, false, ◌&&◌,
  arith, Option, none, some, leb, ◌==◌, u32, add32, Bool-cases, All,
}
use e_rob_canopen_node_demo.HbConsumer.{
  Node, HbState, unconfigured, unknown, active, timeout, is_unconfigured, is_active, same_nmt, hear,
  watch, Loop, process_node, process_nodes,
}

-- An entry that does not keep the others from being all active: one that monitors no node, one whose
-- node has sent a heartbeat with a state that is not the boot-up, or one whose node is active and
-- within its consumer time.
pub data IsAlive (dt : ℕ) (node : Node) : Type 0 where
  not_monitored : node.hb_state ≡ unconfigured → IsAlive dt node
  has_heartbeat :
      node.hb_state ≢ unconfigured
      → node.can_rx_new ≡ true
      → node.nmt_state ≢ some 0
      → node.time_us ≢ 0
      → IsAlive dt node
  is_in_time :
      node.hb_state ≡ active
      → node.can_rx_new ≡ false
      → u32 (node.timeout_timer + dt) < node.time_us
      → IsAlive dt node

booted : (s : Option ℕ) → s ≢ some 0 → same_nmt s (some 0) ≡ false
booted none n = refl
booted (some k) n = elim (Bool-cases (k == 0)) [
  | inl e ↦ absurd (n (ap some (ground arith)))
  | inr e ↦ e
]

not_booted : (s : Option ℕ) → same_nmt s (some 0) ≡ false → s ≢ some 0
not_booted none h e = cc
not_booted (some k) h e = let z : k ≡ 0 = cc in ground (arith, z)

monitored_state : (s : HbState) → s ≢ unconfigured → is_unconfigured s ≡ false
monitored_state unconfigured n = absurd (n refl)
monitored_state unknown n = refl
monitored_state active n = refl
monitored_state timeout n = refl

unconfigured_state : (s : HbState) → is_unconfigured s ≡ true → s ≡ unconfigured
unconfigured_state unconfigured h = refl
unconfigured_state unknown h = absurd cc
unconfigured_state active h = absurd cc
unconfigured_state timeout h = absurd cc

active_state : (s : HbState) → is_active s ≡ true → s ≡ active
active_state unconfigured h = absurd cc
active_state unknown h = absurd cc
active_state active h = refl
active_state timeout h = absurd cc

and_true : (b : Bool) → (b && true) ≡ b
and_true true = refl
and_true false = refl

-- A round of the loop over an entry that is alive changes neither the flag nor the errors.
IsAlive-process_node :
    (i dt : ℕ) (node : Node) (l : Loop)
    → IsAlive dt node
    → ((process_node i dt node l).active ≡ l.active) × ((process_node i dt node l).em ≡ l.em)
unfolding process_node hear watch
IsAlive-process_node i dt node l (not_monitored u) = rw u (refl, refl)
IsAlive-process_node i dt node l (has_heartbeat m r b t) =
    let late : leb node.time_us (add32 0 0) ≡ false = ground arith in
    rw (monitored_state node.hb_state m, r, booted node.nmt_state b, late) (and_true l.active, refl)
IsAlive-process_node i dt node l (is_in_time a r t) =
    let late : leb node.time_us (add32 node.timeout_timer dt) ≡ false = ground arith in
    rw (a, r, late) (and_true l.active, refl)

and_false : (b : Bool) → (b && false) ≡ true → ⊥
and_false true h = cc
and_false false h = cc

still_monitored : (s : HbState) → is_unconfigured s ≡ false → s ≢ unconfigured
still_monitored s h e = cc

-- The flag stays only over an entry that is alive.
process_node-IsAlive :
    (i dt : ℕ) (node : Node) (l : Loop)
    → (process_node i dt node l).active ≡ true
    → (l.active ≡ true) × IsAlive dt node
unfolding process_node hear watch
process_node-IsAlive i dt node l h =
    let on = (process_node i dt node l).active in
    let never : on ≡ (l.active && false) → (l.active ≡ true) × IsAlive dt node =
      λ e. absurd (and_false l.active (sym e ∙ h)) in
    let kept : on ≡ (l.active && true) → l.active ≡ true =
      λ e. sym (and_true l.active) ∙ sym e ∙ h in
    elim (Bool-cases (is_unconfigured node.hb_state)) [
      | inl u ↦
          let e : on ≡ l.active = rw u refl in
          (sym e ∙ h, not_monitored (unconfigured_state node.hb_state u))
      | inr u ↦ elim (Bool-cases node.can_rx_new) [
        | inl r ↦ elim (Bool-cases (same_nmt node.nmt_state (some 0))) [
          | inl b ↦ never (rw (u, r, b) refl)
          | inr b ↦ elim (Bool-cases (leb node.time_us (add32 0 0))) [
            | inl e ↦ never (rw (u, r, b, e) refl)
            | inr e ↦ (
              kept (rw (u, r, b, e) refl),
              has_heartbeat (still_monitored node.hb_state u) r (not_booted node.nmt_state b)
                  (ground arith),
            )
          ]
        ]
        | inr r ↦ elim (Bool-cases (is_active node.hb_state)) [
          | inr a ↦ never (rw (u, r, a) (ap (λ b. l.active && b) a))
          | inl a ↦ elim (Bool-cases (leb node.time_us (add32 node.timeout_timer dt))) [
            | inl e ↦ never (rw (u, r, a, e) refl)
            | inr e ↦ (
              kept (rw (u, r, a, e) (ap (λ b. l.active && b) a)),
              is_in_time (active_state node.hb_state a) r (ground arith),
            )
          ]
        ]
      ]
    ]

pub IsAlive-process_nodes :
    (i dt : ℕ) (nodes : List Node) (l : Loop)
    → All (IsAlive dt) nodes
    → ((process_nodes i dt nodes l).active ≡ l.active) × ((process_nodes i dt nodes l).em ≡ l.em)
unfolding process_nodes
IsAlive-process_nodes i dt [] l a = (refl, refl)
IsAlive-process_nodes i dt (node ∷ nodes) l a =
    let here = IsAlive-process_node i dt node l a.0 in
    let rest = IsAlive-process_nodes (i + 1) dt nodes (process_node i dt node l) a.1 in
    (rest.0 ∙ here.0, rest.1 ∙ here.1)

pub process_nodes-IsAlive :
    (i dt : ℕ) (nodes : List Node) (l : Loop)
    → (process_nodes i dt nodes l).active ≡ true
    → (l.active ≡ true) × All (IsAlive dt) nodes
unfolding process_nodes
process_nodes-IsAlive i dt [] l h = (h, tt)
process_nodes-IsAlive i dt (node ∷ nodes) l h =
    let rest = process_nodes-IsAlive (i + 1) dt nodes (process_node i dt node l) h in
    let here = process_node-IsAlive i dt node l rest.0 in (here.0, (here.1, rest.1))
