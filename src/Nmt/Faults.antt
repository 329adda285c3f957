-- ===== src/Nmt/Faults.antt =====
-- How CO_NMT_process reacts to the errors that its control word selects: the state that it leaves.
use e_rob_canopen_node_demo.Base.{
  ℕ, ◌%◌, ◌≡◌, ◌≢◌, ◌⊎◌, inl, inr, refl, ◌∙◌, bit_and, true, false, arith, ◌==◌, has, if◌then◌else◌,
  Bool-cases,
}
use e_rob_canopen_node_demo.Emergency.{Em, is_error}
use e_rob_canopen_node_demo.Nmt.{
  State, initializing, pre_operational, operational, stopped, state_code, same_state, Nmt, is_due,
  produce, obey, react, has_nmt_error, process,
}

-- A fault that the control word selects: bus off or a heartbeat consumer error with bit 0x1000, or
-- with bit 0x2000 a bit of the error register that the low byte of the control word names.
abbrev pub IsFault : ℕ → Em → Type 0
IsFault control em =
    ((bit_and control 0x1000 ≢ 0)
      × ((is_error em 0x12 ≡ true) ⊎ (is_error em 0x1B ≡ true) ⊎ (is_error em 0x1C ≡ true)))
    ⊎ ((bit_and control 0x2000 ≢ 0) × (bit_and em.error_register (control % 256) ≢ 0))

IsFault-seen : (control : ℕ) (em : Em) → IsFault control em → has_nmt_error control em ≡ true
unfolding has_nmt_error
IsFault-seen control em h = ground (arith, h)

seen-IsFault : (control : ℕ) (em : Em) → has_nmt_error control em ≡ true → IsFault control em
unfolding has_nmt_error
seen-IsFault control em h = ground arith

no_fault : (control : ℕ) (em : Em) → ¬ IsFault control em → has_nmt_error control em ≡ false
no_fault control em n = elim (Bool-cases (has_nmt_error control em)) [
  | inl e ↦ absurd (n (seen-IsFault control em e))
  | inr e ↦ e
]

-- A command that asks for no state.
abbrev pub IsOther : ℕ → Type 0
IsOther command = (command ≢ 1) × (command ≢ 2) × (command ≢ 128)

-- The state in which a node is to be by its command, or by itself: an initializing node starts.
pub data IsHeaded (nmt : Nmt) : State → Type 0 where
  told_operational : nmt.internal_command ≡ 1 → IsHeaded nmt operational
  told_stopped : nmt.internal_command ≡ 2 → IsHeaded nmt stopped
  told_pre_operational : nmt.internal_command ≡ 128 → IsHeaded nmt pre_operational
  starts :
      IsOther nmt.internal_command
      → nmt.operating_state ≡ initializing
      → bit_and nmt.nmt_control 0x0100 ≢ 0
      → IsHeaded nmt operational
  starts_pre_operational :
      IsOther nmt.internal_command
      → nmt.operating_state ≡ initializing
      → bit_and nmt.nmt_control 0x0100 ≡ 0
      → IsHeaded nmt pre_operational
  stays :
      {s : State}
      → IsOther nmt.internal_command
      → nmt.operating_state ≡ s
      → s ≢ initializing
      → IsHeaded nmt s

-- The state that is left of one in which the node is to be, by the faults and the control word.
pub record Reacted (nmt : Nmt) (em : Em) (s out : State) : Type 0 where
  pub leaves : IsFault nmt.nmt_control em → out ≢ operational
  pub stops :
      IsFault nmt.nmt_control em
      → s ≡ operational
      → bit_and nmt.nmt_control 0x4000 ≢ 0
      → out ≡ stopped
  pub falls :
      IsFault nmt.nmt_control em
      → s ≡ operational
      → bit_and nmt.nmt_control 0x4000 ≡ 0
      → out ≡ pre_operational
  pub waits : IsFault nmt.nmt_control em → s ≢ operational → out ≡ s
  pub freed :
      ¬ IsFault nmt.nmt_control em
      → s ≡ pre_operational
      → bit_and nmt.nmt_control 0x8000 ≢ 0
      → out ≡ operational
  pub holds :
      ¬ IsFault nmt.nmt_control em
      → (s ≢ pre_operational) ⊎ (bit_and nmt.nmt_control 0x8000 ≡ 0)
      → out ≡ s

different : {s : State} → s ≢ operational → same_state s operational ≡ false
unfolding state_code
different {s = initializing} n = refl
different {s = pre_operational} n = refl
different {s = operational} n = absurd (n refl)
different {s = stopped} n = refl

different_pre : {s : State} → s ≢ pre_operational → same_state s pre_operational ≡ false
unfolding state_code
different_pre {s = initializing} n = refl
different_pre {s = pre_operational} n = absurd (n refl)
different_pre {s = operational} n = refl
different_pre {s = stopped} n = refl

started_other : {s : State} → s ≢ initializing → same_state s initializing ≡ false
unfolding state_code
started_other {s = initializing} n = absurd (n refl)
started_other {s = pre_operational} n = refl
started_other {s = operational} n = refl
started_other {s = stopped} n = refl

same_self : (s : State) → same_state s s ≡ true
same_self s = ground arith

has_bit : (x mask : ℕ) → bit_and x mask ≢ 0 → has x mask ≡ true
has_bit x mask n = ground arith

no_bit : (x mask : ℕ) → bit_and x mask ≡ 0 → has x mask ≡ false
no_bit x mask n = ground arith

react-leaves : (control : ℕ) (s : State) → react control true s ≢ operational
unfolding react state_code
react-leaves control initializing h = ground arith
react-leaves control pre_operational h = ground arith
react-leaves control operational h = elim (Bool-cases (has control 0x4000)) [
  | inl e ↦ ground (arith, h, e)
  | inr e ↦ ground (arith, h, e)
]
react-leaves control stopped h = ground arith

module _ (nmt : Nmt) (em : Em) (s : State) where
  react-Reacted : Reacted nmt em s (react nmt.nmt_control (has_nmt_error nmt.nmt_control em) s)
  unfolding react
  react-Reacted =
      let fault = IsFault-seen nmt.nmt_control em in
      let none = no_fault nmt.nmt_control em in
      record {
        leaves = λ f. rw (fault f) (react-leaves nmt.nmt_control s);
        stops = λ f e b. rw (fault f, e, same_self operational, has_bit _ _ b) refl;
        falls = λ f e b. rw (fault f, e, same_self operational, no_bit _ _ b) refl;
        waits = λ f n. rw (fault f, different n) (ground arith);
        freed = λ n e b. rw (none n, e, same_self pre_operational, has_bit _ _ b) (ground arith);
        holds = λ n h. rw (none n) (elim h [
          | inl d ↦ rw (different_pre d) (ground arith)
          | inr b ↦ rw (no_bit _ _ b) (ground arith)
        ]);
      }

-- The heartbeat leaves the command, and starts an initializing node.
produce-command : (nmt : Nmt) (dt : ℕ) → (produce nmt dt).0.internal_command ≡ nmt.internal_command
unfolding produce
produce-command nmt dt = elim (Bool-cases (is_due nmt dt)) [
  | inr e ↦ rw e refl
  | inl e ↦ elim (Bool-cases (same_state nmt.operating_state initializing)) [
    | inl f ↦ rw (e, f) refl
    | inr f ↦ rw (e, f) refl
  ]
]

produce_keeps :
    (nmt : Nmt) (dt : ℕ)
    → same_state nmt.operating_state initializing ≡ false
    → (produce nmt dt).0.operating_state ≡ nmt.operating_state
unfolding produce
produce_keeps nmt dt h = elim (Bool-cases (is_due nmt dt)) [
  | inr e ↦ rw e refl
  | inl e ↦ rw (e, h) refl
]

produce_starts :
    (nmt : Nmt) (dt : ℕ)
    → nmt.operating_state ≡ initializing
    → (produce nmt dt).0.operating_state
      ≡ (if has nmt.nmt_control 0x0100 then operational else pre_operational)
unfolding produce is_due
produce_starts nmt dt h = rw (h, same_self initializing) refl

obey_other : (command : ℕ) (s : State) → IsOther command → (obey command s).0 ≡ s
unfolding obey
obey_other command s o =
    let a : (command == 1) ≡ false = ground (arith, o.0) in
    let b : (command == 2) ≡ false = ground (arith, o.1) in
    let c : (command == 128) ≡ false = ground (arith, o.2) in
    rw (a, b, c)
      (elim (Bool-cases (command == 129)) [
        | inl e ↦ rw e refl
        | inr e ↦ elim (Bool-cases (command == 130)) [
          | inl f ↦ rw (e, f) refl
          | inr f ↦ rw (e, f) refl
        ]
      ])

headed_state :
    (nmt : Nmt) (dt : ℕ) (s : State)
    → IsHeaded nmt s
    → (obey nmt.internal_command (produce nmt dt).0.operating_state).0 ≡ s
unfolding obey
headed_state nmt dt _ (told_operational c) = rw c refl
headed_state nmt dt _ (told_stopped c) = rw c refl
headed_state nmt dt _ (told_pre_operational c) = rw c refl
headed_state nmt dt _ (starts o e b) =
    obey_other nmt.internal_command _ o ∙ produce_starts nmt dt e ∙ rw (has_bit _ _ b) refl
headed_state nmt dt _ (starts_pre_operational o e b) =
    obey_other nmt.internal_command _ o ∙ produce_starts nmt dt e ∙ rw (no_bit _ _ b) refl
headed_state nmt dt s (stays o e n) =
    obey_other nmt.internal_command _ o ∙ produce_keeps nmt dt (rw e (started_other n)) ∙ e

-- The state that CO_NMT_process leaves, from the state in which the node is to be by its command or
-- by its start. With a fault that the control word selects (bus off, a heartbeat consumer error or
-- remote reset, or a named bit of the error register) it is never operational: an operational node
-- becomes stopped or pre-operational as the control word says, and any other state stays. Without a
-- fault a pre-operational node becomes operational where the control word asks for it, and else the
-- state stays.
pub process-Reacted :
    (nmt : Nmt) (em : Em) (dt timer_next : ℕ) (s : State)
    → IsHeaded nmt s
    → Reacted nmt em s (process nmt em dt timer_next).nmt.operating_state
unfolding process
process-Reacted nmt em dt timer_next s h =
    rw (produce-command nmt dt, headed_state nmt dt s h) (react-Reacted nmt em s)
