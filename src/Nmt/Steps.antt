-- ===== src/Nmt/Steps.antt =====
-- Every sequence of calls on an NMT object: the boot-up message, the timer, and errors.
use e_rob_canopen_node_demo.Base.{
  ℕ, ◌+◌, ◌*◌, ◌≡◌, ◌⊎◌, inl, inr, refl, ap, ◌∙◌, List, [], ◌∷◌, ◌++◌, Bool, true, false, not, ◌&&◌,
  ◌||◌, arith, ◌==◌, get_or, if◌then◌else◌, has, u32, Bool-cases,
}
use e_rob_canopen_node_demo.Emergency.{Em}
use e_rob_canopen_node_demo.Nmt.{
  State, initializing, state_code, same_state, Nmt, Event, heartbeat, nmt_command, state_changed,
  signal_pre, receive, write_1017, init, is_due, produce, obey, react, has_nmt_error, process,
  send_command, send_internal_command, startup_to_operational,
}

-- One call on the object, with the messages and calls that it makes.
pub data Step : Nmt → List Event → Nmt → Type 0 where
  received :
      (nmt : Nmt) (bytes : List ℕ) (dlc : ℕ)
      → Step nmt (receive nmt bytes dlc).1 (receive nmt bytes dlc).0
  written :
      (nmt : Nmt) (sub_index count value : ℕ) → Step nmt [] (write_1017 nmt sub_index count value).1
  commanded : (nmt : Nmt) (command : ℕ) → Step nmt [] (send_internal_command nmt command)
  sent :
      (nmt : Nmt) (command node_id : ℕ)
      → Step nmt (send_command nmt command node_id).1 (send_command nmt command node_id).0
  processed :
      (nmt : Nmt) (em : Em) (dt timer_next : ℕ)
      → Step nmt (process nmt em dt timer_next).events (process nmt em dt timer_next).nmt

-- A sequence of calls, the last one outermost.
pub data Trace (start : Nmt) : List Event → Nmt → Type 0 where
  none_yet : Trace start [] start
  next :
      (out more : List Event) (nmt after : Nmt)
      → Trace start out nmt
      → Step nmt more after
      → Trace start (out ++ more) after

abbrev is_boot : Event → ℕ
is_boot (heartbeat code) = if code == 0 then 1 else 0
is_boot (nmt_command command node_id) = 0
is_boot (state_changed state) = 0
is_boot signal_pre = 0

-- How many boot-up messages there are.
abbrev pub boots : List Event → ℕ
boots [] = 0
boots (e ∷ es) = is_boot e + boots es

boots-append : (xs ys : List Event) → boots (xs ++ ys) ≡ boots xs + boots ys
boots-append [] ys = omega arith
boots-append (x ∷ xs) ys = omega (arith, boots-append xs ys)

-- Before and after the boot-up message.
abbrev pub Booted : List Event → Nmt → Type 0
Booted out nmt =
    ((nmt.operating_state ≡ initializing) × (boots out ≡ 0))
    ⊎ ((same_state nmt.operating_state initializing ≡ false) × (boots out ≡ 1))

obey-running :
    (command : ℕ) (state : State)
    → same_state state initializing ≡ false
    → same_state (obey command state).0 initializing ≡ false
unfolding obey state_code
obey-running command state h = ground arith

react-running :
    (control : ℕ) (e : Bool) (state : State)
    → same_state state initializing ≡ false
    → same_state (react control e state) initializing ≡ false
unfolding react state_code
react-running control e state h = ground arith

-- The first heartbeat is the boot-up message, and no other is.
produce-boots :
    (nmt : Nmt) (dt : ℕ)
    → (same_state (produce nmt dt).0.operating_state initializing ≡ false)
      × (boots (produce nmt dt).1 ≡ (if same_state nmt.operating_state initializing then 1 else 0))
unfolding produce is_due state_code
produce-boots nmt dt = elim (Bool-cases (same_state nmt.operating_state initializing)) [
  | inl e ↦ elim (Bool-cases (has nmt.nmt_control startup_to_operational)) [
    | inl f ↦ rw (e, f) (refl, rw e refl)
    | inr f ↦ rw (e, f) (refl, rw e refl)
  ]
  | inr e ↦ elim (Bool-cases (is_due nmt dt)) [
    | inl f ↦ rw (f, e) (e, omega arith)
    | inr f ↦ rw (f, e) (refl, refl)
  ]
]

quiet : (b : Bool) (state : State) → boots (if b then state_changed state ∷ [] else []) ≡ 0
quiet true state = refl
quiet false state = refl

one_call : (b : Bool) → boots (if b then signal_pre ∷ [] else []) ≡ 0
one_call true = refl
one_call false = refl

process-boots :
    (nmt : Nmt) (em : Em) (dt timer_next : ℕ)
    → (same_state (process nmt em dt timer_next).nmt.operating_state initializing ≡ false)
      × (boots (process nmt em dt timer_next).events
          ≡ (if same_state nmt.operating_state initializing then 1 else 0))
unfolding process
process-boots nmt em dt timer_next =
    let p = produce-boots nmt dt in
    let obeyed =
      obey-running (produce nmt dt).0.internal_command (produce nmt dt).0.operating_state p.0 in
    (
      react-running nmt.nmt_control (has_nmt_error nmt.nmt_control em)
          (obey (produce nmt dt).0.internal_command (produce nmt dt).0.operating_state).0 obeyed,
      boots-append (produce nmt dt).1 _ ∙ omega (arith, p.1, quiet _ _),
    )

silent-Booted :
    (out more : List Event) (nmt after : Nmt)
    → after.operating_state ≡ nmt.operating_state
    → boots more ≡ 0
    → Booted out nmt
    → Booted (out ++ more) after
silent-Booted out more nmt after e q (inl b) =
    inl (e ∙ b.0, omega (arith, boots-append out more, q, b.1))
silent-Booted out more nmt after e q (inr b) =
    inr (rw e b.0, omega (arith, boots-append out more, q, b.1))

first_boot :
    (out : List Event) (nmt : Nmt)
    → Booted out nmt
    → boots out + (if same_state nmt.operating_state initializing then 1 else 0) ≡ 1
unfolding state_code
first_boot out nmt (inl b) = rw (b.0, b.1) refl
first_boot out nmt (inr b) = rw (b.0, b.1) refl

Step-Booted :
    (out : List Event) (nmt : Nmt) (more : List Event) (after : Nmt)
    → Step nmt more after
    → Booted out nmt
    → Booted (out ++ more) after
unfolding receive write_1017 send_command
Step-Booted out nmt _ _ (received _ bytes dlc) b =
    elim (Bool-cases
      ((dlc == 2) && ((get_or bytes 1 0 == 0) || (get_or bytes 1 0 == nmt.node_id)))) [
        | inl e ↦ rw e (
            silent-Booted out _ nmt (record nmt { internal_command = get_or bytes 0 0 }) refl
              (one_call nmt.has_signal_pre) b)
        | inr e ↦ rw e (silent-Booted out [] nmt nmt refl refl b)
      ]
Step-Booted out nmt _ _ (written _ sub_index count value) b =
    elim (Bool-cases (not (sub_index == 0) || not (count == 2))) [
      | inl e ↦ rw e (silent-Booted out [] nmt nmt refl refl b)
      | inr e ↦ rw e (
          silent-Booted out [] nmt
            (record nmt { hb_producer_time_us = u32 (value * 1000); hb_producer_timer = 0 }) refl
            refl b)
    ]
Step-Booted out nmt _ _ (commanded _ command) b =
    silent-Booted out [] nmt (record nmt { internal_command = command }) refl refl b
Step-Booted out nmt _ _ (sent _ command node_id) b =
    elim (Bool-cases ((node_id == 0) || (node_id == nmt.node_id))) [
      | inl e ↦
          rw e (silent-Booted out _ nmt (record nmt { internal_command = command }) refl refl b)
      | inr e ↦ rw e (silent-Booted out _ nmt nmt refl refl b)
    ]
Step-Booted out nmt _ _ (processed _ em dt timer_next) b =
    let p = process-boots nmt em dt timer_next in
    inr (p.0, boots-append out _ ∙ ap (λ n. boots out + n) p.1 ∙ first_boot out nmt b)

-- Whatever calls are made on an NMT object after CO_NMT_init, it sends no boot-up message while it
-- is initializing, and exactly one once it has left that state, which it never enters again.
pub trace-Booted :
    (node_id control first time : ℕ) (out : List Event) (nmt : Nmt)
    → Trace (init node_id control first time) out nmt
    → Booted out nmt
unfolding init
trace-Booted node_id control first time _ _ none_yet = inl (refl, refl)
trace-Booted node_id control first time _ _ (next out more nmt after t s) =
    Step-Booted out nmt more after s (trace-Booted node_id control first time out nmt t)
