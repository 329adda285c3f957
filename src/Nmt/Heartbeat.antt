-- ===== src/Nmt/Heartbeat.antt =====
-- When CO_NMT_process sends a heartbeat.
use e_rob_canopen_node_demo.Base.{
  ℕ, ◌+◌, ◌-◌, ◌≤◌, ◌<◌, ◌≡◌, ◌≢◌, inl, inr, refl, sym, ap, ◌∙◌, List, [], ◌∷◌, ◌++◌, true, false,
  not, ◌&&◌, ◌||◌, arith, ◌==◌, get_or, if◌then◌else◌, Bool-cases,
}
use e_rob_canopen_node_demo.Emergency.{Em}
use e_rob_canopen_node_demo.Nmt.{
  State, initializing, state_code, same_state, Nmt, Event, heartbeat, receive, write_1017, init,
  is_due, produce, obey, react, has_nmt_error, process, send_command, timer_left, reset_not,
}
use e_rob_canopen_node_demo.Nmt.Steps.{
  Step, received, written, commanded, sent, processed, Trace, none_yet, next,
}

-- The timer never exceeds the producer time.
abbrev pub IsTimed : Nmt → Type 0
IsTimed nmt = nmt.hb_producer_timer ≤ nmt.hb_producer_time_us

produce-IsTimed : (nmt : Nmt) (dt : ℕ) → IsTimed nmt → IsTimed (produce nmt dt).0
unfolding produce
produce-IsTimed nmt dt h = elim (Bool-cases (is_due nmt dt)) [
  | inr e ↦ rw e (ground arith)
  | inl e ↦ elim (Bool-cases (same_state nmt.operating_state initializing)) [
    | inl f ↦ rw (e, f) (ground arith)
    | inr f ↦ rw (e, f) (omega arith)
  ]
]

Step-IsTimed :
    (nmt : Nmt) (out : List Event) (after : Nmt) → Step nmt out after → IsTimed nmt → IsTimed after
unfolding receive write_1017 send_command process
Step-IsTimed nmt _ _ (received _ bytes dlc) h =
    elim (Bool-cases
      ((dlc == 2) && ((get_or bytes 1 0 == 0) || (get_or bytes 1 0 == nmt.node_id)))) [
        | inl e ↦ rw e h
        | inr e ↦ rw e h
      ]
Step-IsTimed nmt _ _ (written _ sub_index count value) h =
    elim (Bool-cases (not (sub_index == 0) || not (count == 2))) [
      | inl e ↦ rw e h
      | inr e ↦ rw e (omega arith)
    ]
Step-IsTimed nmt _ _ (commanded _ command) h = h
Step-IsTimed nmt _ _ (sent _ command node_id) h =
    elim (Bool-cases ((node_id == 0) || (node_id == nmt.node_id))) [
      | inl e ↦ rw e h
      | inr e ↦ rw e h
    ]
Step-IsTimed nmt _ _ (processed _ em dt timer_next) h = produce-IsTimed nmt dt h

-- After any calls on an initialised object, the time to the next heartbeat is at most the producer
-- heartbeat time.
pub trace-IsTimed :
    (node_id control first time : ℕ) (out : List Event) (nmt : Nmt)
    → Trace (init node_id control first time) out nmt
    → IsTimed nmt
unfolding init
trace-IsTimed node_id control first time _ _ none_yet = ground arith
trace-IsTimed node_id control first time _ _ (next out more nmt after t s) =
    Step-IsTimed nmt more after s (trace-IsTimed node_id control first time out nmt t)

-- A node whose state nothing changes, with its heartbeat producer enabled.
pub record IsSteady (nmt : Nmt) (em : Em) : Type 0 where
  pub started : same_state nmt.operating_state initializing ≡ false
  pub settled : nmt.operating_state_prev ≡ nmt.operating_state
  pub no_command : nmt.internal_command ≡ 0
  pub no_reaction :
      react nmt.nmt_control (has_nmt_error nmt.nmt_control em) nmt.operating_state
      ≡ nmt.operating_state
  pub enabled : nmt.hb_producer_time_us ≢ 0

same_state_self : (s : State) → same_state s s ≡ true
same_state_self s = ground arith

steady-due :
    (nmt : Nmt) (em : Em) (dt : ℕ)
    → IsSteady nmt em
    → is_due nmt dt ≡ (timer_left nmt.hb_producer_timer dt == 0)
unfolding is_due
steady-due nmt em dt s =
    let e : (nmt.hb_producer_time_us == 0) ≡ false = ground (arith, s.enabled) in
    rw (s.started, s.settled, same_state_self nmt.operating_state, e) (ground arith)

obey-nothing : (s : State) → obey 0 s ≡ (s, reset_not)
unfolding obey
obey-nothing s = refl

steady-process :
    (nmt : Nmt) (em : Em) (dt timer_next : ℕ)
    → IsSteady nmt em
    → ((process nmt em dt timer_next).nmt ≡ record nmt {
      hb_producer_timer =
          if timer_left nmt.hb_producer_timer dt == 0
          then nmt.hb_producer_time_us
          else timer_left nmt.hb_producer_timer dt;
    })
      × ((process nmt em dt timer_next).events ≡ (
          if timer_left nmt.hb_producer_timer dt == 0
          then heartbeat (state_code nmt.operating_state) ∷ []
          else []))
unfolding process produce react obey
steady-process nmt em dt timer_next s =
    elim (Bool-cases (timer_left nmt.hb_producer_timer dt == 0)) [
      | inl e ↦
          let due : is_due nmt dt ≡ true = steady-due nmt em dt s ∙ e in
          rw (due, e, s.started, s.no_command, s.no_reaction)
            (
              ap
                  (λ p. record nmt {
                    operating_state_prev = p;
                    internal_command = 0;
                    hb_producer_timer = nmt.hb_producer_time_us;
                  })
                  (sym s.settled),
              rw (same_state_self nmt.operating_state) refl,
            )
      | inr e ↦
          let due : is_due nmt dt ≡ false = steady-due nmt em dt s ∙ e in
          rw (due, e, s.started, s.no_command, s.no_reaction)
            (
              ap
                  (λ p. record nmt {
                    operating_state_prev = p;
                    internal_command = 0;
                    hb_producer_timer = timer_left nmt.hb_producer_timer dt;
                  })
                  (sym s.settled),
              rw (same_state_self nmt.operating_state) refl,
            )
    ]

-- Calls of CO_NMT_process, each after some time.
abbrev pub elapse : Nmt → Em → List ℕ → Nmt × List Event
elapse nmt em [] = (nmt, [])
elapse nmt em (dt ∷ dts) =
    let r = process nmt em dt 0 in let rest = elapse r.nmt em dts in (rest.0, r.events ++ rest.1)

abbrev pub total : List ℕ → ℕ
total [] = 0
total (dt ∷ dts) = dt + total dts

IsSteady-timer :
    (nmt : Nmt) (em : Em) (t : ℕ)
    → IsSteady nmt em
    → IsSteady (record nmt { hb_producer_timer = t }) em
IsSteady-timer nmt em t s = record {
  started = s.started;
  settled = s.settled;
  no_command = s.no_command;
  no_reaction = s.no_reaction;
  enabled = s.enabled;
}

-- On a steady node with the heartbeat producer enabled, calls of CO_NMT_process send nothing until
-- the time to the next heartbeat is over; the first call at that time or later sends one heartbeat
-- with the node's state, and the producer heartbeat time starts again.
pub elapse-heartbeat :
    (dts : List ℕ) (nmt : Nmt) (em : Em) (dt : ℕ)
    → IsSteady nmt em
    → total dts < nmt.hb_producer_timer
    → nmt.hb_producer_timer ≤ total dts + dt
    → elapse nmt em (dts ++ dt ∷ []) ≡ (
      record nmt { hb_producer_timer = nmt.hb_producer_time_us },
      heartbeat (state_code nmt.operating_state) ∷ [],
    )
elapse-heartbeat [] nmt em dt s p q =
    let e : (timer_left nmt.hb_producer_timer dt == 0) ≡ true = ground arith in
    let r = steady-process nmt em dt 0 s in rw (r.0, r.1, e) refl
elapse-heartbeat (d ∷ dts) nmt em dt s p q =
    let left : timer_left nmt.hb_producer_timer d ≡ nmt.hb_producer_timer - d = ground arith in
    let e : (timer_left nmt.hb_producer_timer d == 0) ≡ false = ground arith in
    let r = steady-process nmt em d 0 s in
    let rest =
      elapse-heartbeat dts (record nmt { hb_producer_timer = nmt.hb_producer_timer - d }) em dt
        (IsSteady-timer nmt em _ s) (omega arith) (omega arith) in
    rw (r.0, r.1, e, left, rest) refl
