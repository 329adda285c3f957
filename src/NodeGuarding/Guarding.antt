-- ===== src/NodeGuarding/Guarding.antt =====
-- A sequence of polls, from the initialisation of both objects on.
use e_rob_canopen_node_demo.Base.{
  ℕ, zero, suc, ◌+◌, ◌-◌, ◌*◌, ◌≤◌, ◌<◌, ◌≡◌, refl, ◌⊎◌, inl, inr, bit_or, List, [], ◌∷◌, ◌++◌,
  Bool, true, false, not, ltb, if◌then◌else◌, u32, arith, Bool-cases,
}
use e_rob_canopen_node_demo.NodeGuarding.{
  Event, answered, requested, reported, cleared, can_id_heartbeat,
}
use e_rob_canopen_node_demo.NodeGuarding.Slave
use e_rob_canopen_node_demo.NodeGuarding.Slave.{Slave}
use e_rob_canopen_node_demo.NodeGuarding.Master
use e_rob_canopen_node_demo.NodeGuarding.Master.{Node, is_enabled}
use e_rob_canopen_node_demo.NodeGuarding.Polling.{
  Pair, poll, is_quiet, asks, is_known, poll-asks, poll-waits,
}

quiet_nothing : is_quiet [] ≡ true
unfolding is_quiet
quiet_nothing = refl

-- The two objects agree: the next answer has the toggle bit that the master expects, the last one has
-- come, and the life time of the slave does not end before the next request.
pub record Guarded (g life : ℕ) (n : Node) (s : Slave) : Type 0 where
  pub agree : n.toggle ≡ (if s.toggle then 0x80 else 0)
  pub heard : n.response_received ≡ true
  pub free : n.can_tx_was_busy ≡ false
  pub ready : s.can_rx_new ≡ false
  pub alive : s.life_time_timeout ≡ false
  pub guard : n.guard_time_us ≡ g
  pub named : is_enabled n ≡ true
  pub lives : s.life_time_us ≡ life
  pub timers : (s.life_timer ≡ 0) ⊎ (s.life_timer + g ≡ n.guard_timer + life)

flips : (toggle : Bool) → ◌≡◌ {A = ℕ} (if toggle then 0 else 0x80) (if not toggle then 0x80 else 0)
flips true = refl
flips false = refl

quiet-asks :
    (n : Node) (known : Bool) (byte : ℕ) → is_quiet (asks n known ++ (answered byte ∷ [])) ≡ true
unfolding is_quiet
quiet-asks n true byte = refl
quiet-asks n false byte = refl

timers-wait :
    (g life guard_timer life_timer dt : ℕ)
    → g ≤ life
    → dt < guard_timer
    → (life_timer ≡ 0) ⊎ (life_timer + g ≡ guard_timer + life)
    → ((life_timer ≡ 0) ⊎ (dt < life_timer))
      × ((life_timer - dt ≡ 0) ⊎ (life_timer - dt + g ≡ guard_timer - dt + life))
timers-wait g life guard_timer life_timer dt p l (inl z) = (inl z, inl (omega arith))
timers-wait g life guard_timer life_timer dt p l (inr z) = (inr (omega arith), inr (omega arith))

poll-Guarded :
    (g life : ℕ) (n : Node) (s : Slave) (state dt : ℕ)
    → g ≤ life
    → state < 128
    → Guarded g life n s
    → let r = poll n s state dt in Guarded g life r.node r.slave × (is_quiet r.events ≡ true)
poll-Guarded g life n s state dt p h k = elim (Bool-cases (ltb dt n.guard_timer)) [
  | inl l ↦
      let t = timers-wait g life n.guard_timer s.life_timer dt p (ground arith) k.timers in
      rw (poll-waits n s state dt k.named (ground arith) k.ready t.0) (
        record {
          agree = k.agree;
          heard = k.heard;
          free = k.free;
          ready = k.ready;
          alive = k.alive;
          guard = k.guard;
          named = k.named;
          lives = k.lives;
          timers = t.1;
        },
        quiet_nothing,
      )
  | inr l ↦ rw (poll-asks n s state dt k.named (ground arith) k.heard k.free k.agree k.alive h) (
    record {
      agree = flips s.toggle;
      heard = refl;
      free = refl;
      ready = refl;
      alive = refl;
      guard = k.guard;
      named = k.named;
      lives = k.lives;
      timers = inr (omega (arith, k.guard, k.lives));
    },
    quiet-asks n (is_known n) (if s.toggle then bit_or state 0x80 else state),
  )
]

-- Polls one after another, each with the NMT state of the slave and the time since the last.
unfoldable pub polls : List (ℕ × ℕ) → Node → Slave → Pair
polls [] n s = record { node = n; slave = s; events = [] }
polls ((state, dt) ∷ rest) n s =
    let r = poll n s state dt in
    let out = polls rest r.node r.slave in
    record { node = out.node; slave = out.slave; events = r.events ++ out.events }

abbrev pub AreStates : List (ℕ × ℕ) → Type 0
AreStates [] = Unit {0}
AreStates ((state, dt) ∷ rest) = (state < 128) × AreStates rest

is_quiet_append :
    (es fs : List Event) → is_quiet es ≡ true → is_quiet fs ≡ true → is_quiet (es ++ fs) ≡ true
unfolding is_quiet
is_quiet_append [] fs p q = q
is_quiet_append (answered b ∷ es) fs p q = is_quiet_append es fs p q
is_quiet_append (requested i ∷ es) fs p q = is_quiet_append es fs p q
is_quiet_append (cleared i ∷ es) fs p q = is_quiet_append es fs p q
is_quiet_append (reported i ∷ es) fs p q = absurd (ground arith)

Guarded-polls :
    (g life : ℕ) (n : Node) (s : Slave) (calls : List (ℕ × ℕ))
    → g ≤ life
    → AreStates calls
    → Guarded g life n s
    → let r = polls calls n s in Guarded g life r.node r.slave × (is_quiet r.events ≡ true)
unfolding polls
Guarded-polls g life n s [] p h k = (k, quiet_nothing)
Guarded-polls g life n s ((state, dt) ∷ rest) p (h, hs) k =
    let one = poll-Guarded g life n s state dt p h k in
    let more =
      Guarded-polls g life (poll n s state dt).node (poll n s state dt).slave rest p hs one.0 in
    (more.0, is_quiet_append (poll n s state dt).events _ one.1 more.1)

scaled : (x f : ℕ) → 0 < f → x ≤ x * f
scaled x zero p = absurd (omega arith)
scaled x (suc f) p = let e : x * suc f ≡ x * f + x = omega arith in omega arith

-- A master that guards one node and the slave with that node-ID, both as initialised, with a guard time
-- of at least 1 ms, a life time factor of at least 1 and a life time below 2^32 us, over a bus that
-- delivers every request and answer at once: over every sequence of calls, with any times and any NMT
-- states of the slave, neither of them reports an error, the toggle bits stay in step, no request goes
-- unanswered, and the life time of the slave never ends.
pub polls-Guarded :
    (node_id guard_time_ms factor : ℕ) (calls : List (ℕ × ℕ))
    → 0 < node_id
    → 0 < guard_time_ms
    → 0 < factor
    → guard_time_ms * 1000 * factor < 0x100000000
    → AreStates calls
    → let r =
        polls calls (Master.init_node node_id guard_time_ms) (Slave.init guard_time_ms factor) in
      Guarded (guard_time_ms * 1000) (guard_time_ms * 1000 * factor) r.node r.slave
      × (is_quiet r.events ≡ true)
polls-Guarded node_id guard_time_ms factor calls i g f w h =
    let u : u32 (guard_time_ms * 1000 * factor) ≡ guard_time_ms * 1000 * factor = omega arith in
    let a : ltb 0 (guard_time_ms * 1000) ≡ true = ground arith in
    let b : ltb can_id_heartbeat (can_id_heartbeat + node_id) ≡ true = ground arith in
    Guarded-polls (guard_time_ms * 1000) (guard_time_ms * 1000 * factor)
      (Master.init_node node_id guard_time_ms) (Slave.init guard_time_ms factor) calls
      (scaled (guard_time_ms * 1000) factor f) h
      (record {
        agree = refl;
        heard = refl;
        free = refl;
        ready = refl;
        alive = refl;
        guard = refl;
        named = rw (a, b) refl;
        lives = u;
        timers = inl refl;
      })
