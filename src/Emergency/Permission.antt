-- ===== src/Emergency/Permission.antt =====
-- When CO_EM_process sends a message: the transmit buffer, the queue and the inhibit time.
use e_rob_canopen_node_demo.Base.{
  ℕ, ◌+◌, ◌≤◌, ◌<◌, ◌≡◌, ◌≢◌, refl, sym, ◌∙◌, [], Bool, true, false, inl, inr, arith, ltb, leb,
  add32, u32, Bool-cases, ◌⊎◌,
}
use e_rob_canopen_node_demo.Emergency.{Em}
use e_rob_canopen_node_demo.Emergency.Process.{inhibit_tick, may_send}
use e_rob_canopen_node_demo.Emergency.Queue.{IsValid, pending}
use e_rob_canopen_node_demo.Emergency.Oldest.{empty_pointers, waiting_pointers}

pub waits-IsValid : (dt : ℕ) (em : Em) → IsValid em → IsValid (inhibit_tick dt em)
waits-IsValid dt em v = elim (Bool-cases (ltb em.inhibit_em_timer em.inhibit_em_time_us)) [
  | inl e ↦ rw e v
  | inr e ↦ rw e v
]

pub may_send-pointers :
    (buffer_full : Bool) (em : Em)
    → may_send buffer_full em ≡ true
    → em.fifo_pp_ptr ≢ em.fifo_wr_ptr
may_send-pointers true em h e = cc
may_send-pointers false em h e = ground arith

-- The inhibit time is over, or the time since the last call ends it.
abbrev pub IsOver : Em → ℕ → Type 0
IsOver em dt =
    (em.inhibit_em_time_us ≤ em.inhibit_em_timer)
    ⊎ ((em.inhibit_em_timer < em.inhibit_em_time_us)
        × (em.inhibit_em_time_us ≤ u32 (em.inhibit_em_timer + dt)))

-- A free transmit buffer, a waiting message, and the inhibit time over.
pub record CanSend (buffer_full : Bool) (em : Em) (dt : ℕ) : Type 0 where
  pub free : buffer_full ≡ false
  pub waiting : pending em ≢ []
  pub over : IsOver em dt

IsOver-tick :
    (em : Em) (dt : ℕ)
    → IsOver em dt
    → leb (inhibit_tick dt em).inhibit_em_time_us (inhibit_tick dt em).inhibit_em_timer ≡ true
IsOver-tick em dt h = elim (Bool-cases (ltb em.inhibit_em_timer em.inhibit_em_time_us)) [
  | inl e ↦ rw e (ground arith)
  | inr e ↦ rw e (ground arith)
]

tick-IsOver :
    (em : Em) (dt : ℕ)
    → leb (inhibit_tick dt em).inhibit_em_time_us (inhibit_tick dt em).inhibit_em_timer ≡ true
    → IsOver em dt
tick-IsOver em dt h = elim (Bool-cases (ltb em.inhibit_em_timer em.inhibit_em_time_us)) [
  | inl e ↦
      let same : leb (inhibit_tick dt em).inhibit_em_time_us (inhibit_tick dt em).inhibit_em_timer
          ≡ leb em.inhibit_em_time_us (add32 em.inhibit_em_timer dt) =
        rw e refl in
      let g : leb em.inhibit_em_time_us (add32 em.inhibit_em_timer dt) ≡ true = sym same ∙ h in
      inr (ground arith, ground arith)
  | inr e ↦ inl (ground arith)
]

pub waits-pending : (dt : ℕ) (em : Em) → pending (inhibit_tick dt em) ≡ pending em
waits-pending dt em = elim (Bool-cases (ltb em.inhibit_em_timer em.inhibit_em_time_us)) [
  | inl e ↦ rw e refl
  | inr e ↦ rw e refl
]

-- All that a message needs is what the code tests.
pub may_send-CanSend :
    (buffer_full : Bool) (em : Em) (dt : ℕ)
    → CanSend buffer_full em dt
    → may_send buffer_full (inhibit_tick dt em) ≡ true
may_send-CanSend true em dt c = (let e = c.free in absurd cc)
may_send-CanSend false em dt c =
    let ne =
      waiting_pointers (inhibit_tick dt em) (λ h. c.waiting (sym (waits-pending dt em) ∙ h)) in
    let o = IsOver-tick em dt c.over in ground arith

pub CanSend-may_send :
    (buffer_full : Bool) (em : Em) (dt : ℕ)
    → IsValid em
    → may_send buffer_full (inhibit_tick dt em) ≡ true
    → CanSend buffer_full em dt
CanSend-may_send true em dt v h = absurd cc
CanSend-may_send false em dt v h =
    let ne = may_send-pointers false (inhibit_tick dt em) h in
    record {
      free = refl;
      waiting = λ e.
          ne
            (empty_pointers (inhibit_tick dt em) (waits-IsValid dt em v) (waits-pending dt em ∙ e));
      over = tick-IsOver em dt (ground arith);
    }

-- The error register has no part in it.
pub CanSend-register :
    (buffer_full : Bool) (em : Em) (dt r : ℕ)
    → CanSend buffer_full em dt
    → CanSend buffer_full (record em { error_register = r }) dt
CanSend-register buffer_full em dt r c = record {
  free = c.free;
  waiting = c.waiting;
  over = c.over;
}

pub register-CanSend :
    (buffer_full : Bool) (em : Em) (dt r : ℕ)
    → CanSend buffer_full (record em { error_register = r }) dt
    → CanSend buffer_full em dt
register-CanSend buffer_full em dt r c = record {
  free = c.free;
  waiting = c.waiting;
  over = c.over;
}
