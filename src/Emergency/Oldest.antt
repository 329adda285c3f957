-- ===== src/Emergency/Oldest.antt =====
-- CO_EM_process takes the oldest message from the queue and sends it.
use e_rob_canopen_node_demo.Base.{
  ℕ, suc, ◌+◌, ◌*◌, ◌-◌, ◌/◌, ◌≤◌, ◌<◌, ◌≡◌, ◌≢◌, refl, sym, ap, ◌∙◌, List, [], ◌∷◌, ◌++◌, true,
  false, ◌&&◌, inl, inr, arith, get_or, set, length, length-set, ltb, ◌==◌, if◌then◌else◌, u8,
  bit_or, u16, Bool-cases, All, append_assoc, append-nil,
}
use e_rob_canopen_node_demo.Base.Ring
use e_rob_canopen_node_demo.Emergency.{Em, Msg, no_msg, Event, is_error}
use e_rob_canopen_node_demo.Emergency.Process.{State, report, report_overflow, oldest, send_oldest}
use e_rob_canopen_node_demo.Emergency.StatusBits.{message}
use e_rob_canopen_node_demo.Emergency.Events.{IsOther, Grown, All-append, report-Grown}
use e_rob_canopen_node_demo.Emergency.Queue.{
  IsValid, pending, length-pending, error-Queued, error-IsValid,
}

-- The state once the oldest message is sent, before the overflow is looked at.
abbrev taken : Em → Msg → Em
taken em m = record em {
  inhibit_em_timer = 0;
  fifo = set em.fifo em.fifo_pp_ptr m;
  fifo_pp_ptr = if ltb (u8 (em.fifo_pp_ptr + 1)) em.fifo_size then u8 (em.fifo_pp_ptr + 1) else 0;
}

taken-pointer :
    (em : Em)
    → IsValid em
    → (if ltb (u8 (em.fifo_pp_ptr + 1)) em.fifo_size then u8 (em.fifo_pp_ptr + 1) else 0)
      ≡ Ring.next_index em.fifo_size em.fifo_pp_ptr
taken-pointer em v = ground (arith, v)

taken-IsValid : (em : Em) (m : Msg) → IsValid em → IsValid (taken em m)
taken-IsValid em m v = rw (taken-pointer em v) (
  v.0,
  v.1,
  omega (arith, v, length-set em.fifo em.fifo_pp_ptr m),
  v.3,
  Ring.next_index-lt em.fifo_size em.fifo_pp_ptr v.4,
  v.5,
)

taken-pending :
    (em : Em) (m : Msg)
    → IsValid em
    → em.fifo_pp_ptr ≢ em.fifo_wr_ptr
    → pending em ≡ get_or em.fifo em.fifo_pp_ptr no_msg ∷ pending (taken em m)
taken-pending em m v ne =
    let next = Ring.next_index em.fifo_size em.fifo_pp_ptr in
    let inside = Ring.next_index-lt em.fifo_size em.fifo_pp_ptr v.4 in
    let d = Ring.distance em.fifo_size next em.fifo_wr_ptr in
    let outside : d ≤ Ring.distance em.fifo_size next em.fifo_pp_ptr =
      Ring.distance-round em.fifo_size em.fifo_pp_ptr em.fifo_wr_ptr v.4 v.3 ne in
    rw
      (
        taken-pointer em v,
        Ring.span-set_outside no_msg em.fifo em.fifo_size m em.fifo_pp_ptr next d inside v.4
            outside,
      )
      (Ring.span-next no_msg em.fifo em.fifo_size em.fifo_pp_ptr em.fifo_wr_ptr v.4 v.3 ne)

-- What is left once a message is sent: the queue without it, and behind the others the report or the
-- reset of the overflow, where one is due.
pub record Sent (register : ℕ) (st out : State) : Type 0 where
  pub first : Msg
  pub rest : List Msg
  pub front : pending st.0 ≡ first ∷ rest
  pub others : List Event
  pub sends :
      out.1
      ≡ st.1
        ++ (Event.can_send (record first { msg = bit_or first.msg (register * 65536) }) ∷ others)
  pub once : All IsOther others
  pub valid : IsValid out.0
  pub plain : st.0.fifo_overflow ≡ 0 → (pending out.0 ≡ rest) × (out.0.inhibit_em_timer ≡ 0)
  pub overflow :
      st.0.fifo_overflow ≡ 1
      → is_error st.0 0x20 ≡ false
      → (pending out.0 ≡ rest ++ message true 0x20 0x1000 0 ∷ []) × (out.0.fifo_overflow ≡ 2)
  pub known :
      st.0.fifo_overflow ≡ 1
      → is_error st.0 0x20 ≡ true
      → (pending out.0 ≡ rest) × (out.0.fifo_overflow ≡ 2)
  pub held : st.0.fifo_overflow ≡ 2 → rest ≢ [] → (pending out.0 ≡ rest) × (out.0.fifo_overflow ≡ 2)
  pub recovered :
      st.0.fifo_overflow ≡ 2
      → rest ≡ []
      → is_error st.0 0x20 ≡ true
      → (pending out.0 ≡ message false 0x20 0 0 ∷ []) × (out.0.fifo_overflow ≡ 0)

overflow-none :
    (em : Em) (out : List Event) → em.fifo_overflow ≡ 0 → report_overflow (em, out) ≡ (em, out)
unfolding report_overflow
overflow-none em out h = rw h refl

overflow-first :
    (em : Em) (out : List Event)
    → em.fifo_overflow ≡ 1
    → report_overflow (em, out) ≡ report true 0x20 0x1000 (record em { fifo_overflow = 2 }, out)
unfolding report_overflow
overflow-first em out h = rw h refl

overflow-last :
    (em : Em) (out : List Event)
    → em.fifo_overflow ≡ 2
    → em.fifo_pp_ptr ≡ em.fifo_wr_ptr
    → report_overflow (em, out) ≡ report false 0x20 0x0000 (record em { fifo_overflow = 0 }, out)
unfolding report_overflow
overflow-last em out h e = rw h (ground arith)

overflow-waits :
    (em : Em) (out : List Event)
    → em.fifo_overflow ≡ 2
    → em.fifo_pp_ptr ≢ em.fifo_wr_ptr
    → report_overflow (em, out) ≡ (em, out)
unfolding report_overflow
overflow-waits em out h ne =
    let e : (em.fifo_pp_ptr == em.fifo_wr_ptr) ≡ false = ground arith in rw (h, e) refl

overflow-IsValid : (em : Em) (out : List Event) → IsValid em → IsValid (report_overflow (em, out)).0
unfolding report_overflow
overflow-IsValid em out v = elim (Bool-cases (em.fifo_overflow == 1)) [
  | inl e ↦ rw e (error-IsValid (record em { fifo_overflow = 2 }) true 0x20 0x1000 0 v)
  | inr e ↦ elim (Bool-cases ((em.fifo_overflow == 2) && (em.fifo_pp_ptr == em.fifo_wr_ptr))) [
    | inl f ↦ rw (e, f) (error-IsValid (record em { fifo_overflow = 0 }) false 0x20 0 0 v)
    | inr f ↦ rw (e, f) v
  ]
]

overflow-Grown : (em : Em) (out : List Event) → IsValid em → Grown out (report_overflow (em, out)).1
unfolding report_overflow
overflow-Grown em out v = elim (Bool-cases (em.fifo_overflow == 1)) [
  | inl e ↦ rw e (report-Grown (record em { fifo_overflow = 2 }) true 0x20 0x1000 out v)
  | inr e ↦ elim (Bool-cases ((em.fifo_overflow == 2) && (em.fifo_pp_ptr == em.fifo_wr_ptr))) [
    | inl f ↦ rw (e, f) (report-Grown (record em { fifo_overflow = 0 }) false 0x20 0 out v)
    | inr f ↦ rw (e, f) (record { tail = []; grows = sym (append-nil out); other = tt })
  ]
]

taken-is_error :
    (em : Em) (m : Msg) (mark bit : ℕ)
    → is_error (record (taken em m) { fifo_overflow = mark }) bit ≡ is_error em bit
unfolding is_error
taken-is_error em m mark bit = refl

pub empty_pointers : (em : Em) → IsValid em → pending em ≡ [] → em.fifo_pp_ptr ≡ em.fifo_wr_ptr
empty_pointers em v h =
    let l : length (pending em) ≡ 0 = ap length h in ground (arith, length-pending em, v)

no_message : {xs : List Msg} → length xs ≡ 0 → xs ≡ []
no_message {xs = []} h = refl
no_message {xs = x ∷ xs} h = absurd cc

pub waiting_pointers : (em : Em) → pending em ≢ [] → em.fifo_pp_ptr ≢ em.fifo_wr_ptr
waiting_pointers em n e = n (no_message (length-pending em ∙ ground (arith, e)))

own_report : Em → ℕ → Msg → List Event
own_report em register m =
    if em.has_signal_rx
    then Event.signal_rx 0 (u16 m.msg) register (m.msg / 16777216) m.info ∷ []
    else []

own_report-IsOther : (em : Em) (register : ℕ) (m : Msg) → All IsOther (own_report em register m)
unfolding own_report
own_report-IsOther em register m = elim (Bool-cases em.has_signal_rx) [
  | inl e ↦ rw e (refl, tt)
  | inr e ↦ rw e tt
]

send_oldest-eq :
    (em : Em) (register : ℕ) (out : List Event)
    → send_oldest register (em, out)
      ≡ report_overflow (
        taken em (oldest em register),
        out ++ (Event.can_send (oldest em register) ∷ own_report em register (oldest em register)),
      )
unfolding send_oldest own_report
send_oldest-eq em register out = refl

pub send_oldest-Sent :
    (em : Em) (register : ℕ) (out : List Event)
    → IsValid em
    → em.fifo_pp_ptr ≢ em.fifo_wr_ptr
    → Sent register (em, out) (send_oldest register (em, out))
send_oldest-Sent em register out v ne =
    let m = oldest em register in
    let own = own_report em register m in
    let start = out ++ (Event.can_send m ∷ own) in
    let em1 = taken em m in
    let v1 = taken-IsValid em m v in
    let grown = overflow-Grown em1 start v1 in
    let shorter : length (pending em1) < em.fifo_size - 1 =
      let l : length (pending em) ≡ suc (length (pending em1)) =
        ap length (taken-pending em m v ne) in
      omega (
        arith,
        l,
        length-pending em,
        Ring.distance-lt em.fifo_size em.fifo_pp_ptr em.fifo_wr_ptr v.4 v.3,
      ) in
    rw (send_oldest-eq em register out) (record {
      first = get_or em.fifo em.fifo_pp_ptr no_msg;
      rest = pending em1;
      front = taken-pending em m v ne;
      others = own ++ grown.tail;
      sends = grown.grows ∙ append_assoc out (Event.can_send m ∷ own) grown.tail;
      once = All-append own grown.tail (own_report-IsOther em register m) grown.other;
      valid = overflow-IsValid em1 start v1;
      plain = λ h. rw (overflow-none em1 start h) (refl, refl);
      overflow = λ h e. rw (overflow-first em1 start h) (
          ((error-Queued (record em1 { fifo_overflow = 2 }) true 0x20 0x1000 0 v1).changed
              (taken-is_error em m 2 0x20 ∙ e)).room
            shorter);
      known = λ h e. rw (overflow-first em1 start h) (
          let r =
            (error-Queued (record em1 { fifo_overflow = 2 }) true 0x20 0x1000 0 v1).repeated
              (taken-is_error em m 2 0x20 ∙ e) in
          rw r (refl, refl));
      held = λ h n. rw (overflow-waits em1 start h (waiting_pointers em1 n)) (refl, h);
      recovered = λ h n e. rw (overflow-last em1 start h (empty_pointers em1 v1 n)) (
          let r =
            ((error-Queued (record em1 { fifo_overflow = 0 }) false 0x20 0 0 v1).changed
                (taken-is_error em m 0 0x20 ∙ e)).room
              shorter in
          (r.0 ∙ ap (λ q. q ++ message false 0x20 0 0 ∷ []) n, r.1));
    })
