-- ===== src/Emergency/Events.antt =====
-- The driver's errors in CO_EM_process: each report keeps a valid queue and puts nothing on the bus.
use e_rob_canopen_node_demo.Base.{
  ℕ, ◌≡◌, refl, ap, ◌∙◌, List, [], ◌∷◌, ◌++◌, Bool, true, false, ◌&&◌, inl, inr, ◌==◌, Bool-cases,
  All, append_assoc, bit_xor, has,
}
use e_rob_canopen_node_demo.Emergency.{Em, Event, error, is_error}
use e_rob_canopen_node_demo.Emergency.Process.{State, report, report_changed, driver_errors}
use e_rob_canopen_node_demo.Emergency.StatusBits.{target, HasBytes, error-HasBytes, either}
use e_rob_canopen_node_demo.Emergency.Queue.{IsValid, error-Queued, error-IsValid}

-- A call that puts no emergency message on the bus.
abbrev pub is_other : Event → Bool
is_other (Event.can_send m) = false
is_other Event.signal_pre = true
is_other (Event.signal_rx a b c d e) = true

abbrev pub IsOther : Event → Type 0
IsOther e = is_other e ≡ true

-- CO_error adds calls of the task's callback only.
pub record Grown (out after : List Event) : Type 0 where
  pub tail : List Event
  pub grows : after ≡ out ++ tail
  pub other : All IsOther tail

pub error-IsOther :
    (em : Em) (value : Bool) (bit code info : ℕ)
    → IsValid em
    → All IsOther (error em value bit code info).1
error-IsOther em value bit code info v =
    let q = error-Queued em value bit code info v in
    elim (either (is_error em (target bit)) value) [
      | inl h ↦ rw (q.repeated h) tt
      | inr h ↦ rw (q.signal h) (elim (Bool-cases (em.has_signal_pre && em.producer_enabled)) [
        | inl e ↦ rw e (refl, tt)
        | inr e ↦ rw e tt
      ])
    ]

pub report-Grown :
    (em : Em) (value : Bool) (bit code : ℕ) (out : List Event)
    → IsValid em
    → Grown out (report value bit code (em, out)).1
report-Grown em value bit code out v = record {
  tail = (error em value bit code 0).1;
  grows = refl;
  other = error-IsOther em value bit code 0 v;
}

pub All-append : (xs ys : List Event) → All IsOther xs → All IsOther ys → All IsOther (xs ++ ys)
All-append [] ys p q = q
All-append (x ∷ xs) ys p q = (p.0, All-append xs ys p.1 q)

-- What the error reports of a longer function leave: a valid queue, and calls of the callback only.
pub record Kept (before after : State) : Type 0 where
  pub valid : IsValid after.0
  pub bytes : HasBytes after.0
  pub grown : Grown before.1 after.1

report_changed-Kept :
    (changed status mask bit code : ℕ) (before st : State)
    → Kept before st
    → Kept before (report_changed changed status mask bit code st)
report_changed-Kept changed status mask bit code before st k =
    elim (Bool-cases (has changed mask)) [
      | inr e ↦ rw e k
      | inl e ↦
          let value = has status mask in
          let other = error-IsOther st.0 value bit code 0 k.valid in
          rw e (record {
            valid = error-IsValid st.0 value bit code 0 k.valid;
            bytes = error-HasBytes st.0 value bit code 0 k.bytes;
            grown = record {
              tail = k.grown.tail ++ (error st.0 value bit code 0).1;
              grows =
                  ap (λ o. o ++ (error st.0 value bit code 0).1) k.grown.grows
                  ∙ append_assoc before.1 k.grown.tail _;
              other = All-append k.grown.tail _ k.grown.other other;
            };
          })
    ]

pub driver_errors-Kept :
    (em : Em) (status : ℕ) → IsValid em → HasBytes em → Kept (em, []) (driver_errors em status)
unfolding driver_errors
driver_errors-Kept em status v b =
    let start = record em { can_error_status_old = status } in
    let changed = bit_xor status em.can_error_status_old in
    let before : State = (em, []) in
    let same : Kept before before = record {
      valid = v;
      bytes = b;
      grown = record { tail = []; grows = refl; other = tt };
    } in
    let first : Kept before (start, []) = record {
      valid = v;
      bytes = b;
      grown = record { tail = []; grows = refl; other = tt };
    } in
    elim (Bool-cases (status == em.can_error_status_old)) [
      | inl e ↦ rw e same
      | inr e ↦ rw e (
          report_changed-Kept changed status 0x0800 0x13 0x8110 before _ (
            report_changed-Kept changed status 0x0200 0x06 0x8120 before _ (
              report_changed-Kept changed status 0x0080 0x15 0x8100 before _ (
                report_changed-Kept changed status 0x0008 0x14 0x8110 before _ (
                  report_changed-Kept changed status 0x0004 0x12 0x8140 before _ (
                    report_changed-Kept changed status 0x0002 0x07 0x8120 before _ (
                      report_changed-Kept changed status 0x0101 0x01 0x0000 before (start, [])
                        first)))))))
    ]
