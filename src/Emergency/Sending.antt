-- ===== src/Emergency/Sending.antt =====
-- CO_EM_process sends the waiting messages in their order, one for each call.
use e_rob_canopen_node_demo.Base.{
  ℕ, ◌≡◌, refl, List, Bool, true, false, inl, inr, arith, leb, Bool-cases, ◌⊎◌, All,
}
use e_rob_canopen_node_demo.Emergency.{Em, Event}
use e_rob_canopen_node_demo.Emergency.Process.{
  State, driver_errors, calculate_register, inhibit_tick, may_send, ProcessOut, post_process,
  process,
}
use e_rob_canopen_node_demo.Emergency.StatusBits.{HasBytes}
use e_rob_canopen_node_demo.Emergency.Events.{IsOther, driver_errors-Kept}
use e_rob_canopen_node_demo.Emergency.Queue.{IsValid, pending}
use e_rob_canopen_node_demo.Emergency.Oldest.{Sent, send_oldest-Sent}
use e_rob_canopen_node_demo.Emergency.Permission.{
  CanSend, waits-IsValid, waits-pending, may_send-pointers, may_send-CanSend, CanSend-may_send,
  CanSend-register, register-CanSend,
}

-- The state in which CO_EM_process decides whether to send.
abbrev pub ready : Em → ℕ → ℕ → State
ready em dt status =
    let st = driver_errors em status in
    (inhibit_tick dt (record st.0 { error_register = calculate_register st.0 }), st.1)

-- What CO_EM_process leaves: a message is sent when the node is operational and all that a message
-- needs is there, and none when the node is not operational or any of it is missing.
pub record Processed (em : Em) (operational : Bool) (dt status : ℕ) (buffer_full : Bool)
    (out : ProcessOut) : Type 0 where
  pub valid : IsValid out.em
  pub sent :
      operational ≡ true
      → CanSend buffer_full (driver_errors em status).0 dt
      → Sent
          (calculate_register (driver_errors em status).0)
          (ready em dt status)
          (out.em, out.events)
  pub silent :
      (operational ≡ false) ⊎ ¬ CanSend buffer_full (driver_errors em status).0 dt
      → (pending out.em ≡ pending (driver_errors em status).0) × All IsOther out.events

-- The same for the part of CO_EM_process that an operational node goes through.
record Decided (register dt : ℕ) (buffer_full : Bool) (st : State) (out : ProcessOut) : Type 0 where
  valid : IsValid out.em
  sent :
      CanSend buffer_full st.0 dt → Sent register (inhibit_tick dt st.0, st.1) (out.em, out.events)
  silent : ¬ CanSend buffer_full st.0 dt → (pending out.em ≡ pending st.0) × (out.events ≡ st.1)

post_process-Decided :
    (register dt next : ℕ) (buffer_full : Bool) (em : Em) (out : List Event)
    → IsValid em
    → Decided register dt buffer_full
        (em, out)
        (post_process register dt buffer_full next (em, out))
unfolding post_process
post_process-Decided register dt next buffer_full em out v =
    let two : leb 2 em.fifo_size ≡ true = ground arith in
    let w = waits-IsValid dt em v in
    elim (Bool-cases (may_send buffer_full (inhibit_tick dt em))) [
      | inl e ↦
          let s =
            send_oldest-Sent (inhibit_tick dt em) register out w
              (may_send-pointers buffer_full (inhibit_tick dt em) e) in
          rw (two, e)
            (record {
              valid = s.valid;
              sent = λ _. s;
              silent = λ h. absurd (h (CanSend-may_send buffer_full em dt v e));
            })
      | inr e ↦
          rw (two, e)
            (record {
              valid = w;
              sent = λ h. (let g = may_send-CanSend buffer_full em dt h in absurd cc);
              silent = λ _. (waits-pending dt em, refl);
            })
    ]

process-on :
    (em : Em) (dt status next : ℕ) (buffer_full : Bool)
    → IsValid em
    → HasBytes em
    → Processed em true dt status buffer_full (process em true dt status buffer_full next)
unfolding process
process-on em dt status next buffer_full v b =
    let st = driver_errors em status in
    let k = driver_errors-Kept em status v b in
    let register = calculate_register st.0 in
    let d =
      post_process-Decided register dt next buffer_full (record st.0 { error_register = register })
        st.1 k.valid in
    record {
      valid = d.valid;
      sent = λ _ h. d.sent (CanSend-register buffer_full st.0 dt register h);
      silent = λ h.
          let q = d.silent (elim h [
            | inl e ↦ absurd cc
            | inr n ↦ λ c. n (register-CanSend buffer_full st.0 dt register c)
          ]) in
          (q.0, rw (q.1, k.grown.grows) k.grown.other);
    }

process-off :
    (em : Em) (dt status next : ℕ) (buffer_full : Bool)
    → IsValid em
    → HasBytes em
    → Processed em false dt status buffer_full (process em false dt status buffer_full next)
unfolding process
process-off em dt status next buffer_full v b =
    let k = driver_errors-Kept em status v b in
    record {
      valid = k.valid;
      sent = λ h. absurd cc;
      silent = λ _. (refl, rw k.grown.grows k.grown.other);
    }

-- On a valid queue, with ten bytes of status bits, CO_EM_process reports the changed errors of the
-- CAN driver and then sends one message, the oldest with the error register in it, when the node is
-- operational, the transmit buffer is free, a message waits and the inhibit time is over or ends
-- with the time of the call. In every other case the queue stays as the driver's errors left it and
-- nothing is sent. The other messages keep their order. Behind them comes the report of an overflow
-- that has been marked, unless its status bit is already set; while others wait, an overflow that
-- has been reported stays noted, and its reset comes with the last of them, if the bit is set. The
-- queue stays valid.
pub process-Processed :
    (em : Em) (operational : Bool) (dt status next : ℕ) (buffer_full : Bool)
    → IsValid em
    → HasBytes em
    → Processed em operational dt status buffer_full
        (process em operational dt status buffer_full next)
process-Processed em true dt status next buffer_full v b =
    process-on em dt status next buffer_full v b
process-Processed em false dt status next buffer_full v b =
    process-off em dt status next buffer_full v b
