-- ===== src/Emergency/Queue.antt =====
-- The message queue that CO_error fills: messages wait in the order of the errors, and a full queue
-- notes the overflow instead.
use e_rob_canopen_node_demo.Base.{
  ℕ, ◌+◌, ◌-◌, ◌/◌, ◌%◌, ◌^◌, ◌≤◌, ◌<◌, ◌≡◌, ◌≢◌, refl, List, [], ◌∷◌, ◌++◌, Bool, true, false, not,
  ◌&&◌, ◌⊎◌, inl, inr, arith, get_or, set, length, length-set, ltb, leb, ◌==◌, if◌then◌else◌, u8,
  Bool-cases, bit_or, bit_and,
}
use e_rob_canopen_node_demo.Base.Ring
use e_rob_canopen_node_demo.Emergency.{
  Em, Msg, no_msg, Event, error, toggle, push, is_error, ptr_next,
}
use e_rob_canopen_node_demo.Emergency.StatusBits.{
  target, message, error_repeats, error_changes, either,
}

-- A queue in the buffer that CO_EM_init was given.
abbrev pub IsValid : Em → Type 0
IsValid em =
    (2 ≤ em.fifo_size)
    × (em.fifo_size < 256)
    × (em.fifo_size ≤ length em.fifo)
    × (em.fifo_wr_ptr < em.fifo_size)
    × (em.fifo_pp_ptr < em.fifo_size)
    × (em.fifo_count < em.fifo_size)

-- The messages that wait for CO_EM_process, the oldest first.
abbrev pub pending : Em → List Msg
pending em =
    Ring.span no_msg em.fifo em.fifo_size em.fifo_pp_ptr
      (Ring.distance em.fifo_size em.fifo_pp_ptr em.fifo_wr_ptr)

pub ptr_next-eq :
    (size ptr : ℕ) → ptr < size → size < 256 → ptr_next size ptr ≡ Ring.next_index size ptr
ptr_next-eq size ptr p q = ground arith

abbrev pub IsFull : Em → Type 0
IsFull em = length (pending em) ≡ em.fifo_size - 1

full_iff :
    (em : Em)
    → IsValid em
    → (Ring.next_index em.fifo_size em.fifo_wr_ptr ≡ em.fifo_pp_ptr)
      ⊎ (length (pending em) < em.fifo_size - 1)
full_iff em v =
    rw
      (Ring.length-span no_msg em.fifo em.fifo_size em.fifo_pp_ptr
        (Ring.distance em.fifo_size em.fifo_pp_ptr em.fifo_wr_ptr))
      (elim (Bool-cases (Ring.next_index em.fifo_size em.fifo_wr_ptr == em.fifo_pp_ptr)) [
        | inl h ↦ inl (ground arith)
        | inr h ↦ inr (ground arith)
      ])

-- What a message leaves behind.
pub record Pushed (em : Em) (m : Msg) (out : Em) : Type 0 where
  pub valid : IsValid out
  pub full : IsFull em → (pending out ≡ pending em) × (out.fifo_overflow ≡ 1)
  pub room :
      length (pending em) < em.fifo_size - 1
      → (pending out ≡ pending em ++ m ∷ []) × (out.fifo_overflow ≡ em.fifo_overflow)

push-full :
    (em : Em) (m : Msg)
    → IsValid em
    → Ring.next_index em.fifo_size em.fifo_wr_ptr ≡ em.fifo_pp_ptr
    → push em m ≡ record em { fifo_overflow = 1 }
unfolding push
push-full em m v h =
    let e = ptr_next-eq em.fifo_size em.fifo_wr_ptr v.3 v.1 in
    let t : leb 2 em.fifo_size ≡ true = ground arith in rw (t, e, h) (ground arith)

pub push-room :
    (em : Em) (m : Msg)
    → IsValid em
    → Ring.next_index em.fifo_size em.fifo_wr_ptr ≢ em.fifo_pp_ptr
    → push em m ≡ record em {
      fifo = set em.fifo em.fifo_wr_ptr m;
      fifo_wr_ptr = Ring.next_index em.fifo_size em.fifo_wr_ptr;
      fifo_count =
          if ltb em.fifo_count (em.fifo_size - 1) then em.fifo_count + 1 else em.fifo_count;
    }
unfolding push
push-room em m v h =
    let e = ptr_next-eq em.fifo_size em.fifo_wr_ptr v.3 v.1 in
    let t : leb 2 em.fifo_size ≡ true = ground arith in
    let ne : (Ring.next_index em.fifo_size em.fifo_wr_ptr == em.fifo_pp_ptr) ≡ false =
      ground arith in
    let c : u8 (em.fifo_count + 1) ≡ em.fifo_count + 1 = omega (arith, v) in rw (t, e, ne, c) refl

pub length-pending :
    (em : Em) → length (pending em) ≡ Ring.distance em.fifo_size em.fifo_pp_ptr em.fifo_wr_ptr
length-pending em =
    Ring.length-span no_msg em.fifo em.fifo_size em.fifo_pp_ptr
      (Ring.distance em.fifo_size em.fifo_pp_ptr em.fifo_wr_ptr)

push_lem : (em : Em) (m : Msg) → IsValid em → Pushed em m (push em m)
push_lem em m v =
    elim (Bool-cases (Ring.next_index em.fifo_size em.fifo_wr_ptr == em.fifo_pp_ptr)) [
      | inl h ↦
          let s : Ring.next_index em.fifo_size em.fifo_wr_ptr ≡ em.fifo_pp_ptr = ground arith in
          rw (push-full em m v s) (record {
            valid = v;
            full = λ _. (refl, refl);
            room = λ r. absurd (ground (arith, length-pending em));
          })
      | inr h ↦
          let s : Ring.next_index em.fifo_size em.fifo_wr_ptr ≢ em.fifo_pp_ptr =
            λ u. ground arith in
          rw (push-room em m v s) (record {
            valid = (
              v.0,
              v.1,
              omega (arith, v, length-set em.fifo em.fifo_wr_ptr m),
              Ring.next_index-lt em.fifo_size em.fifo_wr_ptr v.3,
              v.4,
              ground arith,
            );
            full = λ r. absurd (ground (arith, length-pending em));
            room = λ _. (
              Ring.span-write no_msg em.fifo em.fifo_size em.fifo_pp_ptr em.fifo_wr_ptr m v.2 v.4
                  v.3 s,
              refl,
            );
          })
    ]

toggle-push :
    (em : Em) (value : Bool) (index mask : ℕ) (m : Msg)
    → IsValid em
    → Pushed em m (toggle em value index mask m).0
unfolding toggle
toggle-push em true index mask m v =
    let p =
      push_lem
        (record em {
          error_status_bits =
              set em.error_status_bits index (bit_or (get_or em.error_status_bits index 0) mask);
        })
        m v in
    record { valid = p.valid; full = p.full; room = p.room }
toggle-push em false index mask m v =
    let p =
      push_lem
        (record em {
          error_status_bits =
              set em.error_status_bits index
                (bit_and (get_or em.error_status_bits index 0) (255 - mask));
        })
        m v in
    record { valid = p.valid; full = p.full; room = p.room }

-- What CO_error does to the queue: nothing where the status bit already reads as reported; else
-- the message waits behind the others, or the overflow is noted where the queue is full.
pub record Queued (em : Em) (value : Bool) (bit code info : ℕ) (out : Em × List Event)
    : Type 0 where
  pub repeated : is_error em (target bit) ≡ value → out ≡ (em, [])
  pub changed : is_error em (target bit) ≡ not value → Pushed em (message value bit code info) out.0
  pub signal :
      is_error em (target bit) ≡ not value
      → out.1 ≡ (if em.has_signal_pre && em.producer_enabled then Event.signal_pre ∷ [] else [])

toggle-events :
    (em : Em) (value : Bool) (index mask : ℕ) (m : Msg)
    → (toggle em value index mask m).1
      ≡ (if em.has_signal_pre && em.producer_enabled then Event.signal_pre ∷ [] else [])
unfolding toggle
toggle-events em value index mask m = refl

-- CO_error on a valid queue: a report that changes nothing returns at once; any other appends its
-- message where there is room, sets the overflow mark where there is not, and signals the task.
pub error-Queued :
    (em : Em) (value : Bool) (bit code info : ℕ)
    → IsValid em
    → Queued em value bit code info (error em value bit code info)
error-Queued em value bit code info v =
    let c = error_changes em value bit code info in
    record {
      repeated = error_repeats em value bit code info;
      changed = λ h. rw (c h) (toggle-push em value _ _ _ v);
      signal = λ h. rw (c h) (
          toggle-events em value (target bit / 8) (2 ^ (target bit % 8))
            (message value bit code info));
    }

-- CO_error keeps a valid queue.
pub error-IsValid :
    (em : Em) (value : Bool) (bit code info : ℕ)
    → IsValid em
    → IsValid (error em value bit code info).0
error-IsValid em value bit code info v = elim (either (is_error em (target bit)) value) [
  | inl h ↦ rw ((error-Queued em value bit code info v).repeated h) v
  | inr h ↦ ((error-Queued em value bit code info v).changed h).valid
]
