-- ===== src/Emergency/History.antt =====
-- Object 0x1003: the error history, with the newest message first.
use e_rob_canopen_node_demo.Base.{
  ℕ, ◌+◌, ◌-◌, ◌≤◌, ◌<◌, ◌≡◌, ◌≢◌, refl, sym, ◌∙◌, bit_and, bit_or, Bool, true, false, not, inl,
  inr, arith, some, get_or, set, get_or-set_self, get_or-set_ne, length, length-set, ltb, leb, ◌==◌,
  if◌then◌else◌, Bool-cases,
}
use e_rob_canopen_node_demo.Base.Ring
use e_rob_canopen_node_demo.Od.{Odr}
use e_rob_canopen_node_demo.Emergency.{Em, Msg, no_msg, error, toggle, push, is_error}
use e_rob_canopen_node_demo.Emergency.Objects.{read_1003}
use e_rob_canopen_node_demo.Emergency.StatusBits.{target, message, error_changes}
use e_rob_canopen_node_demo.Emergency.Queue.{IsValid, pending, length-pending, push-room}

-- Where the k-th newest message stands.
abbrev place : ℕ → ℕ → ℕ → ℕ
place size wr k = if ltb wr k then wr + size - k else wr - k

place-newest : (size wr : ℕ) → wr < size → place size (Ring.next_index size wr) 1 ≡ wr
place-newest size wr p = ground arith

place-older :
    (size wr k : ℕ)
    → wr < size
    → k + 1 < size
    → place size (Ring.next_index size wr) (k + 1) ≡ place size wr k
place-older size wr k p q = ground arith

place-ne : (size wr k : ℕ) → wr < size → 0 < k → k < size → wr ≢ place size wr k
place-ne size wr k p q r = ground arith

read_1003-at :
    (em : Em) (k : ℕ)
    → IsValid em
    → 0 < k
    → k ≤ em.fifo_count
    → read_1003 em k 4
      ≡ (Odr.ok, some ((get_or em.fifo (place em.fifo_size em.fifo_wr_ptr k) no_msg).msg, 4))
unfolding read_1003
read_1003-at em k v p q =
    let a : ltb em.fifo_size 2 ≡ false = ground arith in
    let b : (k == 0) ≡ false = ground arith in
    let c : leb k em.fifo_count ≡ true = ground arith in
    let d : leb em.fifo_size (em.fifo_wr_ptr - k) ≡ false = ground (arith, v) in
    rw (a, b, c, d)
      (elim (Bool-cases (ltb em.fifo_wr_ptr k)) [ inl h ↦ rw h refl | inr h ↦ rw h refl ])

-- What one more message does to the history.
pub record Recorded (em : Em) (m : Msg) (out : Em) : Type 0 where
  pub newest : read_1003 out 1 4 ≡ (Odr.ok, some (m.msg, 4))
  pub older :
      (k : ℕ)
      → 0 < k
      → k ≤ em.fifo_count
      → k + 1 < em.fifo_size
      → read_1003 out (k + 1) 4 ≡ read_1003 em k 4

push-Recorded :
    (em : Em) (m : Msg)
    → IsValid em
    → length (pending em) < em.fifo_size - 1
    → Recorded em m (push em m)
push-Recorded em m v room =
    let wr = Ring.next_index em.fifo_size em.fifo_wr_ptr in
    let ne : wr ≢ em.fifo_pp_ptr = λ u. ground (arith, length-pending em, v) in
    let out = record em {
      fifo = set em.fifo em.fifo_wr_ptr m;
      fifo_wr_ptr = wr;
      fifo_count =
          if ltb em.fifo_count (em.fifo_size - 1) then em.fifo_count + 1 else em.fifo_count;
    } in
    let valid : IsValid out = (
      v.0,
      v.1,
      omega (arith, v, length-set em.fifo em.fifo_wr_ptr m),
      Ring.next_index-lt em.fifo_size em.fifo_wr_ptr v.3,
      v.4,
      ground (arith, v),
    ) in
    rw (push-room em m v ne) (record {
      newest =
          read_1003-at out 1 valid (omega arith) (ground (arith, v))
          ∙ rw
              (
                place-newest em.fifo_size em.fifo_wr_ptr v.3,
                get_or-set_self em.fifo em.fifo_wr_ptr m no_msg (omega (arith, v)),
              )
              refl;
      older = λ k p q r.
          read_1003-at out (k + 1) valid (omega arith) (ground (arith, v))
          ∙ rw
              (
                place-older em.fifo_size em.fifo_wr_ptr k v.3 r,
                get_or-set_ne em.fifo m no_msg
                    (place-ne em.fifo_size em.fifo_wr_ptr k v.3 p (omega arith)),
              )
              refl
          ∙ sym (read_1003-at em k v p q);
    })

toggle-Recorded :
    (em : Em) (value : Bool) (index mask : ℕ) (m : Msg)
    → IsValid em
    → length (pending em) < em.fifo_size - 1
    → Recorded em m (toggle em value index mask m).0
unfolding toggle read_1003
toggle-Recorded em true index mask m v room =
    let r =
      push-Recorded
        (record em {
          error_status_bits =
              set em.error_status_bits index (bit_or (get_or em.error_status_bits index 0) mask);
        })
        m v room in
    record { newest = r.newest; older = r.older }
toggle-Recorded em false index mask m v room =
    let r =
      push-Recorded
        (record em {
          error_status_bits =
              set em.error_status_bits index
                (bit_and (get_or em.error_status_bits index 0) (255 - mask));
        })
        m v room in
    record { newest = r.newest; older = r.older }

-- After an error that changes its status bit, with room in a valid queue, the history shows its
-- message at sub-index 1, and a message that was at sub-index k at k + 1, as long as k + 1 is below
-- the size of the queue: in a full history the oldest drops out.
pub error-Recorded :
    (em : Em) (value : Bool) (bit code info : ℕ)
    → IsValid em
    → length (pending em) < em.fifo_size - 1
    → is_error em (target bit) ≡ not value
    → Recorded em (message value bit code info) (error em value bit code info).0
error-Recorded em value bit code info v room h =
    rw (error_changes em value bit code info h) (toggle-Recorded em value _ _ _ v room)
