-- ===== src/PpMode/Handshake.antt =====
-- The set-point handshake of a position move: target position, bit 4 of the control word set, bit 12
-- of the status word seen, bit 4 cleared.
use e_rob_canopen_node_demo.Base.{
  ℕ, zero, suc, ◌≡◌, refl, bit_and, bit_or, [], Bool, true, false, not, ◌&&◌, Option, none, some,
  arith, ◌==◌, if◌then◌else◌,
}
use e_rob_canopen_node_demo.PpMode.{
  App, Event, Frame, sent, wrote, did_read, M, pure, ◌>>=◌, ◌>>◌, write_sdo, read_sdo,
}
use e_rob_canopen_node_demo.PpMode.Motion.{
  is_out_of_range, position_index, target_index, control_index, status_index, is_as, wait_status,
  print_command_help, finish, release, raise, place, execute_position_move,
}
use e_rob_canopen_node_demo.PpMode.Rules.{runs, Ends, Ends-pure, Ends-then, Ends-write, Ends-read}

-- How far the handshake is: with the control word read last, the one written, or the same once the
-- drive has acknowledged it. After a failed write nothing more is written.
pub data Phase : Type 0 where
  idle : Phase
  placed : Option ℕ → Phase
  raised acknowledged : ℕ → Phase
  done broken : Phase

abbrev pub is_done : Phase → Bool
is_done done = true
is_done _ = false

abbrev on_read : Phase → ℕ → ℕ → Phase
on_read (placed before) i w = if i == control_index then placed (some w) else placed before
on_read (raised new) i w =
    if (i == status_index) && not (bit_and w 0x1000 == 0) then acknowledged new else raised new
on_read p i w = p

abbrev expect : Bool → Bool → Phase → Option Phase
expect false ok p = none
expect true ok p = some (if ok then p else broken)

abbrev on_write : ℕ → Phase → ℕ → ℕ → Bool → Option Phase
on_write target idle i v ok = expect ((i == target_index) && (v == target)) ok (placed none)
on_write target (placed none) i v ok = none
on_write target (placed (some w)) i v ok =
    expect ((i == control_index) && (v == bit_or w 0x10)) ok (raised v)
on_write target (raised new) i v ok = none
on_write target (acknowledged new) i v ok =
    expect ((i == control_index) && (v == bit_and new 0xFFFFFFEF)) ok done
on_write target done i v ok = none
on_write target broken i v ok = none

-- The handshake for a target: which writes are allowed after which answers.
abbrev pub handshake : ℕ → Phase → Event → Option Phase
handshake target p (sent f) = some p
handshake target p (did_read i none) = some p
handshake target p (did_read i (some w)) = some (on_read p i w)
handshake target p (wrote i v ok) = on_write target p i v ok

eq_self : (n : ℕ) → (n == n) ≡ true
eq_self n = ground arith

module _ (target : ℕ) where
  abbrev Sure : {A : Type 0} → Phase → M A → (A → Phase → Type 0) → Type 0
  Sure p m Q = Ends (handshake target) p m Q

  quiet : (p : Phase) (f : Frame) → handshake target p (sent f) ≡ some p
  quiet p f = refl

  read_done : (i : ℕ) → Sure done (read_sdo i) (λ _ q. q ≡ done)
  read_done i = Ends-read _ quiet i (λ v. (done, at v, refl))
    where
      at : (v : Option ℕ) → handshake target done (did_read i v) ≡ some done
      at none = refl
      at (some w) = refl

  wait_done : (want : Bool) (n : ℕ) → Sure done (wait_status want n) (λ _ q. q ≡ done)
  unfolding wait_status
  wait_done want zero = Ends-pure _ false refl
  wait_done want (suc n) =
      Ends-then _ (λ _. done) (read_sdo status_index) _ (read_done status_index)
        (λ v. go (wait_done want n) (is_as want v))
    where
      go :
          Sure done (wait_status want n) (λ _ q. q ≡ done)
          → (b : Bool)
          → Sure done (elim b [ true ↦ pure true | false ↦ wait_status want n ]) (λ _ q. q ≡ done)
      go later true = Ends-pure _ true refl
      go later false = later

  wait_raised :
      (new n : ℕ)
      → Sure
          (raised new)
          (wait_status true n)
          (λ got q. q ≡ (if got then acknowledged new else raised new))
  unfolding wait_status
  wait_raised new zero = Ends-pure _ false refl
  wait_raised new (suc n) =
      Ends-then _ (λ v. if is_as true v then acknowledged new else raised new)
        (read_sdo status_index) _
        (Ends-read _ quiet status_index
          (λ v. (if is_as true v then acknowledged new else raised new, at v, refl)))
        (λ v. go (wait_raised new n) (is_as true v))
    where
      at :
          (v : Option ℕ)
          → handshake target (raised new) (did_read status_index v)
            ≡ some (if is_as true v then acknowledged new else raised new)
      at none = refl
      at (some w) = refl

      go :
          Sure
            (raised new)
            (wait_status true n)
            (λ got q. q ≡ (if got then acknowledged new else raised new))
          → (b : Bool)
          → Sure
              (if b then acknowledged new else raised new)
              (elim b [ true ↦ pure true | false ↦ wait_status true n ])
              (λ got q. q ≡ (if got then acknowledged new else raised new))
      go later true = Ends-pure _ true refl
      go later false = later

  abbrev Told : Bool → Phase → Type 0
  Told told q = told ≡ is_done q

  finish_done : Sure done finish Told
  unfolding finish print_command_help
  finish_done =
      Ends-then _ (λ _. done) (wait_status false 50) _ (wait_done false 50)
        (λ _.
          Ends-then _ (λ _. done) (read_sdo position_index) _ (read_done position_index)
            (λ _.
              Ends-then _ (λ _. done) (read_sdo position_index) _ (read_done position_index)
                (λ _. Ends-pure _ true refl)))

  release-Told : (new : ℕ) → Sure (acknowledged new) (release new) Told
  unfolding release
  release-Told new =
      Ends-then _ (λ ok. if ok then done else broken)
        (write_sdo control_index (bit_and new 0xFFFFFFEF)) _
        (Ends-write _ quiet control_index (bit_and new 0xFFFFFFEF)
          (λ ok. (if ok then done else broken, rw (eq_self (bit_and new 0xFFFFFFEF)) refl, refl)))
        go
    where
      go : (ok : Bool) → Sure (if ok then done else broken) (if ok then finish else pure false) Told
      go true = finish_done
      go false = Ends-pure _ false refl

  raise-Told : (w : ℕ) → Sure (placed (some w)) (raise w) Told
  unfolding raise
  raise-Told w =
      Ends-then _ (λ ok. if ok then raised (bit_or w 0x10) else broken)
        (write_sdo control_index (bit_or w 0x10)) _
        (Ends-write _ quiet control_index (bit_or w 0x10) (λ ok.
          (if ok then raised (bit_or w 0x10) else broken, rw (eq_self (bit_or w 0x10)) refl, refl)))
        go
    where
      heard :
          (got : Bool)
          → Sure
              (if got then acknowledged (bit_or w 0x10) else raised (bit_or w 0x10))
              (if got then release (bit_or w 0x10) else pure false)
              Told
      heard true = release-Told (bit_or w 0x10)
      heard false = Ends-pure _ false refl

      go :
          (ok : Bool)
          → Sure
              (if ok then raised (bit_or w 0x10) else broken)
              (if ok
                then (wait_status true 50 >>= λ got.
                    if got then release (bit_or w 0x10) else pure false)
                else pure false)
              Told
      go true =
          Ends-then _ (λ got. if got then acknowledged (bit_or w 0x10) else raised (bit_or w 0x10))
            (wait_status true 50) _ (wait_raised (bit_or w 0x10) 50) heard
      go false = Ends-pure _ false refl

  place-Told : Sure idle (place target) Told
  unfolding place
  place-Told =
      Ends-then _ (λ ok. if ok then placed none else broken) (write_sdo target_index target) _
        (Ends-write _ quiet target_index target
          (λ ok. (if ok then placed none else broken, rw (eq_self target) refl, refl)))
        go
    where
      word : (v : Option ℕ) → Sure (placed v) (elim v [ none ↦ pure false | some w ↦ raise w ]) Told
      word none = Ends-pure _ false refl
      word (some w) = raise-Told w

      at :
          (v : Option ℕ)
          → handshake target (placed none) (did_read control_index v) ≡ some (placed v)
      at none = refl
      at (some w) = refl

      go :
          (ok : Bool)
          → Sure
              (if ok then placed none else broken)
              (if ok
                then (read_sdo control_index >>= λ v. elim v [
                  | none ↦ pure false
                  | some w ↦ raise w
                ])
                else pure false)
              Told
      go true =
          Ends-then _ placed (read_sdo control_index) _
            (Ends-read _ quiet control_index (λ v. (placed v, at v, refl))) word
      go false = Ends-pure _ false refl

  move-Told : Sure idle (read_sdo position_index >> place target) Told
  move-Told =
      Ends-then _ (λ _. idle) (read_sdo position_index) _
        (Ends-read _ quiet position_index (λ v. (idle, at v, refl))) (λ _. place-Told)
    where
      at : (v : Option ℕ) → handshake target idle (did_read position_index v) ≡ some idle
      at none = refl
      at (some w) = refl

  checked :
      (far : Bool) (s : App)
      → let out = (if far then pure false else (read_sdo position_index >> place target)) s in
        (q : Phase) × (runs (handshake target) idle out.2 ≡ some q)
        × (out.0 ≡ is_done q)
        × (far ≡ true → out.2 ≡ [])
  unfolding runs
  checked true s = (idle, refl, refl, λ _. refl)
  checked false s = let r = move-Told.at s in (r.0, r.1, r.2, λ e. cc)

-- Whatever the drive and the bus do, the events of a position move follow the handshake for its
-- target, write nothing where the target is out of range, and the move returns success exactly when
-- the handshake is done.
pub execute_position_move_follows :
    (target : ℕ) (s : App)
    → let out = execute_position_move target s in
      (q : Phase) × (runs (handshake target) idle out.2 ≡ some q)
      × (out.0 ≡ is_done q)
      × (is_out_of_range target ≡ true → out.2 ≡ [])
unfolding execute_position_move
execute_position_move_follows target s = checked target (is_out_of_range target) s
