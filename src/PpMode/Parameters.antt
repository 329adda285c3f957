-- ===== src/PpMode/Parameters.antt =====
-- The profile parameters: what the program has written last, and what the drive has of it.
use e_rob_canopen_node_demo.Base.{
  ℕ, zero, suc, ◌≡◌, refl, sym, ap, ◌∙◌, bit_and, bit_or, List, [], ◌∷◌, ◌++◌, Bool, true, false,
  Option, none, some, arith, ◌==◌, ◌&&◌, if◌then◌else◌,
}
use e_rob_canopen_node_demo.PpMode.{
  App, Event, sent, wrote, did_read, M, pure, ◌>>=◌, await, write_sdo, read_sdo,
}
use e_rob_canopen_node_demo.PpMode.Motion.{
  is_out_of_range, position_index, target_index, control_index, status_index, is_as, wait_status,
  print_command_help, finish, release, raise, place, execute_position_move,
}
use e_rob_canopen_node_demo.PpMode.Commands.{
  Param, velocity, acceleration, deceleration, index_of, get, put,
}

-- The value that was written last to an index, whether or not the write was confirmed.
unfoldable pub last_write : ℕ → Option ℕ → List Event → Option ℕ
last_write index v [] = v
last_write index v (sent f ∷ events) = last_write index v events
last_write index v (did_read i w ∷ events) = last_write index v events
last_write index v (wrote i w ok ∷ events) =
    last_write index (if i == index then some w else v) events

pub last_write-append :
    (index : ℕ) (v : Option ℕ) (es fs : List Event)
    → last_write index v (es ++ fs) ≡ last_write index (last_write index v es) fs
unfolding last_write
last_write-append index v [] fs = refl
last_write-append index v (sent f ∷ es) fs = last_write-append index v es fs
last_write-append index v (did_read i w ∷ es) fs = last_write-append index v es fs
last_write-append index v (wrote i w ok ∷ es) fs =
    last_write-append index (if i == index then some w else v) es fs

-- The value at an index of the drive, which takes over the writes that it confirms and no others.
unfoldable pub drive_value : ℕ → Option ℕ → List Event → Option ℕ
drive_value index v [] = v
drive_value index v (sent f ∷ events) = drive_value index v events
drive_value index v (did_read i w ∷ events) = drive_value index v events
drive_value index v (wrote i w ok ∷ events) =
    drive_value index (if (i == index) && ok then some w else v) events

-- Whether the last write to an index was confirmed.
unfoldable pub last_confirmed : ℕ → Bool → List Event → Bool
last_confirmed index b [] = b
last_confirmed index b (sent f ∷ events) = last_confirmed index b events
last_confirmed index b (did_read i w ∷ events) = last_confirmed index b events
last_confirmed index b (wrote i w ok ∷ events) =
    last_confirmed index (if i == index then ok else b) events

-- The drive has the last value that was written, where that write was confirmed.
pub confirmed-drive_value :
    (index : ℕ) (events : List Event) (u v : Option ℕ) (b : Bool)
    → (b ≡ true → u ≡ v)
    → last_confirmed index b events ≡ true
    → drive_value index u events ≡ last_write index v events
unfolding drive_value last_confirmed last_write
confirmed-drive_value index [] u v b same h = same h
confirmed-drive_value index (sent f ∷ events) u v b same h =
    confirmed-drive_value index events u v b same h
confirmed-drive_value index (did_read i w ∷ events) u v b same h =
    confirmed-drive_value index events u v b same h
confirmed-drive_value index (wrote i w ok ∷ events) u v b same h =
    confirmed-drive_value index events _ _ _ (step (i == index) ok) h
  where
    step :
        (here ok : Bool)
        → (if here then ok else b) ≡ true
        → (if here && ok then some w else u) ≡ (if here then some w else v)
    step true true e = refl
    step true false e = absurd cc
    step false ok e = same e

eq_self : (n : ℕ) → (n == n) ≡ true
eq_self n = ground arith

-- An exchange changes none of the parameters.
pub get-await : (p : Param) (s : App) → get p (await s).1 ≡ get p s
unfolding await
get-await velocity s = refl
get-await acceleration s = refl
get-await deceleration s = refl

control_apart : (p : Param) → (control_index == index_of p) ≡ false
control_apart velocity = refl
control_apart acceleration = refl
control_apart deceleration = refl

target_apart : (p : Param) → (target_index == index_of p) ≡ false
target_apart velocity = refl
target_apart acceleration = refl
target_apart deceleration = refl

-- A parameter that is stored and written is in both places, and no other changes.
pub put_written :
    (p q : Param) (v : ℕ) (s : App)
    → (if index_of q == index_of p then some v else some (get p s)) ≡ some (get p (put q v s))
put_written velocity velocity v s = refl
put_written velocity acceleration v s = refl
put_written velocity deceleration v s = refl
put_written acceleration velocity v s = refl
put_written acceleration acceleration v s = refl
put_written acceleration deceleration v s = refl
put_written deceleration velocity v s = refl
put_written deceleration acceleration v s = refl
put_written deceleration deceleration v s = refl

module _ (p : Param) (I : App → Type 0) where
  -- `m` keeps `I`, and keeps the value written last and the parameter the same.
  pub record Keeps {A : Type 0} (m : M A) : Type 0 where
    pub at :
        (s : App)
        → I s
        → I (m s).1 × (last_write (index_of p) (some (get p s)) (m s).2 ≡ some (get p (m s).1))

  pub Keeps-pure : {A : Type 0} (a : A) → Keeps (pure a)
  unfolding last_write
  Keeps-pure a = record { at = λ s i. (i, refl) }

  pub Keeps-bind :
      {A B : Type 0} (m : M A) (f : A → M B) → Keeps m → ((a : A) → Keeps (f a)) → Keeps (m >>= f)
  unfolding ◌>>=◌
  Keeps-bind m f km kf = record {
    at = λ s i.
        let r = km.at s i in
        let q = (kf (m s).0).at (m s).1 r.0 in
        (
          q.0,
          last_write-append (index_of p) (some (get p s)) (m s).2 (f (m s).0 (m s).1).2
              ∙ ap (λ v. last_write (index_of p) v (f (m s).0 (m s).1).2) r.1
              ∙ q.1,
        );
  }

  pub Keeps-if :
      {A : Type 0} (b : Bool) (m n : M A) → Keeps m → Keeps n → Keeps (if b then m else n)
  Keeps-if true m n km kn = km
  Keeps-if false m n km kn = kn

  module _ (steady : (s : App) → I s → I (await s).1) where
    pub Keeps-read : (i : ℕ) → Keeps (read_sdo i)
    unfolding last_write read_sdo
    Keeps-read i = record { at = λ s h. (steady s h, ap some (sym (get-await p s))) }

    pub Keeps-write : (i v : ℕ) → (i == index_of p) ≡ false → Keeps (write_sdo i v)
    unfolding last_write write_sdo
    Keeps-write i v e = record { at = λ s h. (steady s h, rw e (ap some (sym (get-await p s)))) }

    pub Keeps-write_same :
        (v : ℕ) → ((s : App) → I s → get p s ≡ v) → Keeps (write_sdo (index_of p) v)
    unfolding last_write write_sdo
    Keeps-write_same v g = record {
      at = λ s h. (steady s h, rw (eq_self (index_of p), get-await p s) (ap some (sym (g s h))));
    }

    Keeps-wait : (want : Bool) (n : ℕ) → Keeps (wait_status want n)
    unfolding wait_status
    Keeps-wait want zero = Keeps-pure false
    Keeps-wait want (suc n) =
        Keeps-bind (read_sdo status_index) _ (Keeps-read status_index)
          (λ v. go (is_as want v) (Keeps-wait want n))
      where
        go :
            (b : Bool)
            → Keeps (wait_status want n)
            → Keeps (elim b [ true ↦ pure true | false ↦ wait_status want n ])
        go true k = Keeps-pure true
        go false k = k

    -- The control word and the target position are no parameters.
    pub Keeps-control : (v : ℕ) → Keeps (write_sdo control_index v)
    Keeps-control v = Keeps-write control_index v (control_apart p)

    Keeps-target : (v : ℕ) → Keeps (write_sdo target_index v)
    Keeps-target v = Keeps-write target_index v (target_apart p)

    Keeps-finish : Keeps finish
    unfolding finish print_command_help
    Keeps-finish = Keeps-bind (wait_status false 50) _ (Keeps-wait false 50) (λ _.
        Keeps-bind (read_sdo position_index) _ (Keeps-read position_index) (λ _.
          Keeps-bind (read_sdo position_index) _ (Keeps-read position_index)
            (λ _. Keeps-pure true)))

    Keeps-release : (w : ℕ) → Keeps (release w)
    unfolding release
    Keeps-release w =
        Keeps-bind (write_sdo control_index (bit_and w 0xFFFFFFEF)) _
          (Keeps-control (bit_and w 0xFFFFFFEF))
          (λ ok. Keeps-if ok finish (pure false) Keeps-finish (Keeps-pure false))

    Keeps-raise : (w : ℕ) → Keeps (raise w)
    unfolding raise
    Keeps-raise w =
        let new = bit_or w 0x10 in
        let heard =
          Keeps-bind (wait_status true 50) (λ got. if got then release new else pure false)
            (Keeps-wait true 50)
            (λ got.
              Keeps-if got (release new) (pure false) (Keeps-release new) (Keeps-pure false)) in
        Keeps-bind (write_sdo control_index new) _ (Keeps-control new)
          (λ ok. Keeps-if ok _ (pure false) heard (Keeps-pure false))

    Keeps-place : (target : ℕ) → Keeps (place target)
    unfolding place
    Keeps-place target = Keeps-bind (write_sdo target_index target) _ (Keeps-target target) (λ ok.
        Keeps-if ok _ (pure false)
          (Keeps-bind (read_sdo control_index)
            (λ v. elim v [ none ↦ pure false | some w ↦ raise w ]) (Keeps-read control_index) word)
          (Keeps-pure false))
      where
        word : (v : Option ℕ) → Keeps (elim v [ none ↦ pure false | some w ↦ raise w ])
        word none = Keeps-pure false
        word (some w) = Keeps-raise w

    pub Keeps-move : (target : ℕ) → Keeps (execute_position_move target)
    unfolding execute_position_move
    Keeps-move target = Keeps-if (is_out_of_range target) (pure false) _ (Keeps-pure false) (
        Keeps-bind (read_sdo position_index) (λ _. place target) (Keeps-read position_index)
          (λ _. Keeps-place target))
