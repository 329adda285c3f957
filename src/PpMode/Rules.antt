-- ===== src/PpMode/Rules.antt =====
-- A way to follow what the functions of the program do through an automaton on their events.
use e_rob_canopen_node_demo.Base.{
  ℕ, ◌≡◌, refl, sym, ◌∙◌, List, [], ◌∷◌, ◌++◌, Bool, true, false, Option, none, some, inl, inr,
  Option-cases, subst,
}
use e_rob_canopen_node_demo.PpMode.{
  App, Event, Frame, sent, wrote, did_read, M, pure, ◌>>=◌, await, request, write_sdo, read_sdo,
  is_some,
}

module _ {P : Type 0} (move : P → Event → Option P) where
  -- The phase after the events, or `none` where one of them is not allowed.
  unfoldable pub runs : P → List Event → Option P
  runs p [] = some p
  runs p (e ∷ events) = elim (move p e) [ none ↦ none | some q ↦ runs q events ]

  pub runs-append :
      (p q : P) (es fs : List Event) → runs p es ≡ some q → runs p (es ++ fs) ≡ runs q fs
  unfolding runs
  runs-append p q [] fs h = let e : p ≡ q = cc in rw e refl
  runs-append p q (e ∷ es) fs h = elim (Option-cases (move p e)) [
    | inl n ↦ cc (rw (n, runs) at h)
    | inr (r, n) ↦ rw n (runs-append r q es fs (rw (n, runs) at h))
  ]

  -- From phase `p`, the events of `m` are allowed and end in a phase that goes with its result.
  pub record Ends {A : Type 0} (p : P) (m : M A) (Q : A → P → Type 0) : Type 0 where
    pub at : (s : App) → (q : P) × (runs p (m s).2 ≡ some q) × Q (m s).0 q

  pub Ends-pure : {A : Type 0} {p : P} {Q : A → P → Type 0} (a : A) → Q a p → Ends p (pure a) Q
  unfolding runs
  Ends-pure {p = p} a h = record { at = λ s. (p, refl, h) }

  pub Ends-bind :
      {A B : Type 0} {p : P} {Q : A → P → Type 0} {R : B → P → Type 0} (m : M A) (f : A → M B)
      → Ends p m Q
      → ((a : A) (q : P) → Q a q → Ends q (f a) R)
      → Ends p (m >>= f) R
  unfolding ◌>>=◌
  Ends-bind {p = p} {R = R} m f em ef = record {
    at = λ s.
        let r = em.at s in
        let t = (ef (m s).0 r.0 r.2).at (m s).1 in
        (t.0, runs-append p r.0 (m s).2 _ r.1 ∙ t.1, t.2);
  }

  -- The phase after `m` is known from its result.
  pub Ends-then :
      {A B : Type 0} {p : P} {R : B → P → Type 0} (end : A → P) (m : M A) (f : A → M B)
      → Ends p m (λ a q. q ≡ end a)
      → ((a : A) → Ends (end a) (f a) R)
      → Ends p (m >>= f) R
  Ends-then {R = R} end m f em ef =
      Ends-bind m f em (λ a q e. subst (λ x. Ends x (f a) R) (sym e) (ef a))

  module _ (quiet : (p : P) (f : Frame) → move p (sent f) ≡ some p) where
    pub Ends-write :
        {p : P} {Q : Bool → P → Type 0} (i v : ℕ)
        → ((done : Bool) → (q : P) × (move p (wrote i v done) ≡ some q) × Q done q)
        → Ends p (write_sdo i v) Q
    unfolding runs write_sdo
    Ends-write {p} {Q} i v h = record {
      at = λ s.
          let r = h (is_some (await s).0) in
          (r.0, rw (quiet p (request s i 0 v true), r.1) refl, r.2);
    }

    pub Ends-read :
        {p : P} {Q : Option ℕ → P → Type 0} (i : ℕ)
        → ((v : Option ℕ) → (q : P) × (move p (did_read i v) ≡ some q) × Q v q)
        → Ends p (read_sdo i) Q
    unfolding runs read_sdo
    Ends-read {p} {Q} i h = record {
      at = λ s. let r = h (await s).0 in (r.0, rw (quiet p (request s i 0 0 false), r.1) refl, r.2);
    }
