-- ===== src/HbConsumer/Entries.antt =====
-- The entries of the heartbeat consumer: no node is monitored twice.
use e_rob_canopen_node_demo.Base.{
  ℕ, zero, suc, ◌+◌, ◌*◌, ◌≤◌, ◌≡◌, ◌≢◌, ◌⊎◌, inl, inr, refl, sym, ap, ◌∙◌, List, [], ◌∷◌, Bool,
  true, false, not, ◌&&◌, ◌||◌, arith, some, get_elem?, set, length, leb, ◌==◌, if◌then◌else◌, u32,
  Bool-cases,
}
use e_rob_canopen_node_demo.HbConsumer.{
  Node, HbCons, has_duplicate, InitResult, illegal_argument, od_parameters, configured, init_entry,
}

get_elem?-set {ℓ} :
    {A : Type ℓ} (xs : List A) (i j : ℕ) (v a : A)
    → get_elem? (set xs i v) j ≡ some a
    → ((i ≡ j) × (v ≡ a)) ⊎ ((i ≢ j) × (get_elem? xs j ≡ some a))
get_elem?-set [] i j v a h = absurd cc
get_elem?-set (x ∷ xs) zero zero v a h = inl (refl, cc)
get_elem?-set (x ∷ xs) zero (suc j) v a h = inr (λ e. omega (arith, e), h)
get_elem?-set (x ∷ xs) (suc i) zero v a h = inr (λ e. omega (arith, e), h)
get_elem?-set (x ∷ xs) (suc i) (suc j) v a h = elim (get_elem?-set xs i j v a h) [
  | inl r ↦ inl (ap suc r.0, r.1)
  | inr r ↦ inr (λ e. r.0 (omega (arith, e)), r.1)
]

-- Entries with a time monitor different nodes.
abbrev pub IsUnique : List Node → Type 0
IsUnique nodes =
    (i j : ℕ) (a b : Node)
    → get_elem? nodes i ≡ some a
    → get_elem? nodes j ≡ some b
    → a.time_us ≢ 0
    → b.time_us ≢ 0
    → a.node_id ≡ b.node_id
    → i ≡ j

duplicate_parts :
    (idx k t n id : ℕ) (rest : Bool)
    → ((not (idx == k) && not (t == 0) && (n == id)) || rest) ≡ false
    → (t ≢ 0 → n ≡ id → k ≡ idx) × (rest ≡ false)
duplicate_parts idx k t n id rest h = (λ p q. ground arith, ground arith)

no_duplicate :
    (nodes : List Node) (k idx id i : ℕ) (a : Node)
    → has_duplicate nodes k idx id ≡ false
    → get_elem? nodes i ≡ some a
    → a.time_us ≢ 0
    → a.node_id ≡ id
    → k + i ≡ idx
unfolding has_duplicate
no_duplicate [] k idx id i a h e t n = cc
no_duplicate (x ∷ xs) k idx id zero a h e t n =
    let s : x ≡ a = cc in
    let p = (duplicate_parts idx k x.time_us x.node_id id _ h).0 in
    omega (arith, p (rw s t) (rw s n))
no_duplicate (x ∷ xs) k idx id (suc i) a h e t n = omega (
  arith,
  no_duplicate xs (k + 1) idx id i a (duplicate_parts idx k x.time_us x.node_id id _ h).1 e t n,
)

has_duplicate-found :
    (nodes : List Node) (k idx id : ℕ)
    → has_duplicate nodes k idx id ≡ true
    → (i : ℕ) × (a : Node) × (k + i ≢ idx)
      × (get_elem? nodes i ≡ some a)
      × (a.time_us ≢ 0)
      × (a.node_id ≡ id)
unfolding has_duplicate
has_duplicate-found [] k idx id h = absurd cc
has_duplicate-found (x ∷ xs) k idx id h =
    elim (Bool-cases (not (idx == k) && not (x.time_us == 0) && (x.node_id == id))) [
      | inl e ↦ (0, x, λ s. ground arith, refl, λ s. ground arith, ground arith)
      | inr e ↦
          let (i, a, ne, at, t, n) = has_duplicate-found xs (k + 1) idx id (rw e at h) in
          (suc i, a, λ s. ne (omega (arith, s)), at, t, n)
    ]

-- What CO_HBconsumer_initEntry gives for a consumer whose entries differ.
abbrev pub Outcome : HbCons → ℕ → ℕ → InitResult → Type 0
Outcome h idx node_id illegal_argument = length h.monitored_nodes ≤ idx
Outcome h idx node_id od_parameters =
    (i : ℕ) × (a : Node) × (i ≢ idx)
    × (get_elem? h.monitored_nodes i ≡ some a)
    × (a.time_us ≢ 0)
    × (a.node_id ≡ node_id)
Outcome h idx node_id (configured after id) = IsUnique after.monitored_nodes

set-IsUnique :
    (nodes : List Node) (idx : ℕ) (v : Node)
    → IsUnique nodes
    → ((i : ℕ) (a : Node)
        → get_elem? nodes i ≡ some a
        → a.time_us ≢ 0
        → v.time_us ≢ 0
        → a.node_id ≡ v.node_id
        → i ≡ idx)
    → IsUnique (set nodes idx v)
set-IsUnique nodes idx v u other i j a b p q s t n = elim (get_elem?-set nodes idx i v a p) [
  | inl l ↦ elim (get_elem?-set nodes idx j v b q) [
    | inl r ↦ omega (arith, l.0, r.0)
    | inr r ↦
        absurd (r.0 (sym (other j b r.1 t (rw l.1 s) (sym n ∙ ap (λ x. x.node_id) (sym l.1)))))
  ]
  | inr l ↦ elim (get_elem?-set nodes idx j v b q) [
    | inl r ↦ absurd (l.0 (sym (other i a l.1 s (rw r.1 t) (n ∙ ap (λ x. x.node_id) (sym r.1)))))
    | inr r ↦ u i j a b l.1 r.1 s t n
  ]
]

used_of : (used : Bool) (t : ℕ) → (if used then t else 0) ≢ 0 → used ≡ true
used_of true t h = refl
used_of false t h = absurd (h refl)

-- CO_HBconsumer_initEntry on a consumer whose entries monitor different nodes leaves such a
-- consumer; it is refused only for an index out of range or where another entry monitors the node.
pub init_entry-Outcome :
    (h : HbCons) (idx node_id time : ℕ)
    → IsUnique h.monitored_nodes
    → Outcome h idx node_id (init_entry h idx node_id time)
unfolding init_entry
init_entry-Outcome h idx node_id time u = elim (Bool-cases (leb (length h.monitored_nodes) idx)) [
  | inl e ↦ rw e (ground arith)
  | inr e ↦
      elim (Bool-cases
        (not (time == 0) && not (node_id == 0) && has_duplicate h.monitored_nodes 0 idx node_id)) [
          | inl f ↦
              let d : has_duplicate h.monitored_nodes 0 idx node_id ≡ true = ground arith in
              let (i, a, ne, at, t, n) = has_duplicate-found h.monitored_nodes 0 idx node_id d in
              rw (e, f) (i, a, λ s. ne (omega (arith, s)), at, t, n)
          | inr f ↦
              rw (e, f)
                (set-IsUnique h.monitored_nodes idx _ u λ i a at t v n.
                  let used =
                    used_of (not (time == 0) && not (node_id == 0)) (u32 (time * 1000)) v in
                  let d : has_duplicate h.monitored_nodes 0 idx node_id ≡ false = ground arith in
                  omega (arith, no_duplicate h.monitored_nodes 0 idx node_id i a d at t n))
        ]
]
