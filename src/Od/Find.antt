-- ===== src/Od/Find.antt =====
-- OD_find is a binary search: on a dictionary ordered by index it finds every entry, and ends.
use native.Mathlib.Decide.{dec_lt}
use e_rob_canopen_node_demo.Base.{
  ℕ, zero, suc, ◌+◌, ◌-◌, ◌/◌, ◌≤◌, ◌<◌, ◌≡◌, ◌≢◌, refl, List, Option, none, some, inl, inr, arith,
  get_or, length, ltb, ltb→lt, ◌==◌, if◌then◌else◌, ◌&&◌, Bool-cases,
}
use e_rob_canopen_node_demo.Od.Entries.{find_loop, find}

-- The entries are ordered by index, as `OD_t` documents, with no index twice.
abbrev pub IsOrdered : List ℕ → Type 0
IsOrdered list = (i j : ℕ) → i < j → j < length list → get_or list i 0 < get_or list j 0

-- A search between two places has ended, and its answer is right there.
pub record Searched (list : List ℕ) (index min max : ℕ) (out : Option (Option ℕ)) : Type 0 where
  pub result : Option ℕ
  pub returns : out ≡ some result
  pub sound : (i : ℕ) → result ≡ some i → (i < length list) × (get_or list i 0 ≡ index)
  pub complete :
      result ≡ none → (j : ℕ) → min ≤ j → j ≤ max → j < length list → get_or list j 0 ≢ index

hit :
    (list : List ℕ) (index min max i : ℕ)
    → i < length list
    → get_or list i 0 ≡ index
    → Searched list index min max (some (some i))
hit list index min max i p e = record {
  result = some i;
  returns = refl;
  sound = λ j h. let s : i ≡ j = cc in (rw (← s) p, rw (← s) e);
  complete = λ h. cc;
}

-- A smaller range suffices, where the rest of the range cannot hold the index.
narrow :
    (list : List ℕ) (index min max lo hi : ℕ) (out : Option (Option ℕ))
    → ((j : ℕ)
        → min ≤ j
        → j ≤ max
        → j < length list
        → get_or list j 0 ≡ index
        → (lo ≤ j) × (j ≤ hi))
    → Searched list index lo hi out
    → Searched list index min max out
narrow list index min max lo hi out rest s = record {
  result = s.result;
  returns = s.returns;
  sound = s.sound;
  complete = λ h j p q m e. s.complete h j (rest j p q m e).0 (rest j p q m e).1 m e;
}

missed :
    (list : List ℕ) (index min max : ℕ)
    → ((j : ℕ) → min ≤ j → j ≤ max → j < length list → get_or list j 0 ≢ index)
    → Searched list index min max (some none)
missed list index min max h = record {
  result = none;
  returns = refl;
  sound = λ i e. cc;
  complete = λ _. h;
}

ordered_above :
    (list : List ℕ) (index cur j : ℕ)
    → IsOrdered list
    → j < length list
    → index < get_or list cur 0
    → get_or list j 0 ≡ index
    → j < cur
ordered_above list index cur j o p lt e = elim (dec_lt j cur) [
  | yes h ↦ h
  | no h ↦ elim (dec_lt cur j) [
    | yes k ↦ absurd (omega (arith, o cur j k p))
    | no k ↦ let s : j ≡ cur = omega arith in absurd (omega (arith, rw s at e))
  ]
]

ordered_below :
    (list : List ℕ) (index cur j : ℕ)
    → IsOrdered list
    → cur < length list
    → get_or list cur 0 < index
    → get_or list j 0 ≡ index
    → cur < j
ordered_below list index cur j o p lt e = elim (dec_lt cur j) [
  | yes h ↦ h
  | no h ↦ elim (dec_lt j cur) [
    | yes k ↦ absurd (omega (arith, o j cur k p))
    | no k ↦ let s : j ≡ cur = omega arith in absurd (omega (arith, rw s at e))
  ]
]

top_bounds :
    (cur min max fuel : ℕ)
    → min ≤ cur
    → cur < max
    → max + 1 - min < suc fuel
    → (min ≤ (if ltb 0 cur then cur - 1 else cur) + 1)
      × ((if ltb 0 cur then cur - 1 else cur) + 1 - min < fuel)
      × ((if ltb 0 cur then cur - 1 else cur) ≤ cur)
      × ((j : ℕ) → j < cur → j ≤ (if ltb 0 cur then cur - 1 else cur))
top_bounds cur min max fuel a b c = elim (Bool-cases (ltb 0 cur)) [
  | inl e ↦ rw e (
    omega (arith, ltb→lt 0 cur e),
    omega (arith, ltb→lt 0 cur e),
    omega (arith, ltb→lt 0 cur e),
    λ j h. omega arith,
  )
  | inr e ↦
      let z : cur ≡ 0 = ground arith in
      rw e (omega arith, omega arith, omega arith, λ j h. omega arith)
]

find_loop-Searched :
    (fuel : ℕ) (list : List ℕ) (index min max : ℕ)
    → IsOrdered list
    → max < length list
    → min ≤ max + 1
    → max + 1 - min < fuel
    → Searched list index min max (find_loop fuel list index min max)
unfolding find_loop
find_loop-Searched zero list index min max o p q m = absurd (omega arith)
find_loop-Searched (suc fuel) list index min max o p q m = elim (Bool-cases (ltb min max)) [
  | inr e ↦ elim (Bool-cases (min == max && index == get_or list min 0)) [
    | inl h ↦ rw (e, h) (hit list index min max min (ground arith) (ground arith))
    | inr h ↦
        rw (e, h)
          (missed list index min max λ j a b w s.
            let t : j ≡ min = ground arith in
            let u : min ≡ max = ground arith in
            let v : get_or list min 0 ≡ index = rw (← t) s in ground arith)
  ]
  | inl e ↦
      let cur = (min + max) / 2 in
      let l : min < max = ground arith in
      let lo : min ≤ cur = omega arith in
      let hi : cur < max = omega arith in
      let top = top_bounds cur min max fuel lo hi m in
      elim (Bool-cases (index == get_or list cur 0)) [
        | inl h ↦ rw (e, h) (hit list index min max cur (omega arith) (ground arith))
        | inr h ↦ elim (Bool-cases (ltb index (get_or list cur 0))) [
          | inl lt ↦
              let less = ltb→lt index (get_or list cur 0) lt in
              rw (e, h, lt)
                (narrow list index min max min (if ltb 0 cur then cur - 1 else cur) _
                  (λ j a b v s.
                    (a, top.3 j (ordered_above list index cur j o (omega arith) less s)))
                  (find_loop-Searched fuel list index min (if ltb 0 cur then cur - 1 else cur) o
                    (omega (arith, top.2)) top.0 top.1))
          | inr ge ↦
              let more : get_or list cur 0 < index = ground arith in
              rw (e, h, ge)
                (narrow list index min max (cur + 1) max _
                  (λ j a b v s.
                    (omega (arith, ordered_below list index cur j o (omega arith) more s), b))
                  (find_loop-Searched fuel list index (cur + 1) max o p (omega arith)
                    (omega arith)))
        ]
      ]
]

-- On a list ordered by index, OD_find returns; the place that it returns holds the index, and
-- where it returns none no place does.
pub find-Searched :
    (list : List ℕ) (index : ℕ)
    → IsOrdered list
    → Searched list index 0 (length list) (find list index)
unfolding find
find-Searched list index o = elim (Bool-cases (length list == 0)) [
  | inl e ↦ rw e (record {
    result = none;
    returns = refl;
    sound = λ i h. cc;
    complete = λ h j a b s. ground arith;
  })
  | inr e ↦
      let s =
        find_loop-Searched (length list + 1) list index 0 (length list - 1) o (ground arith)
          (omega arith) (ground arith) in
      rw e
        (narrow list index 0 (length list) 0 (length list - 1) _ (λ j a b v s. (a, omega arith)) s)
]
