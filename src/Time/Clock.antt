-- ===== src/Time/Clock.antt =====
-- The clock of the TIME object: it keeps the time of the process calls.
use e_rob_canopen_node_demo.Base.{
  ℕ, ◌+◌, ◌*◌, ◌/◌, ◌≤◌, ◌<◌, ◌≡◌, refl, sym, ap, ◌∙◌, List, [], ◌∷◌, Bool, false, ◌&&◌, inl, inr,
  arith, ltb, leb, Bool-cases, u16, u32,
}
use e_rob_canopen_node_demo.Time.{Time, day_ms, advance, produce, process}

-- Microseconds since the first day.
abbrev pub total : Time → ℕ
total t = (t.days * 86400000 + t.ms) * 1000 + t.residual_us

-- The microseconds of all days that the 16 bits of the days count.
abbrev pub end_of_days : ℕ
end_of_days = 65536 * 86400000 * 1000

pub record IsValid (t : Time) : Type 0 where
  pub in_day : t.ms < 86400000
  pub in_ms : t.residual_us < 1000

-- Calls of the process function, with whether the node is pre-operational or operational.
unfoldable pub elapse : List (Bool × ℕ) → Time → Time
elapse [] t = t
elapse (tick ∷ ticks) t = elapse ticks (process t tick.0 tick.1).0

abbrev pub sum : List (Bool × ℕ) → ℕ
sum [] = 0
sum (tick ∷ ticks) = tick.1 + sum ticks

-- No call is so late that its time and the residue overflow.
pub data IsShort : List (Bool × ℕ) → Type 0 where
  short_end : IsShort []
  short_tick :
      {tick : Bool × ℕ} {ticks : List (Bool × ℕ)}
      → tick.1 < 4294966297
      → IsShort ticks
      → IsShort (tick ∷ ticks)

record Kept (t : Time) (dt : ℕ) (u : Time) : Type 0 where
  is_valid : IsValid u
  is_kept : total u ≡ total t + dt
  is_quiet : u.can_rx_new ≡ t.can_rx_new

advance-Kept :
    (t : Time) (dt : ℕ)
    → IsValid t
    → total t + dt < end_of_days
    → dt < 4294966297
    → Kept t dt (advance t dt).0
unfolding advance
advance-Kept t dt v d b =
    let in_day = v.in_day in
    let in_ms = v.in_ms in
    let e : u32 (dt + t.residual_us) ≡ dt + t.residual_us = omega arith in
    let f : u32 (t.ms + (dt + t.residual_us) / 1000) ≡ t.ms + (dt + t.residual_us) / 1000 =
      omega arith in
    elim (Bool-cases (leb day_ms (t.ms + (dt + t.residual_us) / 1000))) [
      | inl h ↦
          let over : 86400000 ≤ t.ms + (dt + t.residual_us) / 1000 = ground arith in
          let g : u16 (t.days + 1) ≡ t.days + 1 = omega arith in
          rw (e, f, g, h)
            (record {
              is_valid = record { in_day = omega arith; in_ms = omega arith };
              is_kept = omega arith;
              is_quiet = refl;
            })
      | inr h ↦
          let under : t.ms + (dt + t.residual_us) / 1000 < 86400000 = ground arith in
          rw (e, f, h)
            (record {
              is_valid = record { in_day = omega arith; in_ms = omega arith };
              is_kept = omega arith;
              is_quiet = refl;
            })
    ]

-- The producer does not change the clock.
produce-Kept :
    {t : Time} {dt : ℕ} (u : Time) (nmt : Bool) (ms : ℕ)
    → Kept t dt u
    → Kept t dt (produce u nmt ms).0
unfolding produce
produce-Kept u nmt ms k = elim (Bool-cases (nmt && u.is_producer && ltb 0 u.producer_interval_ms)) [
  | inl h ↦ elim (Bool-cases (leb u.producer_interval_ms u.producer_timer_ms)) [
    | inl g ↦ rw (h, g) (same _ k)
    | inr g ↦ rw (h, g) (same _ k)
  ]
  | inr h ↦ rw h (same _ k)
]
  where
    same :
        {t : Time} {dt : ℕ} {u : Time} (timer : ℕ)
        → Kept t dt u
        → Kept t dt (record u { producer_timer_ms = timer })
    same timer k = record {
      is_valid = record { in_day = k.is_valid.in_day; in_ms = k.is_valid.in_ms };
      is_kept = k.is_kept;
      is_quiet = k.is_quiet;
    }

process-Kept :
    (t : Time) (nmt : Bool) (dt : ℕ)
    → IsValid t
    → total t + dt < end_of_days
    → dt < 4294966297
    → t.can_rx_new ≡ false
    → Kept t dt (process t nmt dt).0
unfolding process
process-Kept t nmt dt v d b q =
    let r : (nmt && t.is_consumer && t.can_rx_new) ≡ false = ground arith in
    let s = record t { can_rx_new = false } in
    let w : IsValid s = record { in_day = v.in_day; in_ms = v.in_ms } in
    elim (Bool-cases (ltb 0 dt)) [
      | inl h ↦
          let k = advance-Kept s dt w d b in
          let p = produce-Kept {t = s} {dt = dt} (advance s dt).0 nmt (advance s dt).1 k in
          rw (r, h)
            (record { is_valid = p.is_valid; is_kept = p.is_kept; is_quiet = p.is_quiet ∙ sym q })
      | inr h ↦
          let z : dt ≡ 0 = ground arith in
          let p =
            produce-Kept {t = s} {dt = dt} s nmt 0
              (record { is_valid = w; is_kept = omega arith; is_quiet = refl }) in
          rw (r, h)
            (record { is_valid = p.is_valid; is_kept = p.is_kept; is_quiet = p.is_quiet ∙ sym q })
    ]

-- Over calls of the process function without a received time stamp, the clock advances by exactly the
-- time of the calls, to the microsecond. The clock starts valid, no call is so late that its time
-- overflows, and the time after all calls is before the day 65536, where the 16 bits of the days end.
pub total-elapse :
    (ticks : List (Bool × ℕ)) (t : Time)
    → IsValid t
    → t.can_rx_new ≡ false
    → total t + sum ticks < end_of_days
    → IsShort ticks
    → IsValid (elapse ticks t) × (total (elapse ticks t) ≡ total t + sum ticks)
unfolding elapse
total-elapse [] t v q d s = (v, omega arith)
total-elapse (tick ∷ ticks) t v q d (short_tick b s) =
    let k = process-Kept t tick.0 tick.1 v (omega arith) b q in
    let kept = k.is_kept in
    let rest =
      total-elapse ticks (process t tick.0 tick.1).0 k.is_valid (k.is_quiet ∙ q) (omega arith) s in
    (rest.0, rest.1 ∙ ap (λ n. n + sum ticks) k.is_kept ∙ omega arith)
