-- ===== src/Fifo/Newline.antt =====
-- Bytes in a span of the buffer: the search of CO_fifo_CommSearch with memchr, straight and round the
-- end of the buffer.
use e_rob_canopen_node_demo.Base.{
  ℕ, zero, suc, ◌+◌, ◌-◌, ◌≤◌, ◌<◌, ◌≡◌, refl, sym, ◌∙◌, ap, ap₂, List, [], ◌∷◌, arith, none, some,
  inl, inr, get_or, Bool, true, false, Bool-cases, if◌then◌else◌, ◌==◌, ◌||◌,
}
use e_rob_canopen_node_demo.Fifo.{memchr}
use e_rob_canopen_node_demo.Fifo.Contents.{span}
use e_rob_canopen_node_demo.Base.Ring.{next_index, next_index-lt}

unfoldable pub has_byte : ℕ → List ℕ → Bool
has_byte c [] = false
has_byte c (b ∷ q) = b == c || has_byte c q

-- What follows the first `c`; nothing, if there is none.
unfoldable pub after_byte : ℕ → List ℕ → List ℕ
after_byte c [] = []
after_byte c (b ∷ q) = if b == c then q else after_byte c q

module _ (buf : List ℕ) (size c : ℕ) where
  memchr-hit :
      (n start : ℕ) → (get_or buf start 0 == c) ≡ true → memchr buf c start (suc n) ≡ some start
  unfolding memchr
  memchr-hit n start hit = rw hit

  memchr-miss :
      (n start : ℕ)
      → (get_or buf start 0 == c) ≡ false
      → memchr buf c start (suc n) ≡ memchr buf c (start + 1) n
  unfolding memchr
  memchr-miss n start miss = rw miss

  memchr-zero : (start : ℕ) → memchr buf c start 0 ≡ none
  unfolding memchr
  memchr-zero start = refl

  -- A find in the straight part of a span, `n` bytes of its `k`.
  pub record Hit (n k start i : ℕ) : Type 0 where
    pub from : start ≤ i
    pub below : i < start + n
    pub there : has_byte c (span buf size start k) ≡ true
    pub behind :
        after_byte c (span buf size start k)
        ≡ span buf size (next_index size i) (start + k - (i + 1))

  pub memchr-Hit :
      (n k m start i : ℕ)
      → k ≡ n + m
      → start + n ≤ size
      → memchr buf c start n ≡ some i
      → Hit n k start i
  unfolding has_byte after_byte
  memchr-Hit zero k m start i e fits h = cc (memchr-zero start)
  memchr-Hit (suc n) zero m start i e fits h = absurd (omega arith)
  memchr-Hit (suc n) (suc k) m start i e fits h = elim (Bool-cases (get_or buf start 0 == c)) [
    | inl hit ↦
        let same : start ≡ i = cc (memchr-hit n start hit) in
        record {
          from = omega arith;
          below = omega arith;
          there = rw hit;
          behind = rw hit (ap₂ (λ p q. span buf size (next_index size p) q) same (omega arith));
        }
    | inr miss ↦
        let h' : memchr buf c (start + 1) n ≡ some i = sym (memchr-miss n start miss) ∙ h in
        elim (Bool-cases (n == 0)) [
          | inl z ↦
              let z' : n ≡ 0 = ground arith in
              cc (memchr-zero (start + 1), ap (memchr buf c (start + 1)) z')
          | inr nz ↦
              let straight : next_index size start ≡ start + 1 = ground arith in
              let ih = memchr-Hit n k m (start + 1) i (omega arith) (omega arith) h' in
              record {
                from = omega (arith, ih.from);
                below = omega (arith, ih.below);
                there = rw (miss, straight) ih.there;
                behind =
                    rw (miss, straight)
                      (ih.behind ∙ ap (span buf size (next_index size i)) (omega arith));
              }
        ]
  ]

  -- Nothing found there: the search goes on behind it.
  pub memchr-none :
      (n k m start : ℕ)
      → k ≡ n + m
      → start < size
      → start + n ≤ size
      → memchr buf c start n ≡ none
      → let rest = span buf size (if start + n == size then 0 else start + n) m in
        (has_byte c (span buf size start k) ≡ has_byte c rest)
        × (after_byte c (span buf size start k) ≡ after_byte c rest)
  unfolding has_byte after_byte
  memchr-none zero k m start e lt fits h =
      let e' : k ≡ m = omega arith in
      let s : (if start + 0 == size then 0 else start + 0) ≡ start = ground arith in
      rw (s, e') (refl, refl)
  memchr-none (suc n) zero m start e lt fits h = absurd (omega arith)
  memchr-none (suc n) (suc k) m start e lt fits h = elim (Bool-cases (get_or buf start 0 == c)) [
    | inl hit ↦ cc (memchr-hit n start hit)
    | inr miss ↦
        let next = next_index size start in
        let h' : memchr buf c (start + 1) n ≡ none = sym (memchr-miss n start miss) ∙ h in
        let h'' : memchr buf c next n ≡ none = onward n start fits h' in
        let ends : (if next + n == size then 0 else next + n)
            ≡ (if start + suc n == size then 0 else start + suc n) =
          ground arith in
        let ih =
          memchr-none n k m next (omega arith) (next_index-lt size start lt) (ground arith) h'' in
        rw (sym ends) (rw miss ih)
  ]
    where
      onward :
          (n start : ℕ)
          → start + suc n ≤ size
          → memchr buf c (start + 1) n ≡ none
          → memchr buf c (next_index size start) n ≡ none
      onward zero start fits h = memchr-zero (next_index size start)
      onward (suc n) start fits h =
          let straight : next_index size start ≡ start + 1 = ground arith in rw straight h
