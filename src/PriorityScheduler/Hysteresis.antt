-- ===== src/PriorityScheduler/Hysteresis.antt =====
-- When a process changes its tier, over several rounds and by the margins of
-- core/src/priority_scheduler.cpp.
use betterconn.Prelude.{
  ℕ, ◌+◌, ◌≤◌, ◌<◌, ◌≡◌, ◌≢◌, ◌⊎◌, inl, inr, refl, ap, ◌∙◌, true, false, some, List, [], ◌∷◌, arith,
  leb, length, Bool-cases,
}
use betterconn.Double.{Double, IsOrdered}
use betterconn.PriorityScheduler.Tier.{
  min_tier_dwell_ticks, tier_for_decay, tier_boundary_crossed_with_margin, hysteresis_margin,
  retier,
}
use betterconn.PriorityTier.{PriorityTier, cold, cool, warm, hot, rank, tier_eq}

module _ ⦃d : Double⦄ where
  open d use {Real, lt, le, add, sub, milli}

  -- The rounds of a process that is known and not focused: its tier and its counter after a
  -- sequence of decay factors.
  unfoldable pub run_rounds : List Real → PriorityTier → ℕ → PriorityTier × ℕ
  run_rounds [] t k = (t, k)
  run_rounds (x ∷ xs) t k =
      let r = retier false x (some t) k in run_rounds xs r.effective_tier r.ticks_in_tier

  retier_dwells :
      (x : Real) (t : PriorityTier) (k : ℕ)
      → k < min_tier_dwell_ticks
      → retier false x (some t) k
        ≡ record { effective_tier = t; ticks_in_tier = k + 1; tier_changed = false }
  unfolding retier
  retier_dwells x t k h = ground arith

  -- A process that has been `k` rounds in its tier stays there for the next rounds, whatever its
  -- decay factors, as long as these rounds end within the minimum of three.
  pub run_rounds_dwell :
      (xs : List Real) (t : PriorityTier) (k : ℕ)
      → k + length xs ≤ min_tier_dwell_ticks
      → run_rounds xs t k ≡ (t, k + length xs)
  unfolding run_rounds
  run_rounds_dwell [] t k h = ap (λ n. (t, n)) (omega arith)
  run_rounds_dwell (x ∷ xs) t k h =
      rw (retier_dwells x t k (omega arith))
        (run_rounds_dwell xs t (k + 1) (omega arith) ∙ ap (λ n. (t, n)) (omega arith))

  crossed-ne :
      (x : Real) (t p : PriorityTier)
      → tier_boundary_crossed_with_margin x t p ≡ true
      → (p ≢ t) × (tier_eq p t ≡ false)
  unfolding tier_boundary_crossed_with_margin
  crossed-ne x t p h = (λ e. ground arith, ground arith)

  -- A process without the focus changes its tier only to the one that its decay factor proposes,
  -- after three rounds in its tier or more, and beyond the margin; otherwise it keeps its tier and
  -- its counter grows. It is moved exactly if its tier changes.
  pub retier_lem :
      (x : Real) (t : PriorityTier) (k : ℕ)
      → let r = retier false x (some t) k in
        ((r.tier_changed ≡ true)
          × (r.effective_tier ≡ tier_for_decay x)
          × (r.effective_tier ≢ t)
          × (min_tier_dwell_ticks ≤ k)
          × (tier_boundary_crossed_with_margin x t (tier_for_decay x) ≡ true)
          × (r.ticks_in_tier ≡ 0))
        ⊎ ((r.tier_changed ≡ false) × (r.effective_tier ≡ t) × (r.ticks_in_tier ≡ k + 1))
  unfolding retier
  retier_lem x t k =
      let p = tier_for_decay x in
      elim (Bool-cases (tier_boundary_crossed_with_margin x t p)) [
        | inl crossed ↦
            let (ne, differs) = crossed-ne x t p crossed in
            elim (Bool-cases (leb min_tier_dwell_ticks k)) [
              | inl held ↦
                  rw (crossed, held, differs) (inl (refl, refl, ne, ground arith, refl, refl))
              | inr early ↦ rw (crossed, early) (inr (refl, refl, refl))
            ]
        | inr inside ↦ rw inside (inr (refl, refl, refl))
      ]

  module _ (o : IsOrdered d) where
    -- The tier that a decay factor proposes grows with the factor.
    pub tier_for_decay_mono :
        (x y : Real) → le x y ≡ true → rank (tier_for_decay x) ≤ rank (tier_for_decay y)
    unfolding tier_for_decay
    tier_for_decay_mono x y h = ground (
      arith,
      o.le_trans (milli 700) x y,
      o.le_trans (milli 300) x y,
      o.le_trans (milli 300) (milli 700) x,
      o.le_trans (milli 300) (milli 700) y,
      o.milli_le 300 700,
    )

    below_margin :
        (x y : Real) (b : ℕ)
        → le (milli b) x ≡ true
        → lt y (sub (milli b) hysteresis_margin) ≡ true
        → lt y x ≡ true
    below_margin x y b high below = o.lt_le_trans y (sub (milli b) hysteresis_margin) x below (
        o.le_trans (sub (milli b) hysteresis_margin) (milli b) x
          (o.sub-le (milli b) hysteresis_margin (o.milli_le 0 50 (omega arith))
            (o.milli_le b b (omega arith)))
          high)

    -- After a move up at one decay factor, a move down needs a factor that is strictly smaller, and
    -- smaller than the boundary by the margin where the first was not below that boundary.
    pub hysteresis :
        (x y : Real) (t : PriorityTier)
        → tier_boundary_crossed_with_margin x t (tier_for_decay x) ≡ true
        → rank t < rank (tier_for_decay x)
        → tier_boundary_crossed_with_margin y (tier_for_decay x) (tier_for_decay y) ≡ true
        → rank (tier_for_decay y) < rank (tier_for_decay x)
        → (b : ℕ) × (le (milli b) x ≡ true)
          × (lt y (sub (milli b) hysteresis_margin) ≡ true)
          × (lt y x ≡ true)
    unfolding tier_for_decay tier_boundary_crossed_with_margin
    hysteresis x y t up rises down falls = elim (Bool-cases (le (milli 700) x)) [
      | inl high ↦
          let below : lt y (sub (milli 700) hysteresis_margin) ≡ true = ground arith in
          (700, high, below, below_margin x y 700 high below)
      | inr low ↦ elim (Bool-cases (le (milli 300) x)) [
        | inl middle ↦
            let below : lt y (sub (milli 300) hysteresis_margin) ≡ true = ground arith in
            (300, middle, below, below_margin x y 300 middle below)
        | inr lowest ↦ absurd (ground arith)
      ]
    ]

    crossed_hot :
        (x : Real) (p : PriorityTier)
        → tier_boundary_crossed_with_margin x hot p ≡ true
        → lt x (sub (milli 300) hysteresis_margin) ≡ true
    unfolding tier_boundary_crossed_with_margin
    crossed_hot x cold h = h
    crossed_hot x cool h = h
    crossed_hot x warm h = h
    crossed_hot x hot h = absurd (cc)

    below_cold :
        (x : Real) → lt x (sub (milli 300) hysteresis_margin) ≡ true → tier_for_decay x ≡ cold
    unfolding tier_for_decay
    below_cold x below =
        let low : le (milli 300) x ≡ false = o.lt-not_le x (milli 300) (
          o.lt_le_trans x (sub (milli 300) hysteresis_margin) (milli 300) below (
            o.sub-le (milli 300) hysteresis_margin (o.milli_le 0 50 (omega arith))
              (o.milli_le 300 300 (omega arith)))) in
        ground (arith, o.le_trans (milli 300) (milli 700) x (o.milli_le 300 700 (omega arith)))

    -- A process that had the focus leaves the top tier for the lowest one only: it stays hot until
    -- its decay factor is below 0.3 by the margin, and then falls to cold. It is never warm or cool
    -- in between.
    pub hot_falls_to_cold :
        (x : Real) (k : ℕ)
        → let r = retier false x (some hot) k in
          (r.effective_tier ≡ hot)
          ⊎ ((r.effective_tier ≡ cold) × (lt x (sub (milli 300) hysteresis_margin) ≡ true))
    hot_falls_to_cold x k = elim (retier_lem x hot k) [
      | inl (changed, proposed, ne, held, crossed, reset) ↦
          let below = crossed_hot x (tier_for_decay x) crossed in
          inr (proposed ∙ below_cold x below, below)
      | inr (same, kept, grows) ↦ inl kept
    ]
