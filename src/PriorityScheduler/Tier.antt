-- ===== src/PriorityScheduler/Tier.antt =====
-- The tier that a decay factor proposes, and the decision to move to it.
use betterconn.Prelude.{
  ℕ, ◌+◌, Bool, true, false, not, ◌&&◌, Option, none, some, ltb, leb, if◌then◌else◌,
}
use betterconn.Double.{Double, real_max, real_min}
use betterconn.PriorityTier.{PriorityTier, rank, tier_eq}

-- `kMinTierDwellTicks`
abbrev pub min_tier_dwell_ticks : ℕ
min_tier_dwell_ticks = 3

-- What the branches of the loop's body leave: the tier, the rounds spent in it, and whether the
-- process is moved.
pub record Decision : Type 0 where
  pub effective_tier : PriorityTier
  pub ticks_in_tier : ℕ
  pub tier_changed : Bool

module _ ⦃d : Double⦄ where
  open d use {Real, lt, le, add, sub, milli}

  unfoldable pub tier_for_decay : Real → PriorityTier
  tier_for_decay decay_factor =
      if le (milli 700) decay_factor
      then PriorityTier.warm
      else if le (milli 300) decay_factor
      then PriorityTier.cool
      else PriorityTier.cold

  -- `kHysteresisMargin`
  abbrev pub hysteresis_margin : Real
  hysteresis_margin = milli 50

  unfoldable pub tier_boundary_crossed_with_margin : Real → PriorityTier → PriorityTier → Bool
  tier_boundary_crossed_with_margin decay_factor current_tier proposed_tier =
      if tier_eq current_tier proposed_tier
      then false
      else if ltb (rank current_tier) (rank proposed_tier)
      then le
          (add (if tier_eq current_tier PriorityTier.cold then milli 300 else milli 700)
            hysteresis_margin)
          decay_factor
      else lt decay_factor (
          sub (if tier_eq current_tier PriorityTier.warm then milli 700 else milli 300)
            hysteresis_margin)

  -- The decay factor after the two corrections, by the shape of the traffic and by the sound.
  unfoldable pub corrected_decay : Bool → Bool → Real → Real
  corrected_decay rescued_by_flow_shape demoted_by_audio_noise decay_factor =
      let raised =
        if rescued_by_flow_shape then real_max decay_factor (milli 750) else decay_factor in
      if demoted_by_audio_noise then real_min raised (milli 200) else raised

  abbrev held_or_moved : Bool → PriorityTier → PriorityTier → ℕ → Decision
  held_or_moved moves current_tier proposed_tier ticks_held =
      if moves
      then record {
        effective_tier = proposed_tier;
        ticks_in_tier = 0;
        tier_changed = not (tier_eq proposed_tier current_tier);
      }
      else record {
        effective_tier = current_tier;
        ticks_in_tier = ticks_held + 1;
        tier_changed = false;
      }

  abbrev is_hot : Option PriorityTier → Bool
  is_hot none = false
  is_hot (some t) = tier_eq t PriorityTier.hot

  -- From `proposed_tier` on: the branches on the focus, a known tier and an unknown one.
  unfoldable pub retier : Bool → Real → Option PriorityTier → ℕ → Decision
  unfolding tier_for_decay tier_boundary_crossed_with_margin
  retier true decay_factor current ticks_held = record {
    effective_tier = PriorityTier.hot;
    ticks_in_tier = 0;
    tier_changed = not (is_hot current);
  }
  retier false decay_factor none ticks_held = record {
    effective_tier = tier_for_decay decay_factor;
    ticks_in_tier = 0;
    tier_changed = true;
  }
  retier false decay_factor (some current_tier) ticks_held =
      let proposed_tier = tier_for_decay decay_factor in
      held_or_moved
        (tier_boundary_crossed_with_margin decay_factor current_tier proposed_tier
          && leb min_tier_dwell_ticks ticks_held)
        current_tier proposed_tier ticks_held
