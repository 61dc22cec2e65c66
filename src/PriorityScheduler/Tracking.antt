-- ===== src/PriorityScheduler/Tracking.antt =====
-- What a round of core/src/priority_scheduler.cpp does to the tables of tiers: the scoring of the
-- tracked processes, and the pruning.
use betterconn.Prelude.{ℕ, ◌≡◌, refl, ◌∙◌, none, List, [], ◌∷◌, arith, if◌then◌else◌}
use betterconn.Double.{Double}
use betterconn.FocusDecayTracker.{FocusDecayTracker, tracked_pids, forget_stale_entries}
use betterconn.Os.{Os}
use betterconn.Prelude.Dict.{Dict, lookup, keys, member, member-keys, lookup-erase, erase}
use betterconn.Prelude.Int.{ℤ, int_eq_iff, ℤ_eq}
use betterconn.NetworkFlowClassifier.{forget}
use betterconn.PriorityScheduler.Round.{
  LoopState, decide, store_decision, is_scored, drop_untracked, prune,
}
use betterconn.PriorityTier.{PriorityTier}

module _ ⦃d : Double⦄ where
  -- The tables after the body of the loop for one process.
  abbrev after_scoring : ℕ → ℤ → LoopState → LoopState
  after_scoring t pid s = if is_scored pid s then store_decision pid (decide t pid s) s else s

  drop_untracked_lem :
      (live : List ℤ) (m : Dict ℤ PriorityTier) (s : LoopState) (q : ℤ)
      → lookup q (drop_untracked live m s).current_tier ≡ (
          if member q live
          then lookup q s.current_tier
          else if member q (keys m)
          then none
          else lookup q s.current_tier)
  unfolding drop_untracked
  drop_untracked_lem live [] s q = ground arith
  drop_untracked_lem live ((pid, tier) ∷ rest) s q = ground (
    arith,
    drop_untracked_lem live rest s q,
    drop_untracked_lem live rest
        (record s {
          ticks_in_tier = erase pid s.ticks_in_tier;
          flow_classifier = forget pid s.flow_classifier;
          current_tier = erase pid s.current_tier;
        })
        q,
    lookup-erase pid q s.current_tier,
    int_eq_iff pid q,
    int_eq_iff q pid,
  )

  drop_untracked-focus :
      (live : List ℤ) (m : Dict ℤ PriorityTier) (s : LoopState)
      → (drop_untracked live m s).focus_tracker ≡ s.focus_tracker
  unfolding drop_untracked
  drop_untracked-focus live [] s = refl
  drop_untracked-focus live ((pid, tier) ∷ rest) s = drop_untracked-focus live rest _ ∙ ground arith

  -- After the pruning, a process has a tier in the table exactly if it is tracked and had one, and
  -- it is the one that it had: no entry of a process that is no longer tracked is left.
  pub prune_lem :
      (t : ℕ) (s : LoopState) (q : ℤ)
      → lookup q (prune t s).current_tier ≡ (
          if member q (tracked_pids (prune t s).focus_tracker)
          then lookup q s.current_tier
          else none)
  unfolding prune
  prune_lem t s q =
      let tracker = forget_stale_entries t (d.milli 300000) s.focus_tracker in
      let live = tracked_pids tracker in
      let s' = record s { focus_tracker = tracker } in
      rw (drop_untracked-focus live s.current_tier s')
        (ground (arith, drop_untracked_lem live s.current_tier s' q, member-keys q s.current_tier))
