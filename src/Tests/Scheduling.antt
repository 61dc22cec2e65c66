-- ===== src/Tests/Scheduling.antt =====
-- Runs of the scheduling of core/src/priority_scheduler.cpp, core/src/focus_decay_tracker.cpp and
-- core/src/network_flow_classifier.cpp.
use betterconn.Prelude.{
  ℕ, ◌+◌, ◌≤◌, ◌<◌, ◌^◌, true, false, not, ◌||◌, none, some, List, [], ◌∷◌, ◌≡◌, ◌≢◌, ◌⊎◌, refl,
  arith, length, All, if◌then◌else◌,
}
use betterconn.Prelude.Int.{pos, int_eq, ℤ_eq}
use betterconn.Prelude.Dict.{lookup}
use betterconn.Double.{positive}
use betterconn.Double.Fixed.{fixed, fixed-IsOrdered}
use betterconn.FocusDecayTracker.{
  FocusDecayTracker, new_tracker, forget_stale_entries, elapsed_seconds,
}
use betterconn.FocusDecayTracker.Laws.{
  Call, IsValid, perform_all, perform_all-IsValid, forget_stale_entries_lem,
}
use betterconn.NetworkFlowClassifier.{
  Samples, sample, looks_interactive, sample_window, bulk_queue_threshold_bytes, sample_variance,
}
use betterconn.NetworkFlowClassifier.Window
use betterconn.PriorityScheduler.Hysteresis.{
  run_rounds, run_rounds_dwell, retier_lem, hysteresis, hot_falls_to_cold,
}
use betterconn.PriorityScheduler.Tier.{
  min_tier_dwell_ticks, tier_for_decay, tier_boundary_crossed_with_margin, hysteresis_margin,
  retier,
}
use betterconn.PriorityTier.{cold, warm, hot}
use betterconn.ProcActivity.{SocketStateSnapshot}

run_rounds_dwell_example : run_rounds (pos 0 ∷ pos 900 ∷ []) warm 1 ≡ (warm, 3)
run_rounds_dwell_example = run_rounds_dwell (pos 0 ∷ pos 900 ∷ []) warm 1 (omega arith)

retier_lem_example :
    let r = retier false (pos 100) (some warm) 5 in
    ((r.tier_changed ≡ true)
      × (r.effective_tier ≡ tier_for_decay (pos 100))
      × (r.effective_tier ≢ warm)
      × (min_tier_dwell_ticks ≤ 5)
      × (tier_boundary_crossed_with_margin (pos 100) warm (tier_for_decay (pos 100)) ≡ true)
      × (r.ticks_in_tier ≡ 0))
    ⊎ ((r.tier_changed ≡ false) × (r.effective_tier ≡ warm) × (r.ticks_in_tier ≡ 5 + 1))
retier_lem_example = retier_lem (pos 100) warm 5

hysteresis_example :
    (b : ℕ) × (fixed.le (pos b) (pos 800) ≡ true)
    × (fixed.lt (pos 200) (fixed.sub (pos b) (hysteresis_margin)) ≡ true)
    × (fixed.lt (pos 200) (pos 800) ≡ true)
unfolding tier_for_decay tier_boundary_crossed_with_margin
hysteresis_example =
    hysteresis fixed-IsOrdered (pos 800) (pos 200) cold (refl) (omega arith) (refl) (omega arith)

hot_falls_to_cold_example :
    let r = retier false (pos 100) (some hot) 7 in
    (r.effective_tier ≡ hot)
    ⊎ ((r.effective_tier ≡ cold)
        × (fixed.lt (pos 100) (fixed.sub (pos 300) (hysteresis_margin)) ≡ true))
hot_falls_to_cold_example = hot_falls_to_cold fixed-IsOrdered (pos 100) 7

abbrev calls : List Call
calls =
    Call.focus 0 (pos 7)
    ∷ Call.recent 10 (pos 8)
    ∷ Call.network (pos 8) true
    ∷ Call.forget 20 (pos 300000)
    ∷ []

abbrev tracker : FocusDecayTracker
tracker = perform_all calls new_tracker

perform_all-IsValid_example : IsValid tracker
perform_all-IsValid_example = perform_all-IsValid calls

forget_stale_entries_lem_example :
    lookup (pos 8) (forget_stale_entries (10 ^ 12) (pos 300000) tracker).states
    ≡ elim (lookup (pos 8) tracker.states) [
      | none ↦ none
      | some s ↦
          if int_eq (pos 8) tracker.currently_focused_pid
            || (s.has_network_activity
                || not (fixed.le (pos 300000) (elapsed_seconds (10 ^ 12) s.last_focus_time)))
          then some s
          else none
    ]
forget_stale_entries_lem_example =
    forget_stale_entries_lem (10 ^ 12) (pos 300000) tracker (perform_all-IsValid calls) (pos 8)

abbrev snapshot : SocketStateSnapshot
snapshot = record {
  tcp_inodes = 11 ∷ 12 ∷ [];
  established_tcp_inodes = 12 ∷ [];
  udp_inodes = 13 ∷ [];
  queued_bytes_by_inode = (11, 70000) ∷ (12, 5) ∷ [];
}

abbrev samples : Samples
samples = (pos 7, 1 ∷ 2 ∷ 3 ∷ 4 ∷ 5 ∷ 6 ∷ []) ∷ []

abbrev samples-IsValid : Window.IsValid samples
samples-IsValid = (omega arith, tt)

sample-IsValid_example : Window.IsValid (sample (pos 7) (12 ∷ []) snapshot samples)
sample-IsValid_example = Window.sample-IsValid (pos 7) (12 ∷ []) snapshot samples samples-IsValid

looks_interactive_lem_example :
    (vs : List ℕ) × (lookup (pos 7) samples ≡ some vs)
    × (length vs ≡ sample_window)
    × All (λ v. v < bulk_queue_threshold_bytes) vs
    × (positive (sample_variance vs) ≡ true)
unfolding looks_interactive
looks_interactive_lem_example = Window.looks_interactive_lem (pos 7) samples samples-IsValid refl
