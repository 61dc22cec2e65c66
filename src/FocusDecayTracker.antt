-- ===== src/FocusDecayTracker.antt =====
-- core/src/focus_decay_tracker.cpp: which process has the focus, when each last had it, and
-- whether it uses the network. The steady clock is an argument, in nanoseconds.
pub mod Laws
use betterconn.Prelude.{
  ℕ, ◌-◌, ◌^◌, Bool, true, false, not, ◌&&◌, Option, none, some, List, [], if◌then◌else◌,
}
use betterconn.Prelude.Int.{ℤ, is_pos, int_eq, minus_one, ℤ_eq}
use betterconn.Prelude.Dict.{Dict, lookup, insert, keys, retain}
use betterconn.Double.{Double}

pub record FocusDecayState : Type 0 where
  pub last_focus_time : ℕ
  pub has_network_activity : Bool

pub record FocusDecayTracker ⦃d : Double⦄ : Type 0 where
  pub half_life_seconds : d.Real
  pub currently_focused_pid : ℤ
  pub states : Dict ℤ FocusDecayState

module _ ⦃d : Double⦄ where
  open d use {Real, le, div, neg, exp, of_ℕ, milli}

  abbrev pub new_tracker : FocusDecayTracker
  new_tracker = record {
    half_life_seconds = milli 25000;
    currently_focused_pid = minus_one;
    states = [];
  }

  -- `states_[pid].last_focus_time = now`, where `[]` creates a missing entry
  abbrev pub touched : ℕ → Option FocusDecayState → FocusDecayState
  touched now none = record { last_focus_time = now; has_network_activity = false }
  touched now (some s) = record s { last_focus_time = now }

  unfoldable pub mark_focused : ℕ → ℤ → FocusDecayTracker → FocusDecayTracker
  mark_focused now pid t =
      if is_pos pid
      then record t {
        currently_focused_pid = pid;
        states = insert pid (touched now (lookup pid t.states)) t.states;
      }
      else t

  unfoldable pub mark_recently_used : ℕ → ℤ → FocusDecayTracker → FocusDecayTracker
  mark_recently_used now pid t =
      if is_pos pid
      then record t { states = insert pid (touched now (lookup pid t.states)) t.states }
      else t

  unfoldable pub update_network_activity : ℤ → Bool → FocusDecayTracker → FocusDecayTracker
  update_network_activity pid active t = elim (lookup pid t.states) [
    | none ↦ t
    | some s ↦ record t {
      states = insert pid (record s { has_network_activity = active }) t.states;
    }
  ]

  unfoldable pub is_currently_focused : ℤ → FocusDecayTracker → Bool
  is_currently_focused pid t = is_pos pid && int_eq pid t.currently_focused_pid

  -- `std::chrono::duration<double>` between two readings of the clock, which never runs back
  abbrev pub elapsed_seconds : ℕ → ℕ → Real
  elapsed_seconds now last = div (of_ℕ (now - last)) (of_ℕ (10 ^ 9))

  unfoldable pub decay_factor_for : ℕ → ℤ → FocusDecayTracker → Real
  unfolding is_currently_focused
  decay_factor_for now pid t =
      if is_currently_focused pid t then milli 1000 else elim (lookup pid t.states) [
        | none ↦ milli 0
        | some s ↦ exp (div (neg (elapsed_seconds now s.last_focus_time)) t.half_life_seconds)
      ]

  unfoldable pub has_network_activity : ℤ → FocusDecayTracker → Bool
  has_network_activity pid t = elim (lookup pid t.states) [
    | none ↦ false
    | some s ↦ s.has_network_activity
  ]

  unfoldable pub tracked_pids : FocusDecayTracker → List ℤ
  tracked_pids t = keys t.states

  -- The test of the loop in `forget_stale_entries`: the entry stays.
  abbrev pub is_kept : ℕ → Real → ℤ → ℤ → FocusDecayState → Bool
  is_kept now max_age focused pid s =
      if int_eq pid focused
      then true
      else not (le max_age (elapsed_seconds now s.last_focus_time) && not s.has_network_activity)

  unfoldable pub forget_stale_entries : ℕ → Real → FocusDecayTracker → FocusDecayTracker
  forget_stale_entries now max_age t = record t {
    states = retain (is_kept now max_age t.currently_focused_pid) t.states;
  }
