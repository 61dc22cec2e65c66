-- ===== src/ContextPersistence.antt =====
-- core/include/betterconn/context_persistence.hpp and core/src/context_persistence.cpp: the
-- recent focus history, the counted transitions, and the companion that they suggest.
pub mod Companion
pub mod Transitions
use betterconn.Prelude.{
  ℕ, zero, suc, ◌+◌, ◌%◌, ◌^◌, Bool, true, false, not, ◌&&◌, ◌||◌, Option, none, some, List, [],
  ◌∷◌, ◌++◌, ltb, leb, ◌==◌, if◌then◌else◌, length, drop,
}
use betterconn.Prelude.Int.{ℤ, is_pos, int_eq, minus_one, ℤ_eq}
use betterconn.Prelude.Dict.{Dict, lookup, insert, map_values}
use betterconn.Double.{Double}

pub record TransitionStat : Type 0 where
  pub occurrences : ℕ
  pub total_from_occurrences : ℕ

pub record ContextPersistence : Type 0 where
  pub recent_focus_history : List ℤ
  pub history_size : ℕ
  pub transitions : Dict ℤ (Dict ℤ TransitionStat)
  pub last_recorded_pid : ℤ

abbrev pub new_context : ContextPersistence
new_context = record {
  recent_focus_history = [];
  history_size = 32;
  transitions = [];
  last_recorded_pid = minus_one;
}

-- `x += 1` on a `uint64_t`
abbrev pub increment : ℕ → ℕ
increment n = (n + 1) % 2 ^ 64

abbrev count_source : TransitionStat → TransitionStat
count_source s = record s { total_from_occurrences = increment s.total_from_occurrences }

abbrev count_target : Option TransitionStat → TransitionStat
count_target none = record { occurrences = increment 0; total_from_occurrences = 0 }
count_target (some s) = record s { occurrences = increment s.occurrences }

abbrev found_targets : Option (Dict ℤ TransitionStat) → Dict ℤ TransitionStat
found_targets none = []
found_targets (some m) = m

-- The body of the first `if` on the map of one source process.
unfoldable pub record_transition : ℤ → Dict ℤ TransitionStat → Dict ℤ TransitionStat
record_transition pid targets =
    map_values count_source (insert pid (count_target (lookup pid targets)) targets)

-- `push_back`, and `pop_front` beyond the limit
unfoldable pub push_bounded {ℓ} : {A : Type ℓ} → ℕ → A → List A → List A
push_bounded limit x xs =
    let longer = xs ++ x ∷ [] in if ltb limit (length longer) then drop 1 longer else longer

unfoldable pub record_focus_change : ℤ → ContextPersistence → ContextPersistence
unfolding record_transition push_bounded
record_focus_change pid c = if not (is_pos pid) then c else record c {
  transitions =
      if is_pos c.last_recorded_pid && not (int_eq c.last_recorded_pid pid)
      then insert c.last_recorded_pid
          (record_transition pid (found_targets (lookup c.last_recorded_pid c.transitions)))
          c.transitions
      else c.transitions;
  last_recorded_pid = pid;
  recent_focus_history = push_bounded c.history_size pid c.recent_focus_history;
}

abbrev pub switches_between_pair : ℤ → ℤ → ℤ → ℤ → Bool
switches_between_pair a b x y = (int_eq x a && int_eq y b) || (int_eq x b && int_eq y a)

-- The neighbours in the history that are the pair, in either order.
unfoldable pub alternations : List ℤ → ℤ → ℤ → ℕ
alternations [] a b = 0
alternations (x ∷ []) a b = 0
alternations (x ∷ y ∷ rest) a b =
    (if switches_between_pair a b x y then 1 else 0) + alternations (y ∷ rest) a b

unfoldable pub alternation_pattern_detected : List ℤ → ℤ → ℤ → Bool
unfolding alternations
alternation_pattern_detected history a b =
    if ltb (length history) 4 then false else leb 3 (alternations history a b)

abbrev one_more : Option ℕ → ℕ
one_more none = 1
one_more (some n) = n + 1

-- `co_occurrence_counts` after the first loop
unfoldable pub count_candidates : ℤ → List ℤ → Dict ℤ ℕ → Dict ℤ ℕ
count_candidates pid [] counts = counts
count_candidates pid (candidate ∷ rest) counts = count_candidates pid rest (
    if int_eq candidate pid || not (is_pos candidate)
    then counts
    else insert candidate (one_more (lookup candidate counts)) counts)

-- The second loop, over `best_candidate` and `best_count`
unfoldable pub best_candidate_from : List ℤ → ℤ → Dict ℤ ℕ → ℤ → ℕ → ℤ
unfolding alternation_pattern_detected
best_candidate_from history pid [] best best_count = best
best_candidate_from history pid ((candidate, n) ∷ rest) best best_count =
    let wins = ltb best_count n && alternation_pattern_detected history pid candidate in
    best_candidate_from history pid rest (if wins then candidate else best)
      (if wins then n else best_count)

unfoldable pub companion_pid : ℤ → ContextPersistence → ℤ
unfolding best_candidate_from count_candidates
companion_pid pid c = elim c.recent_focus_history [
  | [] ↦ minus_one
  | x ∷ rest ↦ best_candidate_from (x ∷ rest) pid (count_candidates pid (x ∷ rest) []) minus_one 0
]

unfoldable pub has_companion : ℤ → ContextPersistence → Bool
unfolding companion_pid
has_companion pid c = is_pos (companion_pid pid c)

module _ ⦃d : Double⦄ where
  open d use {Real, lt, div, of_ℕ, milli}

  unfoldable pub probability : TransitionStat → Real
  probability s =
      if s.total_from_occurrences == 0
      then milli 0
      else div (of_ℕ s.occurrences) (of_ℕ s.total_from_occurrences)

  abbrev stat_probability : Option TransitionStat → Real
  unfolding probability
  stat_probability none = milli 0
  stat_probability (some s) = probability s

  unfoldable pub transition_probability : ℤ → ℤ → ContextPersistence → Real
  unfolding probability
  transition_probability from_pid to_pid c = elim (lookup from_pid c.transitions) [
    | none ↦ milli 0
    | some targets ↦ stat_probability (lookup to_pid targets)
  ]

  -- The loop over `best_pid` and `best_probability`, and the test behind it
  unfoldable pub best_target_from : Dict ℤ TransitionStat → ℤ → Real → ℤ
  unfolding probability
  best_target_from [] best best_probability =
      if lt best_probability (milli 300) then minus_one else best
  best_target_from ((pid, stat) ∷ rest) best best_probability =
      let wins = lt best_probability (probability stat) in
      best_target_from rest (if wins then pid else best)
        (if wins then probability stat else best_probability)

  unfoldable pub predicted_next_pid : ℤ → ContextPersistence → ℤ
  unfolding best_target_from
  predicted_next_pid pid c = elim (lookup pid c.transitions) [
    | none ↦ minus_one
    | some targets ↦ best_target_from targets minus_one (milli 0)
  ]
