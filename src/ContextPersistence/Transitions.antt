-- ===== src/ContextPersistence/Transitions.antt =====
-- The counted transitions: what one focus change does to the counts, and their bounds.
use mathlib.Core.Option
use betterconn.Prelude.{
  ℕ, ◌+◌, ◌≤◌, ◌<◌, ◌^◌, ◌≡◌, refl, Bool, true, false, not, ◌&&◌, Option, none, some, List, [], ◌∷◌,
  ◌++◌, arith, if◌then◌else◌, length, length-append, length-drop, Bool-cases, inl, inr, ◌⊎◌,
}
use betterconn.Prelude.Int.{ℤ, is_pos, int_eq, int_eq_iff, ℤ_eq}
use betterconn.Prelude.Dict.{
  Dict, lookup, insert, lookup-insert, lookup-map_values, AllValues, AllValues-insert,
  AllValues-lookup, AllValues-map_values, AllValues-weaken,
}
use betterconn.ContextPersistence.{
  TransitionStat, ContextPersistence, new_context, increment, count_source, count_target,
  found_targets, record_transition, push_bounded, record_focus_change,
}

-- What the map of a source process holds for `q` after a transition to `pid`.
abbrev pub stat_after : Bool → Option TransitionStat → Option TransitionStat
stat_after true none = some (record { occurrences = 1; total_from_occurrences = 1 })
stat_after true (some s) = some (record {
  occurrences = increment s.occurrences;
  total_from_occurrences = increment s.total_from_occurrences;
})
stat_after false none = none
stat_after false (some s) =
    some (record s { total_from_occurrences = increment s.total_from_occurrences })

-- A transition to `pid` adds one to its occurrences and one to the total of every known target.
-- A target that is seen for the first time starts with one occurrence of a total of one, however
-- many transitions left the source before.
pub record_transition_lem :
    (pid q : ℤ) (targets : Dict ℤ TransitionStat)
    → lookup q (record_transition pid targets) ≡ stat_after (int_eq pid q) (lookup q targets)
unfolding record_transition
record_transition_lem pid q targets =
    rw (lookup-map_values, lookup-insert) (by_found q (Bool-cases (int_eq pid q)))
  where
    by_found :
        (q : ℤ)
        → (int_eq pid q ≡ true) ⊎ (int_eq pid q ≡ false)
        → Option.map count_source
            (if int_eq pid q then some (count_target (lookup pid targets)) else lookup q targets)
          ≡ stat_after (int_eq pid q) (lookup q targets)
    by_found q (inl same) = ground (arith, int_eq_iff pid q)
    by_found q (inr other) = ground arith

-- The bounds on one count, after `n` focus changes.
pub record IsBounded (n : ℕ) (s : TransitionStat) : Type 0 where
  pub occurs : s.occurrences ≤ s.total_from_occurrences
  pub bounded : s.total_from_occurrences ≤ n

abbrev TargetsBounded : ℕ → Dict ℤ TransitionStat → Type 0
TargetsBounded n = AllValues (IsBounded n)

pub record IsValid (n : ℕ) (c : ContextPersistence) : Type 0 where
  pub history : length c.recent_focus_history ≤ c.history_size
  pub counts : AllValues (TargetsBounded n) c.transitions

count_source-IsBounded :
    (n : ℕ)
    → n + 1 < 2 ^ 64
    → (s : TransitionStat)
    → (s.occurrences ≤ s.total_from_occurrences + 1) × (s.total_from_occurrences ≤ n)
    → IsBounded (n + 1) (count_source s)
count_source-IsBounded n small s h = ground arith

-- As `IsBounded`, between the two steps of `record_transition`.
abbrev AlmostBounded : ℕ → TransitionStat → Type 0
AlmostBounded n s = (s.occurrences ≤ s.total_from_occurrences + 1) × (s.total_from_occurrences ≤ n)

record_transition-bounded :
    (n : ℕ) (pid : ℤ) (targets : Dict ℤ TransitionStat)
    → n + 1 < 2 ^ 64
    → TargetsBounded n targets
    → TargetsBounded (n + 1) (record_transition pid targets)
unfolding record_transition
record_transition-bounded n pid targets small h =
    AllValues-map_values (AlmostBounded n) (IsBounded (n + 1)) count_source
      (insert pid (count_target (lookup pid targets)) targets) (count_source-IsBounded n small)
      (AllValues-insert (AlmostBounded n) pid (count_target (lookup pid targets)) targets
        (AllValues-weaken (IsBounded n) (AlmostBounded n) targets (λ s b. (omega arith, b.bounded))
          h)
        (target (lookup pid targets) refl))
  where
    target :
        (found : Option TransitionStat)
        → lookup pid targets ≡ found
        → AlmostBounded n (count_target found)
    target none e = (omega arith, omega arith)
    target (some s) e =
        let b = AllValues-lookup (IsBounded n) pid targets h e in
        (let o = b.occurs in let t = b.bounded in omega arith, b.bounded)

push_bounded-length :
    {A : Type 0} (limit : ℕ) (x : A) (xs : List A)
    → length xs ≤ limit
    → length (push_bounded limit x xs) ≤ limit
unfolding push_bounded
push_bounded-length limit x xs h =
    ground (arith, length-append xs (x ∷ []), length-drop 1 (xs ++ x ∷ []))

found_targets-bounded :
    (n : ℕ) (source : ℤ) (m : Dict ℤ (Dict ℤ TransitionStat))
    → AllValues (TargetsBounded n) m
    → TargetsBounded n (found_targets (lookup source m))
found_targets-bounded n source m h = by_found (lookup source m) refl
  where
    by_found :
        (found : Option (Dict ℤ TransitionStat))
        → lookup source m ≡ found
        → TargetsBounded n (found_targets found)
    by_found none e = tt
    by_found (some targets) e = AllValues-lookup (TargetsBounded n) source m h e

weaken-counts :
    (n : ℕ) (m : Dict ℤ (Dict ℤ TransitionStat))
    → AllValues (TargetsBounded n) m
    → AllValues (TargetsBounded (n + 1)) m
weaken-counts n m h =
    AllValues-weaken (TargetsBounded n) (TargetsBounded (n + 1)) m
      (λ targets.
        AllValues-weaken (IsBounded n) (IsBounded (n + 1)) targets
          (λ s b. record { occurs = b.occurs; bounded = let t = b.bounded in omega arith }))
      h

-- The history never outgrows its limit, and after `n` focus changes, fewer than 2^64 - 1, no
-- counter has wrapped around: occurrences stay at most their total, which stays at most `n`.
pub record_focus_change-IsValid :
    (n : ℕ) (pid : ℤ) (c : ContextPersistence)
    → n + 1 < 2 ^ 64
    → IsValid n c
    → IsValid (n + 1) (record_focus_change pid c)
unfolding record_focus_change
record_focus_change-IsValid n pid c small v = elim (Bool-cases (is_pos pid)) [
  | inl p ↦ rw p (record {
    history = push_bounded-length c.history_size pid c.recent_focus_history v.history;
    counts =
        elim (Bool-cases (is_pos c.last_recorded_pid && not (int_eq c.last_recorded_pid pid))) [
          | inl moved ↦ rw moved (
              AllValues-insert (TargetsBounded (n + 1)) c.last_recorded_pid
                (record_transition pid (found_targets (lookup c.last_recorded_pid c.transitions)))
                c.transitions (weaken-counts n c.transitions v.counts)
                (record_transition-bounded n pid _ small
                  (found_targets-bounded n c.last_recorded_pid c.transitions v.counts)))
          | inr stayed ↦ rw stayed (weaken-counts n c.transitions v.counts)
        ];
  })
  | inr p ↦ rw p (record { history = v.history; counts = weaken-counts n c.transitions v.counts })
]

-- The invariant at the start.
pub new_context-IsValid : IsValid 0 new_context
new_context-IsValid = record { history = omega arith; counts = tt }
