-- ===== src/ContextPersistence/Companion.antt =====
-- What `companion_pid` returns: a process that alternates with the given one.
use betterconn.Prelude.{
  ℕ, ◌+◌, ◌≤◌, ◌≡◌, refl, ◌⊎◌, inl, inr, Bool, true, false, not, ◌&&◌, ◌||◌, Option, none, some,
  List, [], ◌∷◌, arith, if◌then◌else◌, ltb, Bool-cases,
}
use betterconn.Prelude.Int.{ℤ, is_pos, int_eq, int_eq_iff, minus_one, ℤ_eq}
use betterconn.Prelude.Dict.{
  Dict, lookup, insert, lookup-insert, Distinct, insert-Distinct, AllEntries, AllEntries-of-lookup,
  AllEntries-lookup,
}
use betterconn.ContextPersistence.{
  ContextPersistence, alternations, alternation_pattern_detected, count_candidates, one_more,
  best_candidate_from, companion_pid,
}

-- How often a process stands in the history.
unfoldable pub visits : ℤ → List ℤ → ℕ
visits q [] = 0
visits q (x ∷ xs) = (if int_eq x q then 1 else 0) + visits q xs

-- The processes that may be a companion of `pid`.
abbrev pub may_accompany : ℤ → ℤ → Bool
may_accompany pid q = is_pos q && not (int_eq q pid)

abbrev count_of : Option ℕ → ℕ
count_of none = 0
count_of (some n) = n

-- The counts after the loop: the visits to each process that may be a companion.
count_candidates_lem :
    (pid q : ℤ) (history : List ℤ) (counts : Dict ℤ ℕ)
    → count_of (lookup q (count_candidates pid history counts))
      ≡ count_of (lookup q counts) + (if may_accompany pid q then visits q history else 0)
unfolding count_candidates visits
count_candidates_lem pid q [] counts = ground arith
count_candidates_lem pid q (x ∷ xs) counts = ground (
  arith,
  count_candidates_lem pid q xs (
      if int_eq x pid || not (is_pos x)
      then counts
      else insert x (one_more (lookup x counts)) counts),
  lookup-insert x q (one_more (lookup x counts)) counts,
  int_eq_iff x q,
)

count_candidates-Distinct :
    (pid : ℤ) (history : List ℤ) (counts : Dict ℤ ℕ)
    → Distinct counts
    → Distinct (count_candidates pid history counts)
unfolding count_candidates
count_candidates-Distinct pid [] counts h = h
count_candidates-Distinct pid (x ∷ xs) counts h =
    count_candidates-Distinct pid xs _
      (ground (arith, insert-Distinct x (one_more (lookup x counts)) counts h))

count_candidates-none :
    (pid q : ℤ) (history : List ℤ) (counts : Dict ℤ ℕ)
    → may_accompany pid q ≡ false
    → lookup q counts ≡ none
    → lookup q (count_candidates pid history counts) ≡ none
unfolding count_candidates
count_candidates-none pid q [] counts h e = e
count_candidates-none pid q (x ∷ xs) counts h e =
    count_candidates-none pid q xs _ h
      (ground (arith, lookup-insert x q (one_more (lookup x counts)) counts, int_eq_iff x q))

visits_of_alternations :
    (pid q : ℤ) (history : List ℤ) → 1 ≤ alternations history pid q → 1 ≤ visits q history
unfolding alternations visits
visits_of_alternations pid q [] h = absurd (omega arith)
visits_of_alternations pid q (x ∷ []) h = absurd (omega arith)
visits_of_alternations pid q (x ∷ y ∷ rest) h =
    ground (arith, visits_of_alternations pid q (y ∷ rest))

module _ (pid : ℤ) (history : List ℤ) where
  -- The process alternates with `pid` in the history.
  abbrev Alternates : ℤ → Type 0
  Alternates q = alternation_pattern_detected history pid q ≡ true

  -- What the loop knows of its best candidate, which has been counted `n` times.
  abbrev IsBest : ℤ → ℕ → Type 0
  IsBest best n =
      ((best ≡ minus_one) × (n ≡ 0))
      ⊎ ((may_accompany pid best ≡ true) × Alternates best × (n ≡ visits best history) × (1 ≤ n))

  abbrev IsCounted : ℤ → ℕ → Type 0
  IsCounted q n = (may_accompany pid q ≡ true) × (n ≡ visits q history)

  abbrev wins : ℤ → ℕ → ℕ → Bool
  wins q v n = ltb n v && alternation_pattern_detected history pid q

  -- One round of the loop.
  one_round :
      (q : ℤ) (v : ℕ) (best : ℤ) (n : ℕ)
      → IsCounted q v
      → IsBest best n
      → IsBest (if wins q v n then q else best) (if wins q v n then v else n)
        × (n ≤ (if wins q v n then v else n))
        × (Alternates q → v ≤ (if wins q v n then v else n))
  one_round q v best n h b = elim (Bool-cases (wins q v n)) [
    | inl w ↦ rw w (inr (h.0, ground arith, h.1, ground arith), ground arith, λ a. ground arith)
    | inr w ↦ rw w (b, ground arith, λ a. ground arith)
  ]

  best_candidate_from_lem :
      (m : Dict ℤ ℕ) (best : ℤ) (n : ℕ)
      → AllEntries IsCounted m
      → IsBest best n
      → (k : ℕ) × IsBest (best_candidate_from history pid m best n) k
        × (n ≤ k)
        × AllEntries (λ q v. Alternates q → v ≤ k) m
  unfolding best_candidate_from
  best_candidate_from_lem [] best n h b = (n, b, omega arith, tt)
  best_candidate_from_lem ((q, v) ∷ m) best n h b =
      let (b', grows, covers) = one_round q v best n h.0 b in
      let (k, r, le, all) =
        best_candidate_from_lem m (if wins q v n then q else best) (if wins q v n then v else n) h.1
          b' in
      (k, r, omega arith, (λ a. omega (arith, covers a), all))

  counted : AllEntries IsCounted (count_candidates pid history [])
  counted =
      AllEntries-of-lookup IsCounted (count_candidates pid history [])
        (count_candidates-Distinct pid history [] tt)
        λ q n found.
          ground
            (arith, count_candidates_lem pid q history [], count_candidates-none pid q history [])

  visits_of_Alternates : (q : ℤ) → Alternates q → 1 ≤ visits q history
  unfolding alternation_pattern_detected
  visits_of_Alternates q a = ground (arith, visits_of_alternations pid q history)

  best : ℤ
  best = best_candidate_from history pid (count_candidates pid history []) minus_one 0

  -- A process that alternates has an entry, with the number of its visits.
  covered :
      {k : ℕ}
      → AllEntries (λ q v. Alternates q → v ≤ k) (count_candidates pid history [])
      → (q : ℤ) → may_accompany pid q ≡ true
      → Alternates q
      → visits q history ≤ k
  covered {k} all q may a =
      AllEntries-lookup (λ q v. Alternates q → v ≤ k) q (visits q history)
        (count_candidates pid history []) all
        (ground (arith, count_candidates_lem pid q history [], visits_of_Alternates q a)) a

  abbrev pub IsCompanion : ℤ → Type 0
  IsCompanion r =
      ((r ≡ minus_one)
        × ((q : ℤ)
            → may_accompany pid q ≡ true
            → alternation_pattern_detected history pid q ≡ false))
      ⊎ ((may_accompany pid r ≡ true)
          × (alternation_pattern_detected history pid r ≡ true)
          × ((q : ℤ)
              → may_accompany pid q ≡ true
              → alternation_pattern_detected history pid q ≡ true
              → visits q history ≤ visits r history))

  best-IsCompanion : IsCompanion best
  unfolding best
  best-IsCompanion =
      let (k, found, _, all) =
        best_candidate_from_lem (count_candidates pid history []) minus_one 0 counted
          (inl (refl, refl)) in
      elim found [
        | inl (none_found, zero_count) ↦ inl (
          none_found,
          λ q may. elim (Bool-cases (alternation_pattern_detected history pid q)) [
            | inl a ↦ absurd (omega (arith, covered all q may a, visits_of_Alternates q a))
            | inr a ↦ a
          ],
        )
        | inr (may, a, n, _) ↦ inr (may, a, λ q may' a'. omega (arith, covered all q may' a'))
      ]

-- If some process alternates with `pid`, then `companion_pid` returns a process that alternates
-- with it, is not `pid` itself, and stands in the history at least as often as any such process.
-- If none does, the result is -1.
pub companion_pid_lem :
    (pid : ℤ) (c : ContextPersistence)
    → IsCompanion pid c.recent_focus_history (companion_pid pid c)
unfolding companion_pid best alternation_pattern_detected
companion_pid_lem pid c = by_history c.recent_focus_history
  where
    by_history :
        (history : List ℤ)
        → IsCompanion pid history (elim history [
          | [] ↦ minus_one
          | x ∷ rest ↦
              best_candidate_from (x ∷ rest) pid (count_candidates pid (x ∷ rest) []) minus_one 0
        ])
    by_history [] = inl (refl, λ q _. refl)
    by_history (x ∷ rest) = best-IsCompanion pid (x ∷ rest)
