-- ===== src/FocusDecayTracker/Laws.antt =====
-- The calls on the tracker of core/src/focus_decay_tracker.cpp, in sequence, and what pruning and
-- refreshing change.
use betterconn.Prelude.{
  ℕ, ◌≡◌, refl, Bool, true, not, ◌||◌, ◌∙◌, ◌⊎◌, inl, inr, none, some, List, [], ◌∷◌, arith,
  if◌then◌else◌, Option-cases, Bool-cases,
}
use betterconn.Prelude.Int.{ℤ, is_pos, int_eq, int_eq_iff, ℤ_eq}
use betterconn.Prelude.Dict.{
  lookup, insert, Distinct, insert-Distinct, retain-Distinct, lookup-insert, lookup-retain,
  lookup-retain-none,
}
use betterconn.Double.{Double}
use betterconn.FocusDecayTracker.{
  FocusDecayState, FocusDecayTracker, new_tracker, touched, mark_focused, mark_recently_used,
  update_network_activity, is_currently_focused, decay_factor_for, is_kept, forget_stale_entries,
  elapsed_seconds,
}

module _ ⦃d : Double⦄ where
  open d use {Real}

  abbrev pub IsTracked : ℤ → FocusDecayTracker → Type 0
  IsTracked pid t = (s : FocusDecayState) × (lookup pid t.states ≡ some s)

  -- Each process has one entry, and the focused one, if there is one, has an entry.
  pub record IsValid (t : FocusDecayTracker) : Type 0 where
    pub distinct : Distinct t.states
    pub focused : is_pos t.currently_focused_pid ≡ true → IsTracked t.currently_focused_pid t

  -- The calls that change the tracker, each with the time at which it is made.
  pub data Call : Type 0 where
    focus recent : ℕ → ℤ → Call
    network : ℤ → Bool → Call
    forget : ℕ → Real → Call

  unfoldable pub perform : Call → FocusDecayTracker → FocusDecayTracker
  perform (focus now pid) t = mark_focused now pid t
  perform (recent now pid) t = mark_recently_used now pid t
  perform (network pid active) t = update_network_activity pid active t
  perform (forget now max_age) t = forget_stale_entries now max_age t

  unfoldable pub perform_all : List Call → FocusDecayTracker → FocusDecayTracker
  perform_all [] t = t
  perform_all (c ∷ cs) t = perform_all cs (perform c t)

  IsTracked-insert :
      (j k : ℤ) (s : FocusDecayState) (t : FocusDecayTracker)
      → (j ≡ k) ⊎ IsTracked j t
      → (r : FocusDecayState) × (lookup j (insert k s t.states) ≡ some r)
  IsTracked-insert j k s t (inl e) =
      (s, ground (arith, lookup-insert k j s t.states, int_eq_iff k j))
  IsTracked-insert j k s t (inr (r, found)) =
      (if int_eq k j then s else r, ground (arith, lookup-insert k j s t.states))

  -- The entry of one process is written, and the focus stays or moves to it.
  insert-IsValid :
      (k holder : ℤ) (s : FocusDecayState) (t : FocusDecayTracker)
      → IsValid t
      → (holder ≡ k) ⊎ (holder ≡ t.currently_focused_pid)
      → IsValid (record t { currently_focused_pid = holder; states = insert k s t.states })
  insert-IsValid k holder s t v (inl e) = record {
    distinct = insert-Distinct k s t.states v.distinct;
    focused = λ _. IsTracked-insert holder k s t (inl e);
  }
  insert-IsValid k holder s t v (inr e) = record {
    distinct = insert-Distinct k s t.states v.distinct;
    focused = λ p. IsTracked-insert holder k s t (inr (rw e (v.focused (rw e at p))));
  }

  forget-IsValid :
      (now : ℕ) (max_age : Real) (t : FocusDecayTracker)
      → IsValid t
      → IsValid (forget_stale_entries now max_age t)
  unfolding forget_stale_entries
  forget-IsValid now max_age t v = record {
    distinct = retain-Distinct (is_kept now max_age t.currently_focused_pid) t.states v.distinct;
    focused = λ p.
        let (s, found) = v.focused p in
        (
          s,
          ground (
            arith,
            lookup-retain (is_kept now max_age t.currently_focused_pid) t.currently_focused_pid
                {v = s} t.states v.distinct found,
            int_eq_iff t.currently_focused_pid t.currently_focused_pid,
          ),
        );
  }

  pub perform-IsValid : (c : Call) (t : FocusDecayTracker) → IsValid t → IsValid (perform c t)
  unfolding perform mark_focused mark_recently_used update_network_activity
  perform-IsValid (focus now pid) t v = elim (Bool-cases (is_pos pid)) [
    | inl p ↦ rw p (insert-IsValid pid pid (touched now (lookup pid t.states)) t v (inl refl))
    | inr p ↦ rw p v
  ]
  perform-IsValid (recent now pid) t v = elim (Bool-cases (is_pos pid)) [
    | inl p ↦ rw p (
        insert-IsValid pid t.currently_focused_pid (touched now (lookup pid t.states)) t v
          (inr refl))
    | inr p ↦ rw p v
  ]
  perform-IsValid (network pid active) t v = elim (Option-cases (lookup pid t.states)) [
    | inl e ↦ rw (e, perform, update_network_activity) v
    | inr (s, e) ↦
        rw (e, perform, update_network_activity)
          (insert-IsValid pid t.currently_focused_pid (record s { has_network_activity = active }) t
            v (inr refl))
  ]
  perform-IsValid (forget now max_age) t v = forget-IsValid now max_age t v

  -- Whatever calls are made on a new tracker, in whatever order: each process has one entry, and
  -- the process that has the focus, if any, has an entry, which no pruning takes away.
  pub perform_all-IsValid : (cs : List Call) → IsValid (perform_all cs new_tracker)
  unfolding perform_all
  perform_all-IsValid cs = from cs new_tracker (record { distinct = tt; focused = λ p. cc })
    where
      from : (cs : List Call) (t : FocusDecayTracker) → IsValid t → IsValid (perform_all cs t)
      from [] t v = v
      from (c ∷ cs) t v = from cs (perform c t) (perform-IsValid c t v)

  -- In a valid tracker the pruning keeps an entry exactly when its process has the focus, uses the
  -- network, or was in use less than the given age ago; a kept entry is unchanged, and no entry
  -- appears.
  pub forget_stale_entries_lem :
      (now : ℕ) (max_age : Real) (t : FocusDecayTracker)
      → IsValid t
      → (pid : ℤ)
      → lookup pid (forget_stale_entries now max_age t).states ≡ elim (lookup pid t.states) [
        | none ↦ none
        | some s ↦
            if int_eq pid t.currently_focused_pid
              || (s.has_network_activity
                  || not (d.le max_age (elapsed_seconds now s.last_focus_time)))
            then some s
            else none
      ]
  unfolding forget_stale_entries
  forget_stale_entries_lem now max_age t v pid = elim (Option-cases (lookup pid t.states)) [
    | inl e ↦ rw e (lookup-retain-none (is_kept now max_age t.currently_focused_pid) pid t.states e)
    | inr (s, e) ↦ rw e (
        lookup-retain (is_kept now max_age t.currently_focused_pid) pid {v = s} t.states v.distinct
          e
        ∙ ground arith)
  ]

  -- Refreshing a companion leaves the focus where it is, and of all factors and entries it changes
  -- only those of the companion, whose age starts again; the focused process keeps the factor 1.
  pub mark_recently_used_lem :
      (now : ℕ) (companion q : ℤ) (t : FocusDecayTracker)
      → is_pos companion ≡ true
      → let t' = mark_recently_used now companion t in
        (is_currently_focused q t' ≡ is_currently_focused q t)
        × (decay_factor_for now q t' ≡ (
            if is_currently_focused q t
            then d.milli 1000
            else if int_eq companion q
            then d.exp (d.div (d.neg (elapsed_seconds now now)) t.half_life_seconds)
            else decay_factor_for now q t))
        × (lookup q t'.states ≡ (
            if int_eq companion q
            then some (touched now (lookup companion t.states))
            else lookup q t.states))
  unfolding mark_recently_used is_currently_focused decay_factor_for
  mark_recently_used_lem now companion q t p = (
    ground arith,
    ground (arith, lookup-insert companion q (touched now (lookup companion t.states)) t.states),
    ground (arith, lookup-insert companion q (touched now (lookup companion t.states)) t.states),
  )
