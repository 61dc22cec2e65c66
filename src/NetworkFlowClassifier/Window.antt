-- ===== src/NetworkFlowClassifier/Window.antt =====
-- The window of samples: its size, and what a full window says.
use betterconn.Prelude.{
  ℕ, ◌≤◌, ◌<◌, ◌≡◌, refl, true, false, Option, none, some, List, [], ◌∷◌, ◌++◌, arith, length,
  length-append, length-drop, max, All, Option-cases, inl, inr, Bool-cases,
}
use betterconn.Prelude.Int.{ℤ, is_pos, int_eq, ℤ_eq}
use betterconn.Prelude.Dict.{
  lookup, erase, AllValues, AllValues-insert, AllValues-lookup, lookup-insert_self,
}
use betterconn.ContextPersistence.{push_bounded}
use betterconn.Double.{Double, positive}
use betterconn.ProcActivity.{SocketStateSnapshot}
use betterconn.NetworkFlowClassifier.{
  Samples, sample_window, bulk_queue_threshold_bytes, queue_occupancy, found_values, sample, forget,
  max_from, sample_variance, values_look_interactive, looks_interactive,
}

-- No window is longer than six samples.
abbrev pub FitsWindow : List ℕ → Type 0
FitsWindow vs = length vs ≤ sample_window

abbrev pub IsValid : Samples → Type 0
IsValid = AllValues FitsWindow

push-FitsWindow :
    (x : ℕ) (xs : List ℕ) → FitsWindow xs → FitsWindow (push_bounded sample_window x xs)
unfolding push_bounded
push-FitsWindow x xs h = ground (arith, length-append xs (x ∷ []), length-drop 1 (xs ++ x ∷ []))

found-FitsWindow : (pid : ℤ) (m : Samples) → IsValid m → FitsWindow (found_values (lookup pid m))
found-FitsWindow pid m h = elim (Option-cases (lookup pid m)) [
  | inl e ↦ rw e (omega arith)
  | inr (vs, e) ↦ rw e (AllValues-lookup FitsWindow pid m h e)
]

-- `sample` keeps every window within six samples.
pub sample-IsValid :
    (pid : ℤ) (inodes : List ℕ) (s : SocketStateSnapshot) (m : Samples)
    → IsValid m
    → IsValid (sample pid inodes s m)
unfolding sample
sample-IsValid pid inodes s m h = elim (Bool-cases (is_pos pid)) [
  | inl p ↦ rw p (
      AllValues-insert FitsWindow pid _ m h
        (push-FitsWindow (queue_occupancy inodes s) _ (found-FitsWindow pid m h)))
  | inr p ↦ rw p h
]

max_from-bounds :
    (best bound : ℕ) (vs : List ℕ)
    → max_from best vs < bound
    → (best < bound) × All (λ v. v < bound) vs
max_from-bounds best bound [] h = (h, tt)
max_from-bounds best bound (v ∷ vs) h =
    let (b, all) = max_from-bounds (max best v) bound vs h in (omega arith, (omega arith, all))

-- Erasing a window keeps the others.
pub forget-IsValid : (pid : ℤ) (m : Samples) → IsValid m → IsValid (forget pid m)
unfolding forget
forget-IsValid pid [] h = tt
forget-IsValid pid ((j, vs) ∷ m) h = elim (Bool-cases (int_eq j pid)) [
  | inl same ↦ rw (same, erase) (forget-IsValid pid m h.1)
  | inr other ↦ rw (other, erase) (h.0, forget-IsValid pid m h.1)
]

le-max_from : (best : ℕ) (vs : List ℕ) → best ≤ max_from best vs
le-max_from best [] = omega arith
le-max_from best (v ∷ vs) = omega (arith, le-max_from (max best v) vs)

last-le-max_from : (best x : ℕ) (xs : List ℕ) → x ≤ max_from best (xs ++ x ∷ [])
last-le-max_from best x [] = omega arith
last-le-max_from best x (v ∷ vs) = last-le-max_from (max best v) x vs

push-le-max_from : (x : ℕ) (xs : List ℕ) → x ≤ max_from 0 (push_bounded sample_window x xs)
unfolding push_bounded
push-le-max_from x [] = omega arith
push-le-max_from x (v ∷ vs) =
    ground (arith, last-le-max_from 0 x vs, last-le-max_from (max 0 v) x vs)

module _ ⦃d : Double⦄ where
  -- A process looks interactive only on a full window of exactly six samples, each below the bulk
  -- threshold of 65536 bytes, whose variance is positive.
  pub looks_interactive_lem :
      (pid : ℤ) (m : Samples)
      → IsValid m
      → looks_interactive pid m ≡ true
      → (vs : List ℕ) × (lookup pid m ≡ some vs)
        × (length vs ≡ sample_window)
        × All (λ v. v < bulk_queue_threshold_bytes) vs
        × (positive (sample_variance vs) ≡ true)
  unfolding looks_interactive
  looks_interactive_lem pid m v h = by_found (lookup pid m) refl h
    where
      by_found :
          (found : Option (List ℕ))
          → lookup pid m ≡ found
          → elim found [ none ↦ false | some values ↦ values_look_interactive values ] ≡ true
          → (vs : List ℕ) × (lookup pid m ≡ some vs)
            × (length vs ≡ sample_window)
            × All (λ v. v < bulk_queue_threshold_bytes) vs
            × (positive (sample_variance vs) ≡ true)
      by_found none e h = cc
      by_found (some vs) e h =
          let fits = AllValues-lookup FitsWindow pid m v e in
          (vs, e, ground arith, (max_from-bounds 0 _ vs (ground arith)).1, ground arith)

  -- One sample at the bulk threshold or above ends the interactive classification at once.
  pub sample_bulk :
      (pid : ℤ) (inodes : List ℕ) (s : SocketStateSnapshot) (m : Samples)
      → is_pos pid ≡ true
      → bulk_queue_threshold_bytes ≤ queue_occupancy inodes s
      → looks_interactive pid (sample pid inodes s m) ≡ false
  unfolding looks_interactive sample
  sample_bulk pid inodes s m p bulk =
      let x = queue_occupancy inodes s in
      let window = push_bounded sample_window x (found_values (lookup pid m)) in
      rw p (
        rw (lookup-insert_self pid window m, looks_interactive)
          (ground (arith, push-le-max_from x (found_values (lookup pid m)))))
