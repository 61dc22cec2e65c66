-- ===== src/Text/Search.antt =====
-- Where the searches in a text find something, and a loop that searches on behind each find.
use betterconn.Prelude.{
  ℕ, zero, suc, ◌+◌, ◌-◌, ◌≤◌, ◌<◌, ◌≡◌, refl, Bool, true, Option, none, some, [], ◌∷◌, arith,
  length, length-drop, drop, Text, Option-cases, inl, inr,
}
use betterconn.Text.{starts_with, find_first, find, first_where, find_where}

-- One round of a loop over positions: on from a later position, or the result.
pub data Round (S R : Type 0) : Type 0 where
  next : ℕ → S → Round S R
  done : R → Round S R

-- `while (true)` on a text; `none` means that the fuel ran out.
unfoldable pub scan : {S R : Type 0} → ℕ → (ℕ → S → Round S R) → ℕ → S → Option R
scan zero body position s = none
scan (suc fuel) body position s = elim (body position s) [
  | next p t ↦ scan fuel body p t
  | done r ↦ some r
]

module _ {S R : Type 0} (size : ℕ) (body : ℕ → S → Round S R) where
  -- Every round that goes on moves forward, and not beyond the end.
  abbrev pub Advances : Type 0
  Advances = (p : ℕ) (s : S) (q : ℕ) (t : S) → body p s ≡ next q t → (p < q) × (q ≤ size)

  -- Such a loop ends within one round for each byte.
  pub scan_total :
      Advances → (fuel p : ℕ) (s : S) → size - p < fuel → (r : R) × (scan fuel body p s ≡ some r)
  unfolding scan
  scan_total forward zero p s h = absurd (omega arith)
  scan_total forward (suc fuel) p s h = by_round (scan_total forward fuel) (body p s) refl
    where
      by_round :
          ((q : ℕ) (t : S) → size - q < fuel → (r : R) × (scan fuel body q t ≡ some r))
          → (x : Round S R) → body p s ≡ x
          → (r : R) × (elim x [ next q t ↦ scan fuel body q t | done r ↦ some r ] ≡ some r)
      by_round rest (next q t) e = let (later, inside) = forward p s q t e in rest q t (omega arith)
      by_round rest (done r) e = (r, refl)

starts_with-length : (p s : Text) → starts_with p s ≡ true → length p ≤ length s
unfolding starts_with
starts_with-length [] s h = omega arith
starts_with-length (c ∷ p) [] h = cc
starts_with-length (c ∷ p) (x ∷ s) h = ground (arith, starts_with-length p s)

find_first-bounds : (p s : Text) (n : ℕ) → find_first p s ≡ some n → n + length p ≤ length s
unfolding find_first
find_first-bounds p [] n h = ground (arith, starts_with-length p [])
find_first-bounds p (c ∷ s) n h = elim (Option-cases (find_first p s)) [
  | inl e ↦ ground (arith, starts_with-length p (c ∷ s))
  | inr (k, e) ↦ ground (arith, starts_with-length p (c ∷ s), find_first-bounds p s k e)
]

-- A find lies behind the start of the search and inside the text.
pub find-bounds :
    (p s : Text) (from n : ℕ)
    → find p s from ≡ some n
    → (from ≤ n) × (n + length p ≤ from + (length s - from))
unfolding find
find-bounds p s from n h = elim (Option-cases (find_first p (drop from s))) [
  | inl e ↦ absurd (ground arith)
  | inr (k, e) ↦
      let inside = find_first-bounds p (drop from s) k e in
      let size = length-drop from s in (ground arith, ground arith)
]

first_where-bounds : (p : ℕ → Bool) (s : Text) (n : ℕ) → first_where p s ≡ some n → n < length s
unfolding first_where
first_where-bounds p [] n h = cc
first_where-bounds p (c ∷ s) n h = elim (Option-cases (first_where p s)) [
  | inl e ↦ ground arith
  | inr (k, e) ↦ ground (arith, first_where-bounds p s k e)
]

pub find_where-bounds :
    (p : ℕ → Bool) (s : Text) (from n : ℕ)
    → find_where p s from ≡ some n
    → (from ≤ n) × (n < from + (length s - from))
unfolding find_where
find_where-bounds p s from n h = elim (Option-cases (first_where p (drop from s))) [
  | inl e ↦ absurd (ground arith)
  | inr (k, e) ↦
      let inside = first_where-bounds p (drop from s) k e in
      let size = length-drop from s in (ground arith, ground arith)
]

-- The result of a loop is the result of one of its rounds.
pub scan-done :
    {S R : Type 0} (body : ℕ → S → Round S R) (fuel p : ℕ) (s : S) (r : R)
    → scan fuel body p s ≡ some r
    → (q : ℕ) × (t : S) × (body q t ≡ done r)
unfolding scan
scan-done body zero p s r h = absurd (ground arith)
scan-done {S} {R} body (suc fuel) p s r h = by_round (scan-done body fuel) (body p s) refl h
  where
    by_round :
        ((q : ℕ) (t : S) (r : R)
          → scan fuel body q t ≡ some r
          → (q' : ℕ) × (t' : S) × (body q' t' ≡ done r))
        → (x : Round S R) → body p s ≡ x
        → elim x [ next q t ↦ scan fuel body q t | done r' ↦ some r' ] ≡ some r
        → (q : ℕ) × (t : S) × (body q t ≡ done r)
    by_round rest (next q t) e h = rest q t r h
    by_round rest (done r') e h = (p, s, cc)

-- What every round keeps of the state, and every result has, the result of the loop has.
pub scan_inv :
    {S R : Type 0} (P : S → Type 0) (Q : R → Type 0) (body : ℕ → S → Round S R)
    → ((p : ℕ) (s : S) (q : ℕ) (t : S) → P s → body p s ≡ next q t → P t)
    → ((p : ℕ) (s : S) (r : R) → P s → body p s ≡ done r → Q r)
    → (fuel p : ℕ) (s : S) (r : R) → P s
    → scan fuel body p s ≡ some r
    → Q r
unfolding scan
scan_inv P Q body keep ends zero p s r inv h = absurd (ground arith)
scan_inv {S} {R} P Q body keep ends (suc fuel) p s r inv h =
    by_round (scan_inv P Q body keep ends fuel) (body p s) refl h
  where
    by_round :
        ((q : ℕ) (t : S) (r : R) → P t → scan fuel body q t ≡ some r → Q r)
        → (x : Round S R) → body p s ≡ x
        → elim x [ next q t ↦ scan fuel body q t | done r' ↦ some r' ] ≡ some r
        → Q r
    by_round rest (next q t) e h = rest q t r (keep p s q t inv e) h
    by_round rest (done r') e h = ends p s r inv (cc)

drop-nil : (n : ℕ) → drop {A = ℕ} n [] ≡ []
drop-nil zero = refl
drop-nil (suc n) = refl

drop-drop : (s : Text) (m n : ℕ) → drop (m + n) s ≡ drop n (drop m s)
drop-drop s zero n = ground arith
drop-drop [] (suc m) n = ground (arith, drop-nil (suc m + n), drop-nil n)
drop-drop (c ∷ s) (suc m) n =
    let e : suc m + n ≡ suc (m + n) = omega arith in rw e (drop-drop s m n)

find_first-starts_with :
    (p s : Text) (n : ℕ) → find_first p s ≡ some n → starts_with p (drop n s) ≡ true
unfolding find_first
find_first-starts_with p [] n h = ground arith
find_first-starts_with p (c ∷ s) n h = elim (Option-cases (find_first p s)) [
  | inl e ↦ ground arith
  | inr (k, e) ↦ ground (arith, find_first-starts_with p s k e)
]

-- The pattern stands where it is found.
pub find-starts_with :
    (p s : Text) (from n : ℕ) → find p s from ≡ some n → starts_with p (drop n s) ≡ true
unfolding find
find-starts_with p s from n h = elim (Option-cases (find_first p (drop from s))) [
  | inl e ↦ absurd (ground arith)
  | inr (k, e) ↦ ground (arith, find_first-starts_with p (drop from s) k e, drop-drop s from k)
]
