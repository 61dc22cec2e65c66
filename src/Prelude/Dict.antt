-- ===== src/Prelude/Dict.antt =====
-- The `unordered_map` and `unordered_set` of the program as association lists and lists. The
-- order of a list stands for the order in which the container is walked, which no theorem fixes.
use mathlib.Core.Bool.{Bool, true, false}
use mathlib.Core.List.{List, [], ◌∷◌}
use mathlib.Core.Logic.{inl, inr}
use mathlib.Core.Option
use mathlib.Core.Option.{Option, none, some}
use mathlib.Core.Path.{◌≡◌, refl, sym, ◌∙◌}
use native.Mathlib.Omega.{arith}
use betterconn.Prelude.Keys.{Eq, beq_refl}
use betterconn.Prelude.Lists.{any}
use betterconn.Prelude.Tests.{if◌then◌else◌, Bool-cases}

abbrev pub Dict {ℓ κ} : Type ℓ → Type κ → Type (ℓ ⊔ κ)
Dict K V = List (K × V)

module _ {ℓ κ} {K : Type ℓ} {V : Type κ} ⦃e : Eq K⦄ where
  -- `find`, with `none` for `end()`
  abbrev pub lookup : K → Dict K V → Option V
  lookup k [] = none
  lookup k ((j, v) ∷ m) = if e.beq j k then some v else lookup k m

  -- `m[k] = v`
  abbrev pub insert : K → V → Dict K V → Dict K V
  insert k v [] = (k, v) ∷ []
  insert k v ((j, w) ∷ m) = if e.beq j k then (k, v) ∷ m else (j, w) ∷ insert k v m

  -- `erase(k)`
  abbrev pub erase : K → Dict K V → Dict K V
  erase k [] = []
  erase k ((j, w) ∷ m) = if e.beq j k then erase k m else (j, w) ∷ erase k m

-- `count(k) > 0` on a set
abbrev pub member {ℓ} : {K : Type ℓ} ⦃e : Eq K⦄ → K → List K → Bool
member ⦃e⦄ k = any (λ j. e.beq j k)

abbrev pub keys {ℓ κ} : {K : Type ℓ} {V : Type κ} → Dict K V → List K
keys [] = []
keys ((k, v) ∷ m) = k ∷ keys m

module _ {ℓ κ} {K : Type ℓ} {V : Type κ} ⦃e : Eq K⦄ where
  pub lookup-insert :
      (k j : K) (v : V) (m : Dict K V)
      → lookup j (insert k v m) ≡ (if e.beq k j then some v else lookup j m)
  lookup-insert k j v [] = refl
  lookup-insert k j v ((i, w) ∷ m) =
      ground (arith, e.beq_iff k j, e.beq_iff i k, e.beq_iff i j, lookup-insert k j v m)

  pub lookup-erase :
      (k j : K) (m : Dict K V) → lookup j (erase k m) ≡ (if e.beq k j then none else lookup j m)
  lookup-erase k j [] = ground arith
  lookup-erase k j ((i, w) ∷ m) =
      ground (arith, e.beq_iff k j, e.beq_iff i k, e.beq_iff i j, lookup-erase k j m)

  pub lookup-insert_self : (k : K) (v : V) (m : Dict K V) → lookup k (insert k v m) ≡ some v
  lookup-insert_self k v m = ground (arith, lookup-insert k k v m, beq_refl k)

  -- A key is listed exactly when it is found.
  pub member-keys : (k : K) (m : Dict K V) → member k (keys m) ≡ false → lookup k m ≡ none
  member-keys k [] h = refl
  member-keys k ((j, v) ∷ m) h = ground (arith, member-keys k m)

-- The entries that a walk with `erase` leaves.
abbrev pub retain {ℓ κ} : {K : Type ℓ} {V : Type κ} → (K → V → Bool) → Dict K V → Dict K V
retain p [] = []
retain p ((k, v) ∷ m) = elim (p k v) [ true ↦ (k, v) ∷ retain p m | false ↦ retain p m ]

-- `for (auto& entry : m) entry.second = f(entry.second)`
abbrev pub map_values {ℓ κ} : {K : Type ℓ} {V : Type κ} → (V → V) → Dict K V → Dict K V
map_values f [] = []
map_values f ((k, v) ∷ m) = (k, f v) ∷ map_values f m

module _ {ℓ κ} {K : Type ℓ} {V : Type κ} ⦃e : Eq K⦄ where
  -- No key has two entries.
  abbrev pub Distinct : Dict K V → Type κ
  Distinct [] = Unit
  Distinct ((k, v) ∷ m) = (lookup k m ≡ none) × Distinct m

  pub insert-Distinct : (k : K) (v : V) (m : Dict K V) → Distinct m → Distinct (insert k v m)
  insert-Distinct k v [] h = (refl, tt)
  insert-Distinct k v ((j, w) ∷ m) h =
      ground (arith, insert-Distinct k v m h.1, lookup-insert k j v m, e.beq_iff k j, e.beq_iff j k)

  pub lookup-retain-none :
      (p : K → V → Bool) (k : K) (m : Dict K V) → lookup k m ≡ none → lookup k (retain p m) ≡ none
  lookup-retain-none p k [] h = refl
  lookup-retain-none p k ((j, w) ∷ m) h = ground (arith, lookup-retain-none p k m)

  pub retain-Distinct : (p : K → V → Bool) (m : Dict K V) → Distinct m → Distinct (retain p m)
  retain-Distinct p [] h = tt
  retain-Distinct p ((j, w) ∷ m) h =
      ground (arith, retain-Distinct p m h.1, lookup-retain-none p j m h.0)

  -- An entry stays exactly when the test passes on it.
  pub lookup-retain :
      (p : K → V → Bool) (k : K) {v : V} (m : Dict K V)
      → Distinct m
      → lookup k m ≡ some v
      → lookup k (retain p m) ≡ (if p k v then some v else none)
  lookup-retain p k [] h found = cc
  lookup-retain p k {v} ((j, w) ∷ m) h found =
      ground (arith, lookup-retain p k {v = v} m h.1, lookup-retain-none p k m, e.beq_iff j k)

  pub lookup-map_values :
      (f : V → V) (k : K) (m : Dict K V) → lookup k (map_values f m) ≡ Option.map f (lookup k m)
  lookup-map_values f k [] = refl
  lookup-map_values f k ((j, w) ∷ m) = ground (arith, lookup-map_values f k m)

-- Every value satisfies the predicate.
abbrev pub AllValues {ℓ κ} : {K : Type ℓ} {V : Type κ} → (V → Type 0) → Dict K V → Type 0
AllValues P [] = Unit
AllValues P ((k, v) ∷ m) = P v × AllValues P m

module _ {ℓ κ} {K : Type ℓ} {V : Type κ} ⦃e : Eq K⦄ (P : V → Type 0) where
  pub AllValues-lookup : (k : K) {v : V} (m : Dict K V) → AllValues P m → lookup k m ≡ some v → P v
  AllValues-lookup k [] h found = cc
  AllValues-lookup k {v} ((j, w) ∷ m) h found = elim (Bool-cases (e.beq j k)) [
    | inl here ↦ mathlib.Core.Path.subst P (ground arith) h.0
    | inr later ↦ AllValues-lookup k m h.1 (ground arith)
  ]

  pub AllValues-insert :
      (k : K) (v : V) (m : Dict K V) → AllValues P m → P v → AllValues P (insert k v m)
  AllValues-insert k v [] h p = (p, tt)
  AllValues-insert k v ((j, w) ∷ m) h p = elim (Bool-cases (e.beq j k)) [
    | inl here ↦ rw (here, insert) (p, h.1)
    | inr later ↦ rw (later, insert) (h.0, AllValues-insert k v m h.1 p)
  ]

-- Every entry satisfies the predicate, which may name the key.
abbrev pub AllEntries {ℓ κ} : {K : Type ℓ} {V : Type κ} → (K → V → Type 0) → Dict K V → Type 0
AllEntries P [] = Unit
AllEntries P ((k, v) ∷ m) = P k v × AllEntries P m

module _ {ℓ κ} {K : Type ℓ} {V : Type κ} ⦃e : Eq K⦄ (P : K → V → Type 0) where
  pub AllEntries-of-lookup :
      (m : Dict K V) → Distinct m → ((k : K) (v : V) → lookup k m ≡ some v → P k v) → AllEntries P m
  AllEntries-of-lookup [] h all = tt
  AllEntries-of-lookup ((k, v) ∷ m) h all = (
    all k v (ground (arith, beq_refl k)),
    AllEntries-of-lookup m h.1 λ j w found. all j w (ground (arith, e.beq_iff k j)),
  )

  pub AllEntries-lookup :
      (k : K) (v : V) (m : Dict K V) → AllEntries P m → lookup k m ≡ some v → P k v
  AllEntries-lookup k v [] h found = cc
  AllEntries-lookup k v ((j, w) ∷ m) h found = elim (Bool-cases (e.beq j k)) [
    | inl here ↦
        mathlib.Core.Path.subst (λ x. P x v) ((e.beq_iff j k).0 here)
          (mathlib.Core.Path.subst (P j) (ground arith) h.0)
    | inr later ↦ AllEntries-lookup k v m h.1 (ground arith)
  ]

pub AllValues-map_values {ℓ κ} :
    {K : Type ℓ} {V : Type κ} (P Q : V → Type 0) (f : V → V) (m : Dict K V)
    → ((v : V) → P v → Q (f v))
    → AllValues P m
    → AllValues Q (map_values f m)
AllValues-map_values P Q f [] step h = tt
AllValues-map_values P Q f ((k, v) ∷ m) step h = (step v h.0, AllValues-map_values P Q f m step h.1)

pub AllValues-weaken {ℓ κ} :
    {K : Type ℓ} {V : Type κ} (P Q : V → Type 0) (m : Dict K V)
    → ((v : V) → P v → Q v)
    → AllValues P m
    → AllValues Q m
AllValues-weaken P Q [] step h = tt
AllValues-weaken P Q ((k, v) ∷ m) step h = (step v h.0, AllValues-weaken P Q m step h.1)
