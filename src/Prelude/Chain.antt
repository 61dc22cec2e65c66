-- ===== src/Prelude/Chain.antt =====
-- Chains of steps that may each find nothing, as `do` blocks in `Option`.
use mathlib.Core.Bool.{Bool, true, false}
use mathlib.Core.Option.{Option, none, some}
use mathlib.Core.Path.{◌≡◌, refl}
use native.Mathlib.Omega.{arith}

infixl 5 ◌>>=◌ ◌>>◌
abbrev pub ◌>>=◌ {ℓ κ} : {A : Type ℓ} {B : Type κ} → Option A → (A → Option B) → Option B
none >>= f = none
some a >>= f = f a

abbrev pub ◌>>◌ {ℓ} : {B : Type ℓ} → Option (Unit {0}) → Option B → Option B
m >> k = m >>= λ _. k

abbrev pub guard : Bool → Option (Unit {0})
guard true = some tt
guard false = none

-- A chain that finds something has found something at each step.
pub >>=-eq-some {ℓ κ} :
    {A : Type ℓ} {B : Type κ} (m : Option A) (f : A → Option B) {b : B}
    → (m >>= f) ≡ some b
    → (a : A) × (m ≡ some a) × (f a ≡ some b)
>>=-eq-some none f h = cc
>>=-eq-some (some a) f h = (a, refl, h)

pub guard-eq-some : (t : Bool) {u : Unit {0}} → guard t ≡ some u → t ≡ true
guard-eq-some true h = refl
guard-eq-some false h = cc

-- What a chain finds, whatever its first steps find, satisfies what its last steps ensure.
pub >>=-holds {ℓ κ} :
    {A : Type ℓ} {B : Type κ} (P : B → Type 0) (m : Option A) (f : A → Option B)
    → ((a : A) (b : B) → f a ≡ some b → P b)
    → (b : B) → (m >>= f) ≡ some b
    → P b
>>=-holds P none f h b e = absurd (cc)
>>=-holds P (some a) f h b e = h a b e

pub checked_holds {ℓ} :
    {A : Type ℓ} (p : A → Bool) (a b : A) → (guard (p a) >> some a) ≡ some b → p b ≡ true
checked_holds p a b h = ground arith

-- The same, where the last steps may use what the first ones found.
pub >>=-ensures {ℓ κ} :
    {A : Type ℓ} {B : Type κ} (P : B → Type 0) (m : Option A) (f : A → Option B)
    → ((a : A) → m ≡ some a → (b : B) → f a ≡ some b → P b)
    → (b : B) → (m >>= f) ≡ some b
    → P b
>>=-ensures P none f h b e = absurd (cc)
>>=-ensures P (some a) f h b e = h a refl b e
