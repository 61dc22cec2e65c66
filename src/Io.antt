-- ===== src/Io.antt =====
-- Code that reads and changes the machine and may throw: a function of the machine's state that
-- returns what it changed also when it throws.
pub mod Keeps
pub mod Gives
pub mod Ensures
use betterconn.Prelude.{◌≡◌, ap, List, [], ◌∷◌, Bool, if◌then◌else◌, Text}

-- A `std::runtime_error` carries its message.
pub data Result (A : Type 0) : Type 0 where
  ok : A → Result A
  throw : Text → Result A

abbrev pub Io : Type 0 → Type 0 → Type 0
Io W A = W → Result A × W

abbrev pub Done : Type 0
Done = Unit {0}

module _ {W : Type 0} where
  abbrev pub pure : {A : Type 0} → A → Io W A
  pure a w = (ok a, w)

  abbrev pub raise : {A : Type 0} → Text → Io W A
  raise message w = (throw message, w)

infixl 5 ◌>>=◌ ◌>>◌
abbrev pub ◌>>=◌ : {W A B : Type 0} → Io W A → (A → Io W B) → Io W B
◌>>=◌ m f w = let (r, w') = m w in elim r [ ok a ↦ f a w' | throw message ↦ (throw message, w') ]

abbrev pub ◌>>◌ : {W A B : Type 0} → Io W A → Io W B → Io W B
m >> k = m >>= λ _. k

module _ {W : Type 0} where
  abbrev pub skip : Io W Done
  skip = pure tt

  -- `for (x : xs) body(x)`
  unfoldable pub for_each : {A : Type 0} → List A → (A → Io W Done) → Io W Done
  for_each [] body = skip
  for_each (x ∷ xs) body = body x >> for_each xs body

  -- `if (test) body`, with nothing to do otherwise
  abbrev pub when : Bool → Io W Done → Io W Done
  when test body = if test then body else skip

-- A chain goes on with what its first step returns.
pub >>=-ok :
    {W A B : Type 0} (m : Io W A) (f : A → Io W B) (w v : W) (a : A)
    → m w ≡ (ok a, v)
    → (m >>= f) w ≡ f a v
>>=-ok m f w v a h = ap (λ p. elim p.0 [ ok a ↦ f a p.1 | throw message ↦ (throw message, p.1) ]) h
