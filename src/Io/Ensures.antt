-- ===== src/Io/Ensures.antt =====
-- What holds of the machine when an act returns without an exception.
use betterconn.Prelude.{Bool, true, false, if◌then◌else◌, Text, ◌≡◌, subst, sym}
use betterconn.Io.{Io, Result, ok, throw, ◌>>=◌, raise}

-- Where the act returns, its machine has `Q`.
pub record Ensures {W A : Type 0} (Q : W → Type 0) (m : Io W A) : Type 0 where
  pub at : (w : W) (a : A) → (m w).0 ≡ ok a → Q (m w).1

abbrev IsThrow : {A : Type 0} → Result A → Type 0
IsThrow (ok a) = ⊥
IsThrow (throw message) = Unit {0}

pub ok≢throw : {A : Type 0} (message : Text) (a : A) → ok a ≡ throw message → ⊥
ok≢throw message a h = subst IsThrow (sym h) tt

module _ {W : Type 0} {Q : W → Type 0} where
  pub Ensures-raise : {A : Type 0} (message : Text) → Ensures Q (raise {A = A} message)
  Ensures-raise message = record { at = λ w a h. absurd (ok≢throw message a (sym h)) }

  -- It is enough that what comes last ensures it.
  pub Ensures-bind :
      {A B : Type 0} (m : Io W A) (f : A → Io W B)
      → ((a : A) → Ensures Q (f a))
      → Ensures Q (m >>= f)
  Ensures-bind {A} {B} m f kf = record { at = λ w b h. go (m w).0 (m w).1 b h }
    where
      go :
          (r : Result A) (v : W) (b : B)
          → (elim r as (λ _. Result B × W) [ ok a ↦ f a v | throw message ↦ (throw message, v) ]).0
            ≡ ok b
          → Q
              (elim r as (λ _. Result B × W) [
                | ok a ↦ f a v
                | throw message ↦ (throw message, v)
              ]).1
      go (ok a) v b h = (kf a).at v b h
      go (throw message) v b h = absurd (ok≢throw message b (sym h))

  pub Ensures-if :
      {A : Type 0} (test : Bool) (m n : Io W A)
      → Ensures Q m
      → Ensures Q n
      → Ensures Q (if test then m else n)
  Ensures-if true m n km kn = km
  Ensures-if false m n km kn = kn

pub ruleset ensures_rules = (Ensures-raise, Ensures-bind, Ensures-if)
