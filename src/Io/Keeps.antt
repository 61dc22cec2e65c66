-- ===== src/Io/Keeps.antt =====
-- What an act keeps of the machine, one rule for each way to build an act.
use betterconn.Prelude.{List, [], ◌∷◌, Bool, true, false, if◌then◌else◌, Text}
use betterconn.Io.{Io, Result, ok, throw, ◌>>=◌, Done, pure, raise, when, for_each}

-- The act keeps `P`, whether it returns or throws.
pub record Keeps {W A : Type 0} (P : W → Type 0) (m : Io W A) : Type 0 where
  pub at : (w : W) → P w → P (m w).1

module _ {W : Type 0} {P : W → Type 0} where
  pub Keeps-pure : {A : Type 0} (a : A) → Keeps P (pure a)
  Keeps-pure a = record { at = λ w h. h }

  pub Keeps-raise : {A : Type 0} (message : Text) → Keeps P (raise {A = A} message)
  Keeps-raise message = record { at = λ w h. h }

  pub Keeps-bind :
      {A B : Type 0} (m : Io W A) (f : A → Io W B)
      → Keeps P m
      → ((a : A) → Keeps P (f a))
      → Keeps P (m >>= f)
  Keeps-bind {A} {B} m f km kf = record { at = λ w h. go (m w).0 (m w).1 (km.at w h) }
    where
      go :
          (r : Result A) (v : W)
          → P v
          → P
              (elim r as (λ _. Result B × W) [
                | ok a ↦ f a v
                | throw message ↦ (throw message, v)
              ]).1
      go (ok a) v h = (kf a).at v h
      go (throw message) v h = h

  pub Keeps-when : (test : Bool) (m : Io W Done) → Keeps P m → Keeps P (when test m)
  Keeps-when true m k = k
  Keeps-when false m k = Keeps-pure tt

  pub Keeps-if :
      {A : Type 0} (test : Bool) (m n : Io W A)
      → Keeps P m
      → Keeps P n
      → Keeps P (if test then m else n)
  Keeps-if true m n km kn = km
  Keeps-if false m n km kn = kn

  pub Keeps-for_each :
      {A : Type 0} (xs : List A) (body : A → Io W Done)
      → ((x : A) → Keeps P (body x))
      → Keeps P (for_each xs body)
  unfolding for_each
  Keeps-for_each [] body k = Keeps-pure tt
  Keeps-for_each (x ∷ xs) body k = Keeps-bind (body x) _ (k x) (λ _. Keeps-for_each xs body k)

pub ruleset keeps_rules =
    (Keeps-pure, Keeps-raise, Keeps-bind, Keeps-when, Keeps-if, Keeps-for_each)
