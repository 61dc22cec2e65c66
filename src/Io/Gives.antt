-- ===== src/Io/Gives.antt =====
-- What holds of the result of an act that returns.
use betterconn.Prelude.{Bool, true, false, if◌then◌else◌, ◌≡◌, refl, ap, sym, subst, ◌∙◌}
use betterconn.Io.{Io, Result, ok, throw, ◌>>=◌, pure}
use betterconn.Io.Ensures.{ok≢throw}

-- Where the act returns, its result has `R`.
pub record Gives {W A : Type 0} (R : A → Type 0) (m : Io W A) : Type 0 where
  pub at : (w : W) (a : A) → (m w).0 ≡ ok a → R a

abbrev result_or : {A : Type 0} → A → Result A → A
result_or a (ok b) = b
result_or a (throw message) = a

module _ {W A : Type 0} {R : A → Type 0} where
  pub Gives-pure : (a : A) → R a → Gives {W = W} R (pure a)
  Gives-pure a r = record { at = λ w b h. subst R (ap (result_or a) h) r }

  -- What comes last gives the result.
  pub Gives-bind :
      {B : Type 0} (m : Io W B) (f : B → Io W A) → ((b : B) → Gives R (f b)) → Gives R (m >>= f)
  Gives-bind {B} m f kf = record { at = λ w a h. go (m w).0 (m w).1 a h }
    where
      go :
          (r : Result B) (v : W) (a : A)
          → (elim r as (λ _. Result A × W) [ ok b ↦ f b v | throw message ↦ (throw message, v) ]).0
            ≡ ok a
          → R a
      go (ok b) v a h = (kf b).at v a h
      go (throw message) v a h = absurd (ok≢throw message a (sym h))

  -- What is known of the first result can be used for the second.
  pub Gives-bind_known :
      {B : Type 0} {Q : B → Type 0} (m : Io W B) (f : B → Io W A)
      → Gives Q m
      → ((b : B) → Q b → Gives R (f b))
      → Gives R (m >>= f)
  Gives-bind_known {B} {Q} m f km kf = record {
    at = λ w a h. go w (m w).0 (m w).1 a (λ b e. km.at w b e) h;
  }
    where
      go :
          (w : W) (r : Result B) (v : W) (a : A)
          → ((b : B) → r ≡ ok b → Q b)
          → (elim r as (λ _. Result A × W) [ ok b ↦ f b v | throw message ↦ (throw message, v) ]).0
            ≡ ok a
          → R a
      go w (ok b) v a q h = (kf b (q b refl)).at v a h
      go w (throw message) v a q h = absurd (ok≢throw message a (sym h))

  pub Gives-if :
      (test : Bool) (m n : Io W A) → Gives R m → Gives R n → Gives R (if test then m else n)
  Gives-if true m n km kn = km
  Gives-if false m n km kn = kn

-- An act that always returns one value
pub Gives-value :
    {W A : Type 0} (a : A) (m : Io W A) → ((w : W) → (m w).0 ≡ ok a) → Gives (λ b. b ≡ a) m
Gives-value a m e = record { at = λ w b h. ap (result_or a) (sym h ∙ e w) }

pub ruleset gives_rules = (Gives-pure, Gives-bind, Gives-if)
