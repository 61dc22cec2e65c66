-- ===== src/CommandLine/Consent.antt =====
-- The answers that cli/src/main.cpp takes for a consent, and what `start` and `stop` do without one.
use betterconn.Prelude.{
  ℕ, ◌≡◌, refl, ap, ◌∙◌, Bool, true, false, ◌||◌, ◌==◌, some, Option-cases, List, [], ◌∷◌, Text,
  Text_eq, arith, Bool-cases, inl, inr, ◌⊎◌,
}
use betterconn.Prelude.Dict.{member}
use betterconn.Arguments.{StartOptions, parse_start, no_start_options}
use betterconn.CommandLine.{Host, consents, start, stop}
use betterconn.CommandLine.Guards.{
  start-unprivileged, stop-unprivileged, start_refused, start-asked, start-failed, stop-asked,
  stop-inactive, stop-failed,
}
use betterconn.Double.{Double}
use betterconn.Io.{Result, ok, throw}
use betterconn.Optimizer.Lifecycle.{is_active}
use betterconn.Os.{Os}
use betterconn.Text.{chars, lower}

-- "y" and "yes", in every spelling
abbrev pub agreements : List Text
agreements =
    chars "y"
    ∷ chars "Y"
    ∷ chars "yes"
    ∷ chars "yeS"
    ∷ chars "yEs"
    ∷ chars "yES"
    ∷ chars "Yes"
    ∷ chars "YeS"
    ∷ chars "YEs"
    ∷ chars "YES"
    ∷ []

lower_y : (c : ℕ) → (lower c == b'y') ≡ (c == b'y' || c == b'Y')
lower_y c = ground arith

lower_e : (c : ℕ) → (lower c == b'e') ≡ (c == b'e' || c == b'E')
lower_e c = ground arith

lower_s : (c : ℕ) → (lower c == b's') ≡ (c == b's' || c == b'S')
lower_s c = ground arith

-- The spellings are the answers that are taken.
consents_lem : (input : Text) → consents input ≡ member input agreements
unfolding consents chars
consents_lem [] = refl
consents_lem (a ∷ []) = ground (arith, lower_y a)
consents_lem (a ∷ b ∷ []) = ground (arith, lower_y a)
consents_lem (a ∷ b ∷ c ∷ []) = ground (arith, lower_y a, lower_e b, lower_s c)
consents_lem (a ∷ b ∷ c ∷ e ∷ input) = ground (arith, lower_y a, lower_e b, lower_s c)

-- Options without the one that skips the warning do not skip it.
parse_start-asks :
    (args : List Text) (o o' : StartOptions)
    → member (chars "--skip-warning") args ≡ false
    → o.skip_warning ≡ false
    → parse_start args o ≡ some o'
    → o'.skip_warning ≡ false
unfolding parse_start
parse_start-asks [] o o' h k e = ground arith
parse_start-asks (arg ∷ []) o o' h k e = ground arith
parse_start-asks (arg ∷ value ∷ rest) o o' h k e =
    ground (arith, parse_start-asks rest (record o { iface = value }) o')

Result-cases :
    (r : Result Bool) → (r ≡ ok true) ⊎ ((r ≡ ok false) ⊎ ((message : Text) × (r ≡ throw message)))
Result-cases (ok true) = inl refl
Result-cases (ok false) = inr (inl refl)
Result-cases (throw message) = inr (inr (message, refl))

module _ ⦃d : Double⦄ ⦃os : Os⦄ (host : Host os) where
  open os use {World}
  open host use {is_root, read_line}

  -- The machine stays as it is, but for the answer that is read from the user.
  abbrev pub OnlyAsks : World → World → Type 0
  OnlyAsks w v = (v ≡ w) ⊎ (v ≡ (read_line w).1)

  start-OnlyAsks :
      (args : List Text) (w : World)
      → member (chars "--skip-warning") args ≡ false
      → consents (read_line w).0 ≡ false
      → OnlyAsks w (start host args w).1
  unfolding no_start_options
  start-OnlyAsks args w asks refusal = elim (Bool-cases (is_root w)) [
    | inr user ↦ inl (start-unprivileged host args w user)
    | inl root ↦ elim (Result-cases (is_active w).0) [
      | inl active ↦ inl (ap (λ r. r.1) (start_refused host args w root (inl active)))
      | inr (inr (message, failed)) ↦
          inl (ap (λ r. r.1) (start-failed host args message w root failed))
      | inr (inl inactive) ↦ elim (Option-cases (parse_start args no_start_options)) [
        | inl wrong ↦ inl (ap (λ r. r.1) (start_refused host args w root (inr (inactive, wrong))))
        | inr (o, parsed) ↦ inr (
            ap (λ r. r.1)
              (start-asked host args o w root inactive parsed
                (parse_start-asks args no_start_options o asks refl parsed) refusal))
      ]
    ]
  ]

  stop-OnlyAsks : (w : World) → consents (read_line w).0 ≡ false → OnlyAsks w (stop host w).1
  stop-OnlyAsks w refusal = elim (Bool-cases (is_root w)) [
    | inr user ↦ inl (stop-unprivileged host w user)
    | inl root ↦ elim (Result-cases (is_active w).0) [
      | inl active ↦ inr (ap (λ r. r.1) (stop-asked host w root active refusal))
      | inr (inl inactive) ↦ inl (ap (λ r. r.1) (stop-inactive host w root inactive))
      | inr (inr (message, failed)) ↦ inl (ap (λ r. r.1) (stop-failed host message w root failed))
    ]
  ]

  -- Unless the answer is "y" or "yes" in some spelling, neither `start` without the option that
  -- skips the warning nor `stop` changes the machine, except that an answer may be read.
  pub declined :
      (args : List Text) (w : World)
      → member (chars "--skip-warning") args ≡ false
      → member (read_line w).0 agreements ≡ false
      → OnlyAsks w (start host args w).1 × OnlyAsks w (stop host w).1
  declined args w asks refusal =
      let refused : consents (read_line w).0 ≡ false = consents_lem (read_line w).0 ∙ refusal in
      (start-OnlyAsks args w asks refused, stop-OnlyAsks w refused)
