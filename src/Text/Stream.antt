-- ===== src/Text/Stream.antt =====
-- `stream >> x` for an `int` and for a `std::string`: what is read with the rest of the text, or
-- `none` where the stream then fails.
use betterconn.Prelude.{
  ℕ, ◌-◌, ◌^◌, ◌≤◌, Bool, true, false, ◌||◌, not, Option, none, some, [], ◌∷◌, ◌++◌, ◌≡◌, refl,
  ◌==◌, if◌then◌else◌, Text, arith, All,
}
use betterconn.Prelude.Chain.{◌>>=◌}
use betterconn.Prelude.Int.{ℤ, pos}
use betterconn.Text.{is_digit, is_space, is_empty, skip_where, take_where}
use betterconn.Text.Decimal.{
  int_max, parse_signed, parse_up_to, to_string, starts_digit, EndsNumber, parse_up_to-to_string,
  starts_digit-to_string, to_string-All,
}

abbrev drop_sign : Text → Text
drop_sign [] = []
drop_sign (c ∷ s) = if c == b'-' || c == b'+' then s else c ∷ s

unfoldable pub read_int : Text → Option (ℤ × Text)
unfolding parse_signed skip_where
read_int s = do
  n ← parse_signed int_max (skip_where is_space s)
  some (n, skip_where is_digit (drop_sign (skip_where is_space s)))

-- `stream >> x` for a `uint64_t`, on digits without a sign
unfoldable pub read_u64 : Text → Option (ℕ × Text)
unfolding parse_up_to skip_where
read_u64 s = do
  n ← parse_up_to (2 ^ 64 - 1) (skip_where is_space s)
  some (n, skip_where is_digit (skip_where is_space s))

abbrev not_space : ℕ → Bool
not_space c = not (is_space c)

unfoldable pub read_word : Text → Option (Text × Text)
unfolding skip_where take_where
read_word s =
    let rest = skip_where is_space s in
    if is_empty rest then none else some (take_where not_space rest, skip_where not_space rest)

abbrev EndsWhere : (ℕ → Bool) → Text → Type 0
EndsWhere p [] = Unit
EndsWhere p (c ∷ s) = p c ≡ false

skip_digits-number :
    (s rest : Text)
    → All (λ c. is_digit c ≡ true) s
    → EndsNumber rest
    → skip_where is_digit (s ++ rest) ≡ rest
unfolding skip_where
skip_digits-number [] [] all ends = refl
skip_digits-number [] (c ∷ rest) all ends = ground arith
skip_digits-number (c ∷ s) rest all ends = ground (arith, skip_digits-number s rest)

skip_space-digit : (s : Text) → starts_digit s ≡ true → skip_where is_space s ≡ s
unfolding skip_where
skip_space-digit [] h = refl
skip_space-digit (c ∷ s) h = ground arith

drop_sign-digit : (s : Text) → starts_digit s ≡ true → drop_sign s ≡ s
drop_sign-digit [] h = refl
drop_sign-digit (c ∷ s) h = ground arith

parse_signed-digit :
    (bound n : ℕ) (s : Text)
    → starts_digit s ≡ true
    → parse_up_to bound s ≡ some n
    → parse_signed bound s ≡ some (pos n)
unfolding parse_signed
parse_signed-digit bound n [] h e = cc
parse_signed-digit bound n (c ∷ s) h e = ground arith

-- A printed number is read from a stream, and the stream then stands behind it.
pub read_int-to_string :
    (n : ℕ) (rest : Text)
    → n ≤ int_max
    → EndsNumber rest
    → read_int (to_string n ++ rest) ≡ some (pos n, rest)
unfolding read_int
read_int-to_string n rest fits ends =
    rw
      (
        skip_space-digit (to_string n ++ rest) (starts_digit-to_string n rest),
        drop_sign-digit (to_string n ++ rest) (starts_digit-to_string n rest),
        parse_signed-digit int_max n (to_string n ++ rest) (starts_digit-to_string n rest)
            (parse_up_to-to_string int_max n rest fits ends),
        skip_digits-number (to_string n) rest (to_string-All is_digit n (λ c. λ h. h)) ends,
      )
      refl

-- A space in front of what is read is passed over.
pub read_int-space : (s : Text) → read_int (b' ' ∷ s) ≡ read_int s
unfolding read_int skip_where
read_int-space s = refl
