-- ===== src/Text/Decimal.antt =====
-- `std::to_string`, `std::stoi` and their kin, with the round trip between them.
use betterconn.Prelude.{
  ℕ, zero, suc, ◌+◌, ◌-◌, ◌*◌, ◌/◌, ◌%◌, ◌^◌, ◌<◌, ◌≤◌, Bool, true, false, ◌&&◌, ◌||◌, Option, none,
  some, [], ◌∷◌, ◌++◌, ◌≡◌, refl, leb, ltb, ◌==◌, if◌then◌else◌, Text, arith, All, Bool-cases, inl,
  inr,
}
use betterconn.Prelude.Int.{ℤ, pos, negsuc, sub_ℕ}
use betterconn.Text.{is_digit, is_space, skip_where}

-- The digits of a number in front of a text, with one unit of fuel for each.
unfoldable pub digits_onto : ℕ → ℕ → Text → Text
digits_onto zero n out = out
digits_onto (suc fuel) n out = elim (ltb n 10) [
  | true ↦ (b'0' + n) ∷ out
  | false ↦ digits_onto fuel (n / 10) ((b'0' + n % 10) ∷ out)
]

unfoldable pub to_string : ℕ → Text
unfolding digits_onto
to_string n = digits_onto (suc n) n []

unfoldable pub to_string_ℤ : ℤ → Text
unfolding to_string
to_string_ℤ (pos n) = to_string n
to_string_ℤ (negsuc n) = b'-' ∷ to_string (suc n)

-- The digits that a text starts with, as a number behind `n`.
unfoldable pub value_from : ℕ → Text → ℕ
value_from n [] = n
value_from n (c ∷ s) =
    let rest = value_from (n * 10 + (c - b'0')) s in if is_digit c then rest else n

abbrev pub starts_digit : Text → Bool
starts_digit [] = false
starts_digit (c ∷ s) = is_digit c

-- The number without its sign: at least one digit, and no more than `bound`.
unfoldable pub parse_up_to : ℕ → Text → Option ℕ
unfolding value_from
parse_up_to bound s =
    if starts_digit s && leb (value_from 0 s) bound then some (value_from 0 s) else none

unfoldable pub parse_signed : ℕ → Text → Option ℤ
unfolding parse_up_to
parse_signed bound [] = none
parse_signed bound (c ∷ s) =
    if c == b'-'
    then elim (parse_up_to bound s) [ none ↦ none | some n ↦ some (sub_ℕ 0 n) ]
    else if c == b'+'
    then elim (parse_up_to bound s) [ none ↦ none | some n ↦ some (pos n) ]
    else elim (parse_up_to bound (c ∷ s)) [ none ↦ none | some n ↦ some (pos n) ]

abbrev pub int_max : ℕ
int_max = 2 ^ 31 - 1

abbrev pub long_max : ℕ
long_max = 2 ^ 63 - 1

-- `stoi` and `stol`, with `none` for the exception. The least value of the type, one further
-- from zero than the greatest, is refused here and read by the library.
unfoldable pub stoi : Text → Option ℤ
unfolding parse_signed skip_where
stoi s = parse_signed int_max (skip_where is_space s)

unfoldable pub stol : Text → Option ℤ
unfolding parse_signed skip_where
stol s = parse_signed long_max (skip_where is_space s)

-- `stoull` on a text without a sign
unfoldable pub stoull : Text → Option ℕ
unfolding parse_up_to skip_where
stoull s = parse_up_to (2 ^ 64 - 1) (skip_where is_space s)

abbrev is_hex_letter : ℕ → Bool
is_hex_letter c = (leb b'a' c && leb c b'f') || (leb b'A' c && leb c b'F')

abbrev pub hex_digit : ℕ → Option ℕ
hex_digit c =
    if is_digit c
    then some (c - b'0')
    else if leb b'a' c && leb c b'f'
    then some (c - b'a' + 10)
    else if leb b'A' c && leb c b'F'
    then some (c - b'A' + 10)
    else none

unfoldable pub hex_from : ℕ → Text → ℕ
hex_from n [] = n
hex_from n (c ∷ s) = elim (hex_digit c) [ none ↦ n | some d ↦ hex_from (n * 16 + d) s ]

-- `stoull(s, nullptr, 16)` on a text without a sign or `0x`
unfoldable pub stoull_hex : Text → Option ℕ
unfolding hex_from
stoull_hex [] = none
stoull_hex (c ∷ s) =
    if is_digit c || is_hex_letter c
    then (if leb (hex_from 0 (c ∷ s)) (2 ^ 64 - 1) then some (hex_from 0 (c ∷ s)) else none)
    else none

-- The text goes on with something that is no digit, or ends.
abbrev pub EndsNumber : Text → Type 0
EndsNumber rest = starts_digit rest ≡ false

value_from_end : (n : ℕ) (rest : Text) → EndsNumber rest → value_from n rest ≡ n
unfolding value_from
value_from_end n [] h = refl
value_from_end n (c ∷ s) h = ground arith

-- Reading the printed digits of `n` after those of `k` before it: `k * 10 ^ (digits of n) + n`,
-- here for `k = 0`, with the digits that follow in `out`.
value_from-digits_onto :
    (fuel n : ℕ) (out : Text) → n < fuel → value_from 0 (digits_onto fuel n out) ≡ value_from n out
unfolding digits_onto value_from
value_from-digits_onto zero n out h = absurd (omega arith)
value_from-digits_onto (suc fuel) n out h =
    ground (arith, value_from-digits_onto fuel (n / 10) ((b'0' + n % 10) ∷ out))

starts_digit-digits_onto :
    (fuel n : ℕ) (out : Text) → n < fuel → starts_digit (digits_onto fuel n out) ≡ true
unfolding digits_onto
starts_digit-digits_onto zero n out h = absurd (omega arith)
starts_digit-digits_onto (suc fuel) n out h =
    ground (arith, starts_digit-digits_onto fuel (n / 10) ((b'0' + n % 10) ∷ out))

digits_onto-append :
    (fuel n : ℕ) (out rest : Text)
    → digits_onto fuel n out ++ rest ≡ digits_onto fuel n (out ++ rest)
unfolding digits_onto
digits_onto-append zero n out rest = refl
digits_onto-append (suc fuel) n out rest =
    ground (arith, digits_onto-append fuel (n / 10) ((b'0' + n % 10) ∷ out) rest)

pub starts_digit-to_string : (n : ℕ) (rest : Text) → starts_digit (to_string n ++ rest) ≡ true
unfolding to_string
starts_digit-to_string n rest =
    rw (digits_onto-append (suc n) n [] rest)
      (starts_digit-digits_onto (suc n) n rest (omega arith))

-- A printed number is read back, whatever follows it.
pub parse_up_to-to_string :
    (bound n : ℕ) (rest : Text)
    → n ≤ bound
    → EndsNumber rest
    → parse_up_to bound (to_string n ++ rest) ≡ some n
unfolding parse_up_to to_string
parse_up_to-to_string bound n rest fits ends = rw (digits_onto-append (suc n) n [] rest) (
    ground (
      arith,
      value_from-digits_onto (suc n) n rest,
      starts_digit-digits_onto (suc n) n rest,
      value_from_end n rest,
    ))

-- The printed digits hold no other byte.
pub digits_onto-All :
    (p : ℕ → Bool) (fuel n : ℕ) (out : Text)
    → ((c : ℕ) → is_digit c ≡ true → p c ≡ true)
    → All (λ c. p c ≡ true) out
    → All (λ c. p c ≡ true) (digits_onto fuel n out)
unfolding digits_onto
digits_onto-All p zero n out h all = all
digits_onto-All p (suc fuel) n out h all = elim (Bool-cases (ltb n 10)) [
  | inl small ↦ rw (small, All, digits_onto) (h (b'0' + n) (ground arith), all)
  | inr large ↦
      rw (large, All, digits_onto)
        (digits_onto-All p fuel (n / 10) ((b'0' + n % 10) ∷ out) h
          (h (b'0' + n % 10) (ground arith), all))
]

pub to_string-All :
    (p : ℕ → Bool) (n : ℕ)
    → ((c : ℕ) → is_digit c ≡ true → p c ≡ true)
    → All (λ c. p c ≡ true) (to_string n)
unfolding to_string
to_string-All p n h = digits_onto-All p (suc n) n [] h tt

to_string_example : to_string 4096 ≡ b'4' ∷ b'0' ∷ b'9' ∷ b'6' ∷ []
unfolding to_string
to_string_example = refl
