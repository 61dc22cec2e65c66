-- ===== src/WindowFocus/Fields.antt =====
-- The number behind a key, as the focus backends read it from a command's output.
use betterconn.Prelude.{
  ℕ, ◌+◌, Bool, true, false, not, Option, none, some, [], ◌∷◌, if◌then◌else◌, length, drop, Text,
  ◌==◌,
}
use betterconn.Prelude.Chain.{◌>>=◌, ◌>>◌, guard}
use betterconn.Prelude.Int.{ℤ, minus_one, sub_ℕ, pos_part, neg_part}
use betterconn.Text.{find, find_where, is_blank, is_digit, substr_to, is_empty}
use betterconn.Text.Decimal.{stoi, stol, starts_digit}

abbrev not_blank : ℕ → Bool
not_blank c = not (is_blank c)

abbrev not_digit : ℕ → Bool
not_digit c = not (is_digit c)

-- `isdigit(output[pos])`, false beyond the end
abbrev digit_at : Text → ℕ → Bool
digit_at output pos = starts_digit (drop pos output)

abbrev pub or_minus_one : Option ℤ → ℤ
or_minus_one none = minus_one
or_minus_one (some n) = n

-- `run_and_capture_pid` behind the capture
unfoldable pub captured_pid : Text → Text → Option ℤ
unfolding find find_where stoi
captured_pid output anchor_key = do
  guard (not (is_empty output))
  pos ← find anchor_key output 0
  digits_start ← find_where not_blank output (pos + length anchor_key)
  guard (digit_at output digits_start)
  stoi (substr_to output digits_start (find_where not_digit output digits_start))

abbrev starts_minus : Text → Bool
starts_minus [] = false
starts_minus (c ∷ s) = c == b'-'

abbrev negate_if : Bool → ℤ → ℤ
negate_if true n = sub_ℕ (neg_part n) (pos_part n)
negate_if false n = n

-- `parse_shell_field`: `none` for `false`, which leaves the output argument alone
unfoldable pub parse_shell_field : Text → Text → Option ℤ
unfolding find find_where stol
parse_shell_field output key = do
  pos ← find key output 0
  value_start ← find_where not_blank output (pos + length key)
  let negative = starts_minus (drop value_start output)
  let digits_start = if negative then value_start + 1 else value_start
  guard (digit_at output digits_start)
  n ← stol (substr_to output digits_start (find_where not_digit output digits_start))
  some (negate_if negative n)
