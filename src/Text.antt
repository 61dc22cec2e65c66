-- ===== src/Text.antt =====
-- The operations of `std::string`, `getline`, `>>`, `stoi` and `to_string` that the program
-- calls, over a text as a list of byte values. A position is `none` for `npos`.
pub mod Decimal
pub mod Lines
pub mod Search
pub mod Stream
use Prim.Native.Char.{code}
use Prim.Native.String.{String}
use betterconn.Prelude.{
  ℕ, zero, suc, ◌+◌, ◌-◌, ◌*◌, Bool, true, false, not, ◌&&◌, ◌||◌, Option, none, some, List, [],
  ◌∷◌, ◌++◌, leb, ltb, ◌==◌, if◌then◌else◌, length, take, drop, Text, any,
}
use mathlib.Core.Option

-- A literal of the source, which holds ASCII bytes only.
unfoldable pub chars : String → Text
chars String.[] = []
chars (String.◌∷◌ c s) = code c ∷ chars s

-- `empty()`
abbrev pub is_empty {ℓ} : {A : Type ℓ} → List A → Bool
is_empty [] = true
is_empty (x ∷ xs) = false

-- `rfind(prefix, 0) == 0` and `compare(pos, n, literal) == 0` on the text from there
unfoldable pub starts_with : Text → Text → Bool
starts_with [] s = true
starts_with (p ∷ ps) [] = false
starts_with (p ∷ ps) (c ∷ s) = p == c && starts_with ps s

unfoldable pub find_first : Text → Text → Option ℕ
unfolding starts_with
find_first pattern [] = if starts_with pattern [] then some 0 else none
find_first pattern (c ∷ s) =
    let later = Option.map suc (find_first pattern s) in
    if starts_with pattern (c ∷ s) then some 0 else later

-- `s.find(pattern, from)`
unfoldable pub find : Text → Text → ℕ → Option ℕ
unfolding find_first
find pattern s from = Option.map (λ n. from + n) (find_first pattern (drop from s))

unfoldable pub contains : Text → Text → Bool
unfolding find_first
contains pattern s = elim (find_first pattern s) [ none ↦ false | some _ ↦ true ]

unfoldable pub first_where : (ℕ → Bool) → Text → Option ℕ
first_where p [] = none
first_where p (c ∷ s) =
    let later = Option.map suc (first_where p s) in if p c then some 0 else later

-- `find_first_of` and `find_first_not_of`, by the test that a byte has to pass
unfoldable pub find_where : (ℕ → Bool) → Text → ℕ → Option ℕ
unfolding first_where
find_where p s from = Option.map (λ n. from + n) (first_where p (drop from s))

-- `s.substr(from, count)`, and `s.substr(from)`
abbrev pub substr : Text → ℕ → ℕ → Text
substr s from count = take count (drop from s)

-- `s.substr(from, end - from)` where `end` may be `npos`
abbrev pub substr_to : Text → ℕ → Option ℕ → Text
substr_to s from none = drop from s
substr_to s from (some end) = substr s from (end - from)

abbrev pub is_digit : ℕ → Bool
is_digit c = leb b'0' c && leb c b'9'

abbrev pub is_alpha : ℕ → Bool
is_alpha c = (leb b'a' c && leb c b'z') || (leb b'A' c && leb c b'Z')

-- " \t"
abbrev pub is_blank : ℕ → Bool
is_blank c = c == b' ' || c == b'\t'

-- `isspace`
abbrev pub is_space : ℕ → Bool
is_space c = c == b' ' || (leb 9 c && leb c 13)

-- `tolower`
abbrev pub lower : ℕ → ℕ
lower c = if leb b'A' c && leb c b'Z' then c + 32 else c

unfoldable pub skip_where : (ℕ → Bool) → Text → Text
skip_where p [] = []
skip_where p (c ∷ s) = let rest = skip_where p s in if p c then rest else c ∷ s

unfoldable pub take_where : (ℕ → Bool) → Text → Text
take_where p [] = []
take_where p (c ∷ s) = let rest = take_where p s in if p c then c ∷ rest else []
