-- ===== src/Text/Lines.antt =====
-- `std::getline` in a loop, and words as `>>` reads them.
use betterconn.Prelude.{
  ℕ, true, false, List, [], ◌∷◌, ◌++◌, ◌≡◌, ◌==◌, if◌then◌else◌, Text, arith, All, append_assoc,
}
use betterconn.Text.{is_space}

-- The pieces of `getline(ss, piece, mark)`: the last one needs no mark behind it, and an empty
-- rest is no piece. The text in hand is what the current piece has so far.
unfoldable pub pieces_from : ℕ → Text → Text → List Text
pieces_from mark [] [] = []
pieces_from mark (b ∷ bs) [] = (b ∷ bs) ∷ []
pieces_from mark now (c ∷ s) = elim (c == mark) [
  | true ↦ now ∷ pieces_from mark [] s
  | false ↦ pieces_from mark (now ++ c ∷ []) s
]

unfoldable pub pieces : ℕ → Text → List Text
unfolding pieces_from
pieces mark s = pieces_from mark [] s

unfoldable pub lines : Text → List Text
unfolding pieces
lines s = pieces b'\n' s

-- The first line, `""` for an empty text.
unfoldable pub first_line : Text → Text
first_line [] = []
first_line (c ∷ s) = let rest = first_line s in if c == b'\n' then [] else c ∷ rest

unfoldable pub words_from : Text → Text → List Text
words_from [] [] = []
words_from (b ∷ bs) [] = (b ∷ bs) ∷ []
words_from [] (c ∷ s) = elim (is_space c) [ true ↦ words_from [] s | false ↦ words_from (c ∷ []) s ]
words_from (b ∷ bs) (c ∷ s) = elim (is_space c) [
  | true ↦ (b ∷ bs) ∷ words_from [] s
  | false ↦ words_from ((b ∷ bs) ++ c ∷ []) s
]

-- What a chain `ss >> a >> b >> …` reads.
unfoldable pub words : Text → List Text
unfolding words_from
words s = words_from [] s

-- A text without the byte.
abbrev pub Lacks : ℕ → Text → Type 0
Lacks mark = All (λ c. (c == mark) ≡ false)

pub pieces_from-append :
    (mark : ℕ) (now s rest : Text)
    → Lacks mark s
    → pieces_from mark now (s ++ mark ∷ rest) ≡ (now ++ s) ∷ pieces_from mark [] rest
unfolding pieces_from
pieces_from-append mark [] [] rest h = ground arith
pieces_from-append mark (b ∷ bs) [] rest h = ground (arith, mathlib.Core.List.append-nil (b ∷ bs))
pieces_from-append mark [] (c ∷ s) rest h = ground (arith, pieces_from-append mark (c ∷ []) s rest)
pieces_from-append mark (b ∷ bs) (c ∷ s) rest h =
    ground
      (arith, pieces_from-append mark ((b ∷ bs) ++ c ∷ []) s rest, append_assoc (b ∷ bs) (c ∷ []) s)

-- A line that is terminated is read whole, and reading goes on behind it.
pub lines-append : (s rest : Text) → Lacks b'\n' s → lines (s ++ b'\n' ∷ rest) ≡ s ∷ lines rest
unfolding lines pieces
lines-append s rest h = pieces_from-append b'\n' [] s rest h

-- A line that was read holds no newline.
pub first_line-Lacks : (s : Text) → Lacks b'\n' (first_line s)
unfolding first_line
first_line-Lacks [] = tt
first_line-Lacks (c ∷ s) = ground (arith, first_line-Lacks s)
