-- ===== src/SurveyMonitor/Block.antt =====
-- The search of core/src/survey_monitor.cpp for the block of the channel in use.
use betterconn.Prelude.{
  ℕ, suc, ◌+◌, ◌-◌, subst, ◌≤◌, ◌<◌, ◌≡◌, ◌≢◌, true, Option, none, some, [], ◌∷◌, Text, length,
  drop, arith, Option-cases, Bool-cases, inl, inr,
}
use betterconn.Io.{Done}
use betterconn.SurveyMonitor.{marker, in_use, block_round, find_active_block}
use betterconn.Text.{chars, find, contains, starts_with, substr_to}
use betterconn.Text.Search.{done, Advances, scan_total, scan_inv, find-bounds, find-starts_with}

-- The line of a block, and whether it names the channel in use
abbrev pub line_at : Text → ℕ → Text
line_at output start = substr_to output start (find (chars "\n") output start)

abbrev pub IsActiveBlock : Text → Option ℕ → Type 0
IsActiveBlock output none = Unit
IsActiveBlock output (some start) =
    (starts_with marker (drop start output) ≡ true)
    × (contains in_use (line_at output start) ≡ true)

-- A place where one text starts is no place where the other does.
not_both : (s : Text) → starts_with marker s ≡ true → starts_with (chars "\n") s ≢ true
unfolding starts_with chars
not_both [] h k = ground arith
not_both (c ∷ s) h k = ground arith

beyond :
    (n m p q size : ℕ)
    → (p ≤ n) × (n + 10 ≤ p + (size - p))
    → (n ≤ m) × (m + 1 ≤ n + (size - n))
    → m ≢ n
    → q ≡ m
    → (p < q) × (q ≤ size)
beyond n m p q size (a, b) (c, d) apart same = ground arith

block_round-Advances : (output : Text) → Advances (length output) (block_round output)
unfolding block_round chars
block_round-Advances output p s q t e = elim (Option-cases (find marker output p)) [
  | inl f ↦ absurd (ground arith)
  | inr (n, f) ↦
      let here = find-bounds marker output p n f in
      let starts = find-starts_with marker output p n f in
      elim (Bool-cases (contains in_use (line_at output n))) [
        | inl used ↦ absurd (ground arith)
        | inr unused ↦ elim (Option-cases (find (chars "\n") output n)) [
          | inl g ↦ absurd (ground arith)
          | inr (m, g) ↦
              let there = find-bounds (chars "\n") output n m g in
              let ends = find-starts_with (chars "\n") output n m g in
              let apart : m ≢ n = λ same.
                not_both (drop n output) starts
                  (subst (λ k. starts_with (chars "\n") (drop k output) ≡ true) same ends) in
              let goes_on : q ≡ m = ground arith in
              beyond n m p q (length output) here there apart goes_on
        ]
      ]
]

block_round_done :
    (output : Text) (p : ℕ) (s : Done) (found : Option ℕ)
    → block_round output p s ≡ done found
    → IsActiveBlock output found
unfolding block_round
block_round_done output p s none e = tt
block_round_done output p s (some start) e = elim (Option-cases (find marker output p)) [
  | inl f ↦ absurd (ground arith)
  | inr (n, f) ↦ elim (Bool-cases (contains in_use (line_at output n))) [
    | inl used ↦
        let same : start ≡ n = ground arith in rw same (find-starts_with marker output p n f, used)
    | inr unused ↦ elim (Option-cases (find (chars "\n") output n)) [
      | inl g ↦ absurd (ground arith)
      | inr (m, g) ↦ absurd (ground arith)
    ]
  ]
]

-- The search ends, whatever the driver prints, and the block that it finds starts with its
-- frequency, on a line that says that the channel is in use.
pub find_active_block_lem :
    (output : Text)
    → (found : Option ℕ) × (find_active_block output ≡ some found) × IsActiveBlock output found
unfolding find_active_block
find_active_block_lem output =
    let (found, e) =
      scan_total (length output) (block_round output) (block_round-Advances output)
        (suc (length output)) 0 tt (omega arith) in
    (
      found,
      e,
      scan_inv (λ s. Unit) (IsActiveBlock output) (block_round output) (λ p s q t h k. tt)
          (λ p s found h. block_round_done output p s found) (suc (length output)) 0 tt found tt e,
    )
