-- ===== src/WindowFocus/Sway.antt =====
-- `get_focused_pid_sway` behind the capture: the first focused node of the tree that has a
-- process number.
use betterconn.Prelude.{
  ℕ, suc, ◌+◌, ◌≡◌, Bool, true, false, not, ◌||◌, Option, none, some, arith, length, Text, text_eq,
  ltb, ◌==◌, Option-cases, inl, inr,
}
use betterconn.Prelude.Chain.{◌>>=◌, ◌>>◌, guard}
use betterconn.Prelude.Int.{ℤ, is_pos, minus_one}
use betterconn.Text.{chars, find, find_where, is_blank, is_digit, substr, substr_to}
use betterconn.Text.Decimal.{stoi}
use betterconn.Text.Search.{Round, next, done, scan, Advances, scan_total, find-bounds}
use betterconn.WindowFocus.Fields.{or_minus_one}

-- "\"focused\""
unfoldable pub focused_marker : Text
unfolding chars
focused_marker = chars "\"focused\""

-- not in " \t:"
abbrev not_separator : ℕ → Bool
not_separator c = not (is_blank c || c == b':')

abbrev position_eq : Option ℕ → ℕ → Bool
position_eq none n = false
position_eq (some m) n = m == n

abbrev before : ℕ → Option ℕ → Bool
before n none = true
before n (some m) = ltb n m

-- The process number of a focused node, looked for up to the next node.
unfoldable pub sway_node_pid : Text → ℕ → Option ℤ
unfolding find find_where stoi chars focused_marker
sway_node_pid output focused_pos = do
  let after_marker = focused_pos + length focused_marker
  value_start ← find_where not_separator output after_marker
  guard (text_eq (substr output value_start 4) (chars "true"))
  pid_pos ← find (chars "\"pid\"") output focused_pos
  guard (before pid_pos (find focused_marker output after_marker))
  pid_value_start ← find_where not_separator output (pid_pos + 5)
  guard (position_eq (find_where is_digit output pid_value_start) pid_value_start)
  pid ←
      stoi (
        substr_to output pid_value_start
          (find_where (λ c. not (is_digit c)) output pid_value_start))
  guard (is_pos pid)
  some pid

abbrev go_on : ℕ → Option ℤ → Round (Unit {0}) ℤ
go_on after none = next after tt
go_on after (some pid) = done pid

unfoldable pub sway_round : Text → ℕ → Unit {0} → Round (Unit {0}) ℤ
unfolding find sway_node_pid
sway_round output search_from u = elim (find focused_marker output search_from) [
  | none ↦ done minus_one
  | some focused_pos ↦
      go_on (focused_pos + length focused_marker) (sway_node_pid output focused_pos)
]

unfoldable pub scan_sway : Text → Option ℤ
unfolding scan sway_round
scan_sway output = scan (suc (length output)) (sway_round output) 0 tt

unfoldable pub focused_pid_sway : Text → ℤ
unfolding scan_sway
focused_pid_sway output = or_minus_one (scan_sway output)

sway_round-Advances : (output : Text) → Advances (length output) (sway_round output)
unfolding sway_round
sway_round-Advances output p s q t e = elim (Option-cases (find focused_marker output p)) [
  | inl f ↦ absurd (ground arith)
  | inr (n, f) ↦
      let here = find-bounds focused_marker output p n f in
      elim (Option-cases (sway_node_pid output n)) [
        | inl g ↦ unfold focused_marker chars in (ground arith, ground arith)
        | inr (m, g) ↦ absurd (ground arith)
      ]
]

-- The search for the focused node ends on every output.
pub scan_sway_total : (output : Text) → (pid : ℤ) × (scan_sway output ≡ some pid)
unfolding scan_sway
scan_sway_total output =
    scan_total (length output) (sway_round output) (sway_round-Advances output)
      (suc (length output)) 0 tt (omega arith)
