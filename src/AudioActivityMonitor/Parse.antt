-- ===== src/AudioActivityMonitor/Parse.antt =====
-- `parse_sink_inputs`: one round for each entry of the listing.
use betterconn.Prelude.{
  ℕ, suc, ◌+◌, ◌-◌, ◌≡◌, Bool, true, false, not, Option, none, some, List, [], ◌∷◌, arith,
  if◌then◌else◌, length, Text, text_eq, Option-cases, inl, inr, All, Bool-cases, refl,
}
use betterconn.Prelude.Chain.{◌>>=◌, ◌>>◌, guard, >>=-holds, checked_holds}
use betterconn.Prelude.Int.{ℤ, is_pos, ℤ_eq}
use betterconn.Prelude.Dict.{member}
use betterconn.Text.{chars, find, find_where, is_blank, substr}
use betterconn.Text.Decimal.{stoi}
use betterconn.Text.Search.{Round, next, done, scan, Advances, scan_total, scan_inv, find-bounds}

-- "Sink Input #"
unfoldable pub entry_marker : Text
unfolding chars
entry_marker = chars "Sink Input #"

-- "application.process.id = \""
unfoldable pub pid_key : Text
unfolding chars
pid_key = chars "application.process.id = \""

unfoldable pub is_corked : Text → Bool
unfolding find find_where chars
is_corked entry = elim (find (chars "Corked:") entry 0) [
  | none ↦ false
  | some corked_pos ↦ elim (find_where (λ c. not (is_blank c)) entry (corked_pos + 7)) [
    | none ↦ false
    | some value_start ↦ text_eq (substr entry value_start 3) (chars "yes")
  ]
]

-- The process of an entry that is not corked, if its number is there and positive.
unfoldable pub playing_pid : Text → Option ℤ
unfolding is_corked find stoi pid_key
playing_pid entry = do
  guard (not (is_corked entry))
  pid_pos ← find pid_key entry 0
  let digits_start = pid_pos + length pid_key
  digits_end ← find (b'"' ∷ []) entry digits_start
  pid ← stoi (substr entry digits_start (digits_end - digits_start))
  guard (is_pos pid)
  some pid

abbrev pub add_pid : Option ℤ → List ℤ → List ℤ
add_pid none pids = pids
add_pid (some pid) pids = if member pid pids then pids else pid ∷ pids

abbrev end_or : ℕ → Option ℕ → ℕ
end_or size none = size
end_or size (some n) = n

unfoldable pub sink_round : Text → ℕ → List ℤ → Round (List ℤ) (List ℤ)
unfolding find playing_pid entry_marker
sink_round output search_from pids = elim (find entry_marker output search_from) [
  | none ↦ done pids
  | some entry_start ↦
      let next_start = find entry_marker output (entry_start + length entry_marker) in
      let entry_end = end_or (length output) next_start in
      let entry = substr output entry_start (entry_end - entry_start) in
      next entry_end (add_pid (playing_pid entry) pids)
]

abbrev pids_or_none : Option (List ℤ) → List ℤ
pids_or_none none = []
pids_or_none (some pids) = pids

unfoldable pub scan_sink_inputs : Text → Option (List ℤ)
unfolding scan sink_round
scan_sink_inputs output = scan (suc (length output)) (sink_round output) 0 []

unfoldable pub parse_sink_inputs : Text → List ℤ
unfolding scan_sink_inputs
parse_sink_inputs output = pids_or_none (scan_sink_inputs output)

sink_round-Advances : (output : Text) → Advances (length output) (sink_round output)
unfolding sink_round entry_marker
sink_round-Advances output p s q t e = elim (Option-cases (find entry_marker output p)) [
  | inl f ↦ absurd (ground arith)
  | inr (n, f) ↦
      let here = find-bounds entry_marker output p n f in
      elim (Option-cases (find entry_marker output (n + length entry_marker))) [
        | inl g ↦ (ground arith, ground arith)
        | inr (m, g) ↦
            let there = find-bounds entry_marker output (n + length entry_marker) m g in
            (ground arith, ground arith)
      ]
]

-- The loop over the listing ends, whatever the listing holds.
pub scan_sink_inputs_total :
    (output : Text) → (pids : List ℤ) × (scan_sink_inputs output ≡ some pids)
unfolding scan_sink_inputs
scan_sink_inputs_total output =
    scan_total (length output) (sink_round output) (sink_round-Advances output)
      (suc (length output)) 0 [] (omega arith)

add_pid-positive :
    (found : Option ℤ) (pids : List ℤ)
    → ((pid : ℤ) → found ≡ some pid → is_pos pid ≡ true)
    → All (λ pid. is_pos pid ≡ true) pids
    → All (λ pid. is_pos pid ≡ true) (add_pid found pids)
add_pid-positive none pids h all = all
add_pid-positive (some pid) pids h all = elim (Bool-cases (member pid pids)) [
  | inl known ↦ rw known all
  | inr new ↦ rw new (h pid refl, all)
]

playing_pid-positive : (entry : Text) (pid : ℤ) → playing_pid entry ≡ some pid → is_pos pid ≡ true
unfolding playing_pid
playing_pid-positive entry =
    >>=-holds (λ b. is_pos b ≡ true) (guard (not (is_corked entry))) _
      λ u.
        >>=-holds (λ b. is_pos b ≡ true) (find pid_key entry 0) _
          λ at.
            >>=-holds (λ b. is_pos b ≡ true) (find (b'"' ∷ []) entry (at + length pid_key)) _
              λ end.
                >>=-holds (λ b. is_pos b ≡ true)
                  (stoi (substr entry (at + length pid_key) (end - (at + length pid_key)))) _
                  (checked_holds is_pos)

sink_round-positive :
    (output : Text) (p : ℕ) (s : List ℤ) (q : ℕ) (t : List ℤ)
    → All (λ pid. is_pos pid ≡ true) s
    → sink_round output p s ≡ next q t
    → All (λ pid. is_pos pid ≡ true) t
unfolding sink_round
sink_round-positive output p s q t all e = elim (Option-cases (find entry_marker output p)) [
  | inl f ↦ absurd (ground arith)
  | inr (n, f) ↦
      let end = end_or (length output) (find entry_marker output (n + length entry_marker)) in
      let found = playing_pid (substr output n (end - n)) in
      let grown : t ≡ add_pid found s = ground arith in
      rw grown (add_pid-positive found s (playing_pid-positive (substr output n (end - n))) all)
]

sink_round_done :
    (output : Text) (p : ℕ) (s r : List ℤ)
    → All (λ pid. is_pos pid ≡ true) s
    → sink_round output p s ≡ done r
    → All (λ pid. is_pos pid ≡ true) r
unfolding sink_round
sink_round_done output p s r all e = elim (Option-cases (find entry_marker output p)) [
  | inl f ↦ let same : r ≡ s = ground arith in rw same all
  | inr (n, f) ↦ absurd (ground arith)
]

-- Every process that is reported has a positive number.
pub parse_sink_inputs_positive :
    (output : Text) → All (λ pid. is_pos pid ≡ true) (parse_sink_inputs output)
unfolding parse_sink_inputs scan_sink_inputs
parse_sink_inputs_positive output =
    let (pids, e) = scan_sink_inputs_total output in
    rw e (
      scan_inv (All (λ pid. is_pos pid ≡ true)) (All (λ pid. is_pos pid ≡ true)) (sink_round output)
        (sink_round-positive output) (sink_round_done output) (suc (length output)) 0 [] pids tt e)
