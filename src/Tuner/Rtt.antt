-- ===== src/Tuner/Rtt.antt =====
-- The round trip time of core/src/tuner.cpp: what the kernel keeps for the sockets, or a ping of the
-- gateway.
pub mod Passive
use betterconn.Prelude.{
  ℕ, zero, suc, ◌+◌, ◌/◌, ◌%◌, ◌^◌, Bool, true, false, not, ◌&&◌, ◌||◌, ◌==◌, Option, none, some,
  List, [], ◌∷◌, ◌++◌, Text, text_eq, length, drop, if◌then◌else◌,
}
use betterconn.Double.{Double, positive, minus_one_real}
use betterconn.Io.{◌>>=◌, ◌>>◌, pure}
use betterconn.Os.{Os, Act, ask, with_result}
use betterconn.Text.{chars, find, find_where, is_alpha, is_digit, is_empty, substr, substr_to}
use betterconn.Text.Decimal.{to_string, stoull_hex}
use betterconn.Text.Lines.{lines, words}
use betterconn.Text.Search.{Round, next, done, scan}

abbrev pub rtt_key : Text
rtt_key = chars "rtt:"

abbrev starts_alpha : Text → Bool
starts_alpha [] = false
starts_alpha (c ∷ s) = is_alpha c

-- `pos > 0 && isalpha(out[pos - 1])`
abbrev pub glued : Text → ℕ → Bool
glued out zero = false
glued out (suc n) = starts_alpha (drop n out)

abbrev ends_number : ℕ → Bool
ends_number c = not (is_digit c || c == b'.')

-- The dotted address of the number in the route table
abbrev dotted : ℕ → Text
dotted raw =
    to_string (raw % 256)
    ++ (b'.'
        ∷ (to_string (raw / 256 % 256)
            ++ (b'.'
                ∷ (to_string (raw / 65536 % 256) ++ (b'.' ∷ to_string (raw / 16777216 % 256))))))

abbrev pub address : Option ℕ → Option Text
address none = none
address (some raw) = if raw == 0 then none else some (dotted raw)

abbrev gateway_address : Text → Text → Option Text
gateway_address dest gateway =
    if text_eq dest (chars "00000000") && length gateway == 8
    then address (stoull_hex gateway)
    else none

-- The address in one line of the route table, unless the loop goes on
unfoldable pub line_gateway : List Text → Option Text
unfolding stoull_hex to_string
line_gateway [] = none
line_gateway (iface ∷ []) = none
line_gateway (iface ∷ dest ∷ []) = none
line_gateway (iface ∷ dest ∷ gateway ∷ rest) = gateway_address dest gateway

unfoldable pub first_gateway : List Text → Text
unfolding line_gateway words
first_gateway [] = []
first_gateway (line ∷ rest) = elim (line_gateway (words line)) [
  | none ↦ first_gateway rest
  | some found ↦ found
]

abbrev without_heading : List Text → List Text
without_heading [] = []
without_heading (heading ∷ rest) = rest

module _ ⦃d : Double⦄ where
  open d use {Real, lt, milli, stod}

  -- The smaller one, where there is a new time
  abbrev pub better : Real → Option Real → Real
  better best none = best
  better best (some rtt) = if positive rtt && (lt best (milli 0) || lt rtt best) then rtt else best

  -- The number from a position on
  unfoldable pub rtt_at : Text → ℕ → Option Real
  unfolding find_where
  rtt_at out from = stod (substr_to out from (find_where ends_number out from))

  -- A round of the loop, from a position and the best time so far
  unfoldable pub rtt_round : Text → ℕ → Real → Round Real Real
  unfolding find rtt_at
  rtt_round out from best = elim (find rtt_key out from) [
    | none ↦ done best
    | some pos ↦
        if glued out pos
        then next (pos + 4) best
        else next (pos + 4) (better best (rtt_at out (pos + 4)))
  ]

  unfoldable pub passive_rtt : Text → Option Real
  unfolding scan rtt_round
  passive_rtt out = scan (suc (length out)) (rtt_round out) 0 minus_one_real

  abbrev or_minus_one : Option Real → Real
  or_minus_one none = minus_one_real
  or_minus_one (some x) = x

  abbrev second_slash : Text → Option ℕ → Option ℕ
  second_slash out none = none
  second_slash out (some first) = find (chars "/") out (first + 1)

  abbrev between : Text → Option ℕ → Option ℕ → Option Real
  between out none second = none
  between out (some first) none = none
  between out (some first) (some second) = stod (substr_to out (first + 1) (some second))

  -- The second number behind `= `
  abbrev average : Text → ℕ → Option Real
  average out start =
      let first = find (chars "/") out start in between out first (second_slash out first)

  -- The average in the last line of a ping
  unfoldable pub ping_rtt : Text → Real
  unfolding find
  ping_rtt out = elim (find (chars "rtt min/avg/max") out 0) [
    | none ↦ minus_one_real
    | some pos ↦ elim (find (chars "= ") out pos) [
      | none ↦ minus_one_real
      | some eq ↦ or_minus_one (average out (eq + 2))
    ]
  ]

  module _ ⦃os : Os⦄ where
    open os use {World, read_file, popen}

    abbrev printed_rtt : Option Text → Real
    printed_rtt none = minus_one_real
    printed_rtt (some out) = or_minus_one (passive_rtt out)

    unfoldable pub read_passive_rtt_ms : Act Real
    unfolding passive_rtt
    read_passive_rtt_ms = do
      printed ← with_result (popen (chars "ss -tin state established 2>/dev/null"))
      pure (printed_rtt printed)

    unfoldable pub read_default_gateway : World → Text
    unfolding first_gateway lines
    read_default_gateway w = elim (read_file (chars "/proc/net/route") w) [
      | none ↦ []
      | some content ↦ first_gateway (without_heading (lines content))
    ]

    abbrev answered : Option Text → Real
    answered none = minus_one_real
    answered (some out) = ping_rtt out

    unfoldable pub ping_target : Text → Act Real
    unfolding ping_rtt
    ping_target target = do
      printed ←
          with_result (popen (chars "ping -c 2 -i 0.2 -W 1 " ++ (target ++ chars " 2>/dev/null")))
      pure (answered printed)

    unfoldable pub read_rtt_ms : Act Real
    unfolding read_passive_rtt_ms read_default_gateway ping_target
    read_rtt_ms = do
      passive ← read_passive_rtt_ms
      if positive passive then pure passive else (do
        gateway ← ask read_default_gateway
        ping_target (if is_empty gateway then chars "8.8.8.8" else gateway))
