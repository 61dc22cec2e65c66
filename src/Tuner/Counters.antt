-- ===== src/Tuner/Counters.antt =====
-- The counters that core/src/tuner.cpp reads of an interface. A number that the stream fails to read,
-- which the program then leaves unset, is taken to be 0.
use betterconn.Prelude.{
  ℕ, zero, suc, ◌+◌, ◌-◌, ◌%◌, ◌^◌, Bool, not, ◌==◌, Option, none, some, List, [], ◌∷◌, ◌++◌, Text,
  text_eq, drop, take, if◌then◌else◌,
}
use betterconn.Double.{Double}
use betterconn.Os.{Os}
use betterconn.Text.{chars, find, find_where}
use betterconn.Text.Lines.{lines}
use betterconn.Text.Stream.{read_u64}

abbrev not_a_space : ℕ → Bool
not_a_space c = not (c == b' ')

abbrev from_place : Text → Option ℕ → Text
from_place name none = name
from_place name (some place) = drop place name

-- The name in front of the colon, without the spaces before it
abbrev name_before : Text → ℕ → Text
name_before line colon =
    let name = take colon line in from_place name (find_where not_a_space name 0)

-- What stands behind the colon in the first line of an interface
unfoldable pub line_of : Text → List Text → Option Text
unfolding find find_where
line_of iface [] = none
line_of iface (line ∷ rest) =
    let later = line_of iface rest in
    elim (find (chars ":") line 0) [
      | none ↦ later
      | some colon ↦
          if text_eq (name_before line colon) iface then some (drop (colon + 1) line) else later
    ]

-- The number behind `skipped` others
unfoldable pub counter_at : ℕ → Text → ℕ
unfolding read_u64
counter_at zero s = elim (read_u64 s) [ none ↦ 0 | some (n, rest) ↦ n ]
counter_at (suc skipped) s = elim (read_u64 s) [
  | none ↦ 0
  | some (n, rest) ↦ counter_at skipped rest
]

abbrev without_headings : List Text → List Text
without_headings [] = []
without_headings (first ∷ []) = []
without_headings (first ∷ second ∷ rest) = rest

abbrev counter_in : ℕ → Option Text → ℕ
counter_in skipped none = 0
counter_in skipped (some s) = counter_at skipped s

abbrev lines_found : Option Text → List Text
lines_found none = []
lines_found (some content) = lines content

module _ ⦃os : Os⦄ where
  open os use {World, read_file, exists}

  unfoldable pub read_iface_rx : Text → World → ℕ
  unfolding line_of counter_at lines
  read_iface_rx iface w =
      counter_in 0 (line_of iface (lines_found (read_file (chars "/proc/net/dev") w)))

  unfoldable pub read_iface_tx : Text → World → ℕ
  unfolding line_of counter_at lines
  read_iface_tx iface w =
      counter_in 8 (line_of iface (lines_found (read_file (chars "/proc/net/dev") w)))

  unfoldable pub is_wifi : Text → World → Bool
  is_wifi iface w = exists (chars "/sys/class/net/" ++ (iface ++ chars "/phy80211")) w

  module _ ⦃d : Double⦄ where
    open d use {Real, mul, div, of_ℕ, milli, read_double}

    -- The number behind `skipped` others
    unfoldable pub level_at : ℕ → Text → Real
    level_at zero s = elim (read_double s) [ none ↦ milli 0 | some (x, rest) ↦ x ]
    level_at (suc skipped) s = elim (read_double s) [
      | none ↦ milli 0
      | some (x, rest) ↦ level_at skipped rest
    ]

    abbrev level_in : ℕ → Option Text → Real
    level_in skipped none = milli 0
    level_in skipped (some s) = level_at skipped s

    -- The bits per second between two readings of a 64-bit counter
    unfoldable pub bits_per_second : ℕ → ℕ → ℕ → Real
    bits_per_second before after ms =
        div (mul (of_ℕ ((after + 2 ^ 64 - before) % 2 ^ 64)) (of_ℕ 8)) (div (of_ℕ ms) (of_ℕ 1000))

    -- From the machine before and the one after the sleep
    unfoldable pub read_rx_bps : Text → ℕ → World → World → Real
    unfolding read_iface_rx bits_per_second
    read_rx_bps iface ms w v = bits_per_second (read_iface_rx iface w) (read_iface_rx iface v) ms

    unfoldable pub read_tx_bps : Text → ℕ → World → World → Real
    unfolding read_iface_tx bits_per_second
    read_tx_bps iface ms w v = bits_per_second (read_iface_tx iface w) (read_iface_tx iface v) ms

    unfoldable pub read_rssi_dbm : Text → World → Real
    unfolding line_of level_at lines
    read_rssi_dbm iface w =
        level_in 2 (
          line_of iface (without_headings (lines_found (read_file (chars "/proc/net/wireless") w))))

    unfoldable pub read_tx_retries : Text → World → Real
    unfolding line_of level_at lines
    read_tx_retries iface w =
        level_in 7 (
          line_of iface (without_headings (lines_found (read_file (chars "/proc/net/wireless") w))))
