-- ===== src/SurveyMonitor.antt =====
-- core/src/survey_monitor.cpp: the share of the airtime that other stations take, from the survey
-- of the channel that the driver prints.
pub mod Block
pub mod Ratio
use betterconn.Prelude.{
  ℕ, suc, ◌+◌, Bool, true, false, not, ◌&&◌, Option, none, some, List, [], ◌∷◌, ◌++◌, Text, length,
  drop, if◌then◌else◌,
}
use betterconn.Double.{Double, positive, real_eq, minus_one_real}
use betterconn.Io.{◌>>=◌, ◌>>◌, pure, Done}
use betterconn.Os.{Os, Act, ask, with_result}
use betterconn.Text.{chars, find, contains, substr_to}
use betterconn.Text.Search.{Round, next, done, scan}

abbrev pub marker : Text
marker = chars "frequency:"

abbrev pub in_use : Text
in_use = chars "[in use]"

-- On from the end of the line, if there is one
abbrev from_line_end : Option ℕ → Round Done (Option ℕ)
from_line_end none = done none
from_line_end (some line_end) = next line_end tt

-- A round of the search for the block of the channel in use
unfoldable pub block_round : Text → ℕ → Done → Round Done (Option ℕ)
unfolding find contains
block_round output from t = elim (find marker output from) [
  | none ↦ done none
  | some start ↦
      if contains in_use (substr_to output start (find (chars "\n") output start))
      then done (some start)
      else from_line_end (find (chars "\n") output start)
]

unfoldable pub find_active_block : Text → Option (Option ℕ)
unfolding scan block_round
find_active_block output = scan (suc (length output)) (block_round output) 0 tt

module _ ⦃d : Double⦄ where
  open d use {Real, lt, le, sub, div, milli, read_double}

  pub record SurveySample : Type 0 where
    pub busy_time : Real
    pub active_time : Real
    pub tx_time : Real
    pub noise_dbm : Real
    pub valid : Bool

  -- What the thread publishes
  pub record Survey : Type 0 where
    pub busy_ratio : Real
    pub noise_dbm : Real
    pub has_data : Bool

  -- What the loop keeps from its last valid sample
  pub record Previous : Type 0 where
    pub active_time : Real
    pub busy_time : Real
    pub tx_time : Real

  unfoldable pub new_survey : Survey
  new_survey = record { busy_ratio = minus_one_real; noise_dbm = milli 0; has_data = false }

  unfoldable pub no_previous : Previous
  no_previous = record {
    active_time = minus_one_real;
    busy_time = minus_one_real;
    tx_time = minus_one_real;
  }

  unfoldable pub no_sample : SurveySample
  no_sample = record {
    busy_time = minus_one_real;
    active_time = minus_one_real;
    tx_time = minus_one_real;
    noise_dbm = milli 0;
    valid = false;
  }

  abbrev number_or_minus_one : Option (Real × Text) → Real
  number_or_minus_one none = minus_one_real
  number_or_minus_one (some (value, rest)) = value

  unfoldable pub parse_field : Text → Text → Real
  unfolding find
  parse_field block key = elim (find key block 0) [
    | none ↦ minus_one_real
    | some place ↦ number_or_minus_one (read_double (drop (place + length key) block))
  ]

  abbrev is_minus_one : Real → Bool
  is_minus_one x = real_eq x minus_one_real

  abbrev block_sample : Real → Real → Real → Real → SurveySample
  block_sample noise active_time busy_time tx_time = record {
    busy_time = busy_time;
    active_time = active_time;
    tx_time = tx_time;
    noise_dbm = if is_minus_one noise then milli 0 else noise;
    valid = not (is_minus_one active_time) && not (is_minus_one busy_time);
  }

  unfoldable pub parse_block : Text → SurveySample
  unfolding parse_field
  parse_block block =
      block_sample (parse_field block (chars "noise:"))
        (parse_field block (chars "channel active time:"))
        (parse_field block (chars "channel busy time:"))
        (parse_field block (chars "channel transmit time:"))

  abbrev sample_at : Text → Option (Option ℕ) → SurveySample
  sample_at output none = no_sample
  sample_at output (some none) = no_sample
  sample_at output (some (some start)) =
      parse_block (substr_to output start (find marker output (start + 1)))

  unfoldable pub parse_survey : Text → SurveySample
  unfolding no_sample parse_block find find_active_block
  parse_survey output = sample_at output (find_active_block output)

  -- `delta_tx`, where both samples report the time of transmission
  abbrev delta_tx : SurveySample → Previous → Real
  delta_tx sample prev =
      if le (milli 0) prev.tx_time && le (milli 0) sample.tx_time
      then sub sample.tx_time prev.tx_time
      else milli 0

  abbrev pub contention_active : SurveySample → Previous → Real
  contention_active sample prev =
      sub (sub sample.active_time prev.active_time) (delta_tx sample prev)

  abbrev pub contention_busy : SurveySample → Previous → Real
  contention_busy sample prev = sub (sub sample.busy_time prev.busy_time) (delta_tx sample prev)

  -- The new ratio, where the counters went on and the shares of the others make sense
  abbrev pub has_contention : SurveySample → Previous → Bool
  has_contention sample prev =
      (le (milli 0) prev.active_time && le prev.active_time sample.active_time)
      && (positive (contention_active sample prev) && le (milli 0) (contention_busy sample prev))

  unfoldable pub publish : SurveySample → Previous → Survey → Survey
  publish sample prev survey =
      if has_contention sample prev
      then record {
        busy_ratio = div (contention_busy sample prev) (contention_active sample prev);
        noise_dbm = sample.noise_dbm;
        has_data = true;
      }
      else record survey { noise_dbm = sample.noise_dbm }

  abbrev as_previous : SurveySample → Previous
  as_previous sample = record {
    active_time = sample.active_time;
    busy_time = sample.busy_time;
    tx_time = sample.tx_time;
  }

  -- A round of the loop, on the sample that was read
  unfoldable pub observe : SurveySample → Survey × Previous → Survey × Previous
  unfolding publish
  observe sample (survey, prev) =
      if sample.valid then (publish sample prev survey, as_previous sample) else (survey, prev)

  module _ ⦃os : Os⦄ where
    open os use {World, exists, popen}

    unfoldable pub is_wifi : Text → World → Bool
    is_wifi iface w = exists (chars "/sys/class/net/" ++ (iface ++ chars "/phy80211")) w

    abbrev printed_sample : Option Text → SurveySample
    printed_sample none = no_sample
    printed_sample (some output) = parse_survey output

    unfoldable pub read_active_channel_survey : Text → Act SurveySample
    unfolding no_sample parse_survey
    read_active_channel_survey iface = do
      printed ← with_result (popen (chars "iw dev " ++ (iface ++ chars " survey dump 2>/dev/null")))
      pure (printed_sample printed)

    -- A round of `monitor_loop`
    unfoldable pub monitor_round : Text → Survey × Previous → Act (Survey × Previous)
    unfolding read_active_channel_survey observe
    monitor_round iface state = do
      sample ← read_active_channel_survey iface
      pure (observe sample state)
