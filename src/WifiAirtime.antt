-- ===== src/WifiAirtime.antt =====
-- core/src/wifi_airtime.cpp: the limits on the frames that a radio holds, tightened and put back.
pub mod Limits
pub mod RoundTrip
pub mod Baseline
use betterconn.Prelude.{
  ℕ, Bool, true, false, not, ◌||◌, Option, none, some, List, [], ◌∷◌, ◌++◌, Text, ◌==◌,
  if◌then◌else◌,
}
use betterconn.Io.{◌>>=◌, ◌>>◌, pure, skip, Done, for_each, when}
use betterconn.Os.{Os, Act, ask, change, run, write, write_quietly}
use betterconn.Storage.{save, load, saved, remove_file}
use betterconn.Text.{chars, is_empty}
use betterconn.Text.Decimal.{to_string}
use betterconn.Text.Lines.{first_line}
use betterconn.WifiAirtime.Limits.{
  AirtimeQueueLimit, tightened_limits, queue_limits, limit_value, serialize_limits,
  deserialize_limits,
}

-- `kTightenedThresholdUs`
abbrev pub tightened_threshold_us : ℕ
tightened_threshold_us = 8000

abbrev first_line_found : Option Text → Text
first_line_found none = []
first_line_found (some content) = first_line content

-- `while (!name.empty() && (name.back() == …)) name.pop_back()`
abbrev is_trailing : ℕ → Bool
is_trailing c = c == b'\n' || c == b'\r' || c == b' '

unfoldable pub trim_back : Text → Text
trim_back [] = []
trim_back (c ∷ s) =
    let rest = trim_back s in
    if is_trailing c then (if is_empty rest then [] else c ∷ rest) else c ∷ rest

unfoldable pub phy_debugfs_path : Text → Text
phy_debugfs_path phy = chars "/sys/kernel/debug/ieee80211/" ++ phy

abbrev pub limit_file : Text → Text
limit_file phy_path = phy_path ++ chars "/aql_txq_limit"

abbrev pub threshold_file : Text → Text
threshold_file phy_path = phy_path ++ chars "/aql_threshold"

abbrev pub mount_command : Text
mount_command = chars "mount -t debugfs none /sys/kernel/debug 2>/dev/null"

module _ ⦃os : Os⦄ where
  open os use {World, read_file, exists}

  unfoldable pub read_first_line : Text → World → Text
  unfolding first_line
  read_first_line path w = first_line_found (read_file path w)

  unfoldable pub write_line : Text → Text → Act Bool
  write_line path value = write path value

  unfoldable pub phy_name_for : Text → World → Text
  unfolding read_first_line trim_back
  phy_name_for iface w =
      if is_empty iface
      then []
      else trim_back
          (read_first_line (chars "/sys/class/net/" ++ (iface ++ chars "/phy80211/name")) w)

  unfoldable pub debugfs_available : World → Bool
  debugfs_available w = exists (chars "/sys/kernel/debug/ieee80211") w

  unfoldable pub read_queue_limits : Text → World → List AirtimeQueueLimit
  unfolding queue_limits
  read_queue_limits phy_path w = elim (read_file (limit_file phy_path) w) [
    | none ↦ []
    | some content ↦ queue_limits content
  ]

  unfoldable pub write_queue_limit : Text → AirtimeQueueLimit → Act Done
  unfolding write_line
  write_queue_limit phy_path limit = do
    written ← write_line (limit_file phy_path) (limit_value limit)
    skip

  -- The baseline, saved unless there is one: whether `apply` goes on.
  unfoldable pub save_baseline : Text → Text → Act Bool
  unfolding save saved read_queue_limits read_first_line
  save_baseline phy phy_path = do
    present ← ask (saved (chars "aql_saved_limits"))
    if present then pure true else (do
      current ← ask (read_queue_limits phy_path)
      if is_empty current then pure false else (do
        save (chars "aql_saved_limits") (serialize_limits current)
        save (chars "aql_phy") phy
        threshold ← ask (read_first_line (threshold_file phy_path))
        when (not (is_empty threshold)) (save (chars "aql_saved_threshold") threshold)
        pure true))

  unfoldable pub tighten : Text → Act Done
  unfolding for_each write_queue_limit write_line tightened_limits
  tighten phy_path = do
    for_each tightened_limits (write_queue_limit phy_path)
    written ← write_line (threshold_file phy_path) (to_string tightened_threshold_us)
    skip

  -- `apply` once the file system for debugging is there
  unfoldable pub apply_to_phy : Text → Act Done
  unfolding save_baseline tighten
  apply_to_phy phy = do
    known ← ask (exists (limit_file (phy_debugfs_path phy)))
    when known (do
      goes_on ← save_baseline phy (phy_debugfs_path phy)
      when goes_on (tighten (phy_debugfs_path phy)))

  unfoldable pub mount_debugfs : Act Done
  unfolding debugfs_available
  mount_debugfs = do available ← ask debugfs_available; when (not available) (run mount_command)

  unfoldable pub apply : Text → Act Done
  unfolding mount_debugfs apply_to_phy phy_name_for
  apply iface = do
    phy ← ask (phy_name_for iface)
    when (not (is_empty phy))
        (do mount_debugfs; available ← ask debugfs_available; when available (apply_to_phy phy))

  unfoldable pub revert_limits : Text → Act Done
  unfolding for_each write_queue_limit
  revert_limits phy_path = do
    present ← ask (saved (chars "aql_saved_limits"))
    when present (do
      raw ← load (chars "aql_saved_limits")
      for_each (deserialize_limits raw) (write_queue_limit phy_path)
      remove_file (chars "aql_saved_limits"))

  unfoldable pub revert_threshold : Text → Act Done
  unfolding write_line
  revert_threshold phy_path = do
    present ← ask (saved (chars "aql_saved_threshold"))
    when present (do
      threshold ← load (chars "aql_saved_threshold")
      written ← write_line (threshold_file phy_path) threshold
      remove_file (chars "aql_saved_threshold"))

  unfoldable pub revert : Act Done
  unfolding revert_limits revert_threshold
  revert = do
    present ← ask (saved (chars "aql_phy"))
    when present (do
      phy ← load (chars "aql_phy")
      revert_limits (phy_debugfs_path phy)
      revert_threshold (phy_debugfs_path phy)
      remove_file (chars "aql_phy"))
