-- ===== src/ProfileSelector.antt =====
-- core/src/profile_selector.cpp: the latency profile of an interface.
use betterconn.Prelude.{Bool, ◌&&◌, Option, none, some, ◌++◌, Text, if◌then◌else◌}
use betterconn.Prelude.Int.{ℤ, pos, is_pos, minus_one, leb_ℤ}
use betterconn.Os.{Os}
use betterconn.Text.{chars, is_empty}
use betterconn.Text.Stream.{read_int}

pub data LatencyProfile : Type 0 where
  latency : LatencyProfile
  balanced : LatencyProfile
  throughput : LatencyProfile

-- `f >> speed`, with -1 for a failure
abbrev number_or_minus_one : Option (ℤ × Text) → ℤ
number_or_minus_one none = minus_one
number_or_minus_one (some (n, rest)) = n

unfoldable pub to_string : LatencyProfile → Text
to_string latency = chars "latency"
to_string balanced = chars "balanced"
to_string throughput = chars "throughput"

module _ ⦃os : Os⦄ where
  open os use {World, read_file, exists}

  unfoldable pub is_wifi : Text → World → Bool
  is_wifi iface w = exists (chars "/sys/class/net/" ++ (iface ++ chars "/phy80211")) w

  unfoldable pub read_link_speed_mbps : Text → World → ℤ
  unfolding read_int
  read_link_speed_mbps iface w =
      elim (read_file (chars "/sys/class/net/" ++ (iface ++ chars "/speed")) w) [
        | none ↦ minus_one
        | some content ↦ number_or_minus_one (read_int content)
      ]

  unfoldable pub select : Text → World → LatencyProfile
  unfolding is_wifi read_link_speed_mbps
  select iface w =
      if is_empty iface
      then balanced
      else if is_wifi iface w
      then balanced
      else if is_pos (read_link_speed_mbps iface w)
          && leb_ℤ (read_link_speed_mbps iface w) (pos 1000)
      then latency
      else balanced
