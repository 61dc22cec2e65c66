-- ===== src/PriorityTier.antt =====
-- core/include/betterconn/priority_tier.hpp and core/src/priority_tier.cpp: the four tiers, the
-- control group and the DSCP value of each.
use betterconn.Prelude.{ℕ, Bool, List, [], ◌∷◌, Text, ◌==◌}
use betterconn.Text.{chars}

-- In the order of the enumeration, which `>` compares.
pub data PriorityTier : Type 0 where
  cold cool warm hot : PriorityTier

abbrev pub rank : PriorityTier → ℕ
rank PriorityTier.cold = 0
rank PriorityTier.cool = 1
rank PriorityTier.warm = 2
rank PriorityTier.hot = 3

abbrev pub tier_eq : PriorityTier → PriorityTier → Bool
tier_eq a b = rank a == rank b

-- `kPriorityCgroupBase`
unfoldable pub cgroup_base : Text
cgroup_base = chars "/sys/fs/cgroup/betterconn_priority"

-- `kPriorityCgroupRelativePath`
unfoldable pub cgroup_relative_path : Text
cgroup_relative_path = chars "betterconn_priority"

unfoldable pub tier_cgroup_name : PriorityTier → Text
tier_cgroup_name PriorityTier.hot = chars "hot"
tier_cgroup_name PriorityTier.warm = chars "warm"
tier_cgroup_name PriorityTier.cool = chars "cool"
tier_cgroup_name PriorityTier.cold = chars "cold"

unfoldable pub tier_dscp : PriorityTier → ℕ
tier_dscp PriorityTier.hot = 46
tier_dscp PriorityTier.warm = 32
tier_dscp PriorityTier.cool = 0
tier_dscp PriorityTier.cold = 8

-- `kAllTiers`
abbrev pub all_tiers : List PriorityTier
all_tiers = PriorityTier.hot ∷ PriorityTier.warm ∷ PriorityTier.cool ∷ PriorityTier.cold ∷ []
