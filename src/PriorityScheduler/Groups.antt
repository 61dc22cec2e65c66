-- ===== src/PriorityScheduler/Groups.antt =====
-- The control groups: made, emptied and removed, and a process moved into one.
use betterconn.Prelude.{Bool, false, none, some, List, [], ◌∷◌, ◌++◌, Text, map, if◌then◌else◌}
use betterconn.Prelude.Int.{ℤ, is_pos}
use betterconn.Io.{◌>>=◌, ◌>>◌, skip, Done, for_each, when}
use betterconn.Os.{Os, Act, ask, change, test_exists, with_result, write, write_quietly}
use betterconn.PriorityTier.{PriorityTier, cgroup_base, tier_cgroup_name, all_tiers}
use betterconn.Text.{chars}
use betterconn.Text.Decimal.{stoi, to_string_ℤ}
use betterconn.Text.Lines.{lines}

unfoldable pub tier_path_for : PriorityTier → Text
unfolding cgroup_base tier_cgroup_name
tier_path_for tier = cgroup_base ++ (b'/' ∷ tier_cgroup_name tier)

unfoldable pub setup_command : PriorityTier → Text
unfolding tier_path_for
setup_command tier = chars "mkdir -p " ++ (tier_path_for tier ++ chars " 2>/dev/null")

unfoldable pub cgroup_setup_commands : List Text
unfolding setup_command
cgroup_setup_commands = map setup_command all_tiers

-- The lines that are numbers, in `drain_tier_cgroup`
unfoldable pub listed_pids : List Text → List ℤ
unfolding stoi
listed_pids [] = []
listed_pids (line ∷ rest) = elim (stoi line) [
  | none ↦ listed_pids rest
  | some pid ↦ pid ∷ listed_pids rest
]

module _ ⦃os : Os⦄ where
  open os use {World, read_file, write_file, exists, make_dirs, remove_dir}

  unfoldable pub cgroup_v2_mounted : World → Bool
  cgroup_v2_mounted w = exists (chars "/sys/fs/cgroup/cgroup.controllers") w

  unfoldable pub apply_cgroup_hierarchy : Act Done
  unfolding cgroup_v2_mounted for_each
  apply_cgroup_hierarchy = do
    mounted ← ask cgroup_v2_mounted
    when mounted
        (for_each all_tiers λ tier. (do made ← with_result (make_dirs (tier_path_for tier)); skip))

  -- The root group is opened for each process, and the loop stops where that fails.
  unfoldable pub hand_back : List ℤ → Act Done
  hand_back [] = skip
  hand_back (pid ∷ rest) = do
    opened ← write (chars "/sys/fs/cgroup/cgroup.procs") (to_string_ℤ pid)
    when opened (hand_back rest)

  unfoldable pub drain_tier_cgroup : Text → Act Done
  unfolding hand_back listed_pids
  drain_tier_cgroup tier_path = do
    content ← ask (read_file (tier_path ++ chars "/cgroup.procs"))
    elim content [ none ↦ skip | some c ↦ hand_back (listed_pids (lines c)) ]

  unfoldable pub revert_tier : PriorityTier → Act Done
  unfolding drain_tier_cgroup
  revert_tier tier = do
    present ← test_exists (tier_path_for tier)
    when present
        (drain_tier_cgroup (tier_path_for tier) >> change (remove_dir (tier_path_for tier)))

  unfoldable pub revert_cgroup_hierarchy : Act Done
  unfolding revert_tier for_each
  revert_cgroup_hierarchy = for_each all_tiers revert_tier >> change (remove_dir cgroup_base)

  unfoldable pub move_pid_to_tier : ℤ → PriorityTier → Act Done
  move_pid_to_tier pid tier = do
    present ← ask (exists (tier_path_for tier))
    when (if is_pos pid then present else false)
        (write_quietly (tier_path_for tier ++ chars "/cgroup.procs") (to_string_ℤ pid))
