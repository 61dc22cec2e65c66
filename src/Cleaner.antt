-- ===== src/Cleaner.antt =====
-- core/src/cleaner.cpp: the removal of everything that the program leaves on the machine. Its
-- messages are left out.
use betterconn.Prelude.{Bool, false, not, if◌then◌else◌}
use betterconn.Io.{◌>>=◌, ◌>>◌, pure, Done, when}
use betterconn.Os.{Os, Act, change, run}
use betterconn.PacketMarking as PacketMarking
use betterconn.PriorityScheduler.Groups.{revert_cgroup_hierarchy}
use betterconn.Storage.{dir, test_saved}
use betterconn.SystemDefaults.{
  persistence_present, remove_persistence, restore_kernel_sysctl_defaults,
  reload_configured_sysctls, unload_optimizer_modules, regenerate_initramfs,
}
use betterconn.Text.{chars}

module _ ⦃os : Os⦄ where
  open os use {World, remove_all}

  -- Files of the program with no backup: the kernel still has the tuned values.
  unfoldable pub orphaned_tuning : Act Bool
  unfolding persistence_present test_saved
  orphaned_tuning = do
    present ← persistence_present
    if present then (do kept ← test_saved (chars "sysctl_backup"); pure (not kept)) else pure false

  unfoldable pub clean : Act Done
  unfolding orphaned_tuning PacketMarking.revert revert_cgroup_hierarchy remove_persistence
      restore_kernel_sysctl_defaults reload_configured_sysctls unload_optimizer_modules
      regenerate_initramfs dir
  clean = do
    orphaned ← orphaned_tuning
    run (chars "pkill -TERM -f 'betterconn daemon' 2>/dev/null")
    PacketMarking.revert
    revert_cgroup_hierarchy
    remove_persistence
    when orphaned restore_kernel_sysctl_defaults
    reload_configured_sysctls
    run (chars "nmcli general reload 2>/dev/null")
    run (chars "systemctl restart systemd-resolved 2>/dev/null")
    unload_optimizer_modules
    regenerate_initramfs
    change (remove_all dir)
