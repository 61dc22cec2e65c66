-- ===== src/SystemDefaults.antt =====
-- core/src/system_defaults.cpp: the values of the kernel and the files that the removal of the
-- program restores.
use betterconn.Prelude.{
  false, ℕ, String, Bool, true, List, [], ◌∷◌, ◌++◌, Text, ◌==◌, if◌then◌else◌, map,
}
use betterconn.Prelude.Dict.{Dict}
use betterconn.Io.{◌>>=◌, ◌>>◌, pure, skip, Done, for_each, when}
use betterconn.Os.{Os, Act, change, run, succeeds, test_exists, write_quietly}
use betterconn.Text.{chars}

-- `kBetterconnEtcDir`
abbrev pub etc_dir : Text
etc_dir = chars "/etc/betterconn"

-- `kOptimizerModules`
abbrev pub optimizer_modules : List Text
optimizer_modules =
    chars "xt_DSCP"
    ∷ chars "xt_cgroup"
    ∷ chars "xt_length"
    ∷ chars "sch_cake"
    ∷ chars "tcp_bbr"
    ∷ []

unfoldable pub persistence_paths : List Text
persistence_paths =
    chars "/etc/systemd/system/betterconn.service"
    ∷ chars "/etc/sysctl.d/99-betterconn.conf"
    ∷ chars "/etc/modules-load.d/betterconn.conf"
    ∷ chars "/etc/NetworkManager/conf.d/betterconn.conf"
    ∷ chars "/etc/systemd/resolved.conf.d/betterconn.conf"
    ∷ []

-- `SysctlDefault`, a key with its value
abbrev entry : String → String → Text × Text
entry key value = (chars key, chars value)

unfoldable pub kernel_defaults : Dict Text Text
kernel_defaults =
    entry "net.core.default_qdisc" "pfifo_fast"
    ∷ entry "net.ipv4.tcp_congestion_control" "cubic"
    ∷ entry "net.core.rmem_max" "212992"
    ∷ entry "net.core.wmem_max" "212992"
    ∷ entry "net.core.rmem_default" "212992"
    ∷ entry "net.core.wmem_default" "212992"
    ∷ entry "net.ipv4.tcp_rmem" "4096 131072 6291456"
    ∷ entry "net.ipv4.tcp_wmem" "4096 16384 4194304"
    ∷ entry "net.ipv4.udp_rmem_min" "4096"
    ∷ entry "net.ipv4.udp_wmem_min" "4096"
    ∷ entry "net.core.netdev_max_backlog" "1000"
    ∷ entry "net.core.netdev_budget" "300"
    ∷ entry "net.core.netdev_budget_usecs" "2000"
    ∷ entry "net.ipv4.tcp_fastopen" "1"
    ∷ entry "net.ipv4.tcp_window_scaling" "1"
    ∷ entry "net.ipv4.tcp_timestamps" "1"
    ∷ entry "net.ipv4.tcp_sack" "1"
    ∷ entry "net.ipv4.tcp_ecn" "2"
    ∷ entry "net.ipv4.tcp_fin_timeout" "60"
    ∷ entry "net.ipv4.tcp_tw_reuse" "2"
    ∷ entry "net.ipv4.tcp_autocorking" "1"
    ∷ entry "net.ipv4.tcp_notsent_lowat" "4294967295"
    ∷ entry "net.ipv4.tcp_slow_start_after_idle" "1"
    ∷ entry "net.ipv4.tcp_mtu_probing" "0"
    ∷ entry "net.ipv4.ip_local_port_range" "32768 60999"
    ∷ entry "net.ipv4.tcp_rto_min_us" "200000"
    ∷ entry "net.ipv4.tcp_keepalive_time" "7200"
    ∷ entry "net.ipv4.tcp_keepalive_intvl" "75"
    ∷ entry "net.ipv4.tcp_keepalive_probes" "9"
    ∷ entry "net.ipv4.tcp_moderate_rcvbuf" "1"
    ∷ entry "net.ipv4.tcp_recovery" "1"
    ∷ entry "net.ipv4.tcp_frto" "2"
    ∷ entry "net.ipv4.tcp_thin_linear_timeouts" "0"
    ∷ entry "net.ipv4.tcp_no_metrics_save" "0"
    ∷ []

abbrev slash_for_dot : ℕ → ℕ
slash_for_dot c = if c == b'.' then b'/' else c

unfoldable pub sysctl_path : Text → Text
sysctl_path key = chars "/proc/sys/" ++ map slash_for_dot key

module _ ⦃os : Os⦄ where
  open os use {World, exists, remove, remove_all}

  unfoldable pub any_exists : List Text → Act Bool
  any_exists [] = pure false
  any_exists (path ∷ rest) =
      let later = any_exists rest in
      do present ← test_exists path; if present then pure true else later

  unfoldable pub persistence_present : Act Bool
  unfolding persistence_paths any_exists
  persistence_present = do
    present ← any_exists persistence_paths
    if present then pure true else test_exists etc_dir

  unfoldable pub remove_persistence : Act Done
  unfolding for_each persistence_paths
  remove_persistence = do
    run (chars "systemctl stop betterconn.service 2>/dev/null")
    run (chars "systemctl disable betterconn.service 2>/dev/null")
    run (chars "systemctl reset-failed betterconn.service 2>/dev/null")
    for_each persistence_paths (λ path. change (remove path))
    change (remove_all etc_dir)
    run (chars "systemctl daemon-reload 2>/dev/null")

  unfoldable pub write_sysctl : Text → Text → Act Done
  unfolding sysctl_path
  write_sysctl key value = write_quietly (sysctl_path key) (value ++ b'\n' ∷ [])

  unfoldable pub restore_kernel_sysctl_defaults : Act Done
  unfolding write_sysctl for_each kernel_defaults
  restore_kernel_sysctl_defaults = for_each kernel_defaults (λ (key, value). write_sysctl key value)

  unfoldable pub command_available : Text → Act Bool
  command_available command =
      succeeds (chars "command -v " ++ (command ++ chars " >/dev/null 2>&1"))

  unfoldable pub reload_configured_sysctls : Act Done
  unfolding command_available
  reload_configured_sysctls = do
    restarted ← succeeds (chars "systemctl restart systemd-sysctl 2>/dev/null")
    if restarted then skip else (do
      available ← command_available (chars "sysctl")
      when available (run (chars "sysctl --system >/dev/null 2>&1")))

  unfoldable pub unload_optimizer_modules : Act Done
  unfolding for_each
  unload_optimizer_modules =
      for_each optimizer_modules
        (λ name. run (chars "modprobe -r " ++ (name ++ chars " 2>/dev/null")))

  unfoldable pub regenerate_initramfs : Act Done
  unfolding command_available
  regenerate_initramfs = do
    debian ← command_available (chars "update-initramfs")
    if debian then run (chars "update-initramfs -u >/dev/null 2>&1") else (do
      fedora ← command_available (chars "dracut")
      when fedora (run (chars "dracut --force >/dev/null 2>&1")))
