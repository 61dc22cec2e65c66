-- ===== src/Optimizer/Lifecycle.antt =====
-- `apply`, `revert` and `is_active`, which put the parts of the optimizer together. The messages on
-- stderr are left out.
pub mod Errors
pub mod Active
pub mod Boot
use betterconn.Prelude.{
  ◌&&◌, ◌||◌, Bool, true, false, not, Option, none, some, List, [], ◌∷◌, Text, text_eq,
  if◌then◌else◌,
}
use betterconn.Prelude.Dict.{Dict}
use betterconn.Io.{◌>>=◌, ◌>>◌, pure, raise, skip, Done, for_each, when}
use betterconn.IrqAffinity as IrqAffinity
use betterconn.Optimizer.{base_params, save_backup, restore_backup, write_sysctl}
use betterconn.Optimizer.Interface.{
  detect_interface, apply_interface_qdisc, revert_interface_qdisc, apply_focus_priority,
  revert_focus_priority, apply_wifi_latency, revert_wifi_latency, apply_dns, revert_dns,
}
use betterconn.Optimizer.Nic.{apply_nic_tuning, revert_nic_tuning}
use betterconn.Optimizer.Persistence.{write_persistence}
use betterconn.Os.{Os, Act, ask, run}
use betterconn.PacketMarking as PacketMarking
use betterconn.PriorityScheduler.Groups.{revert_cgroup_hierarchy}
use betterconn.ProfileSelector.{select, to_string}
use betterconn.Storage.{save, load, saved, remove_file}
use betterconn.SystemDefaults.{
  persistence_present, remove_persistence, restore_kernel_sysctl_defaults,
  reload_configured_sysctls,
}
use betterconn.Text.{chars, contains, is_empty}
use betterconn.Text.Lines.{first_line}
use betterconn.WifiAirtime as WifiAirtime

abbrev congestion_control : Text
congestion_control = chars "net.ipv4.tcp_congestion_control"

abbrev available_file : Text
available_file = chars "/proc/sys/net/ipv4/tcp_available_congestion_control"

abbrev offers_bbr : Option Text → Bool
offers_bbr none = false
offers_bbr (some content) = contains (chars "bbr") (first_line content)

module _ ⦃os : Os⦄ where
  open os use {World, read_file}

  unfoldable pub is_active : Act Bool
  unfolding saved load
  is_active = do
    backup ← ask (saved (chars "sysctl_backup"))
    if backup then pure true else (do
      known ← ask (saved (chars "state"))
      if known
          then (do state ← load (chars "state"); pure (text_eq state (chars "active")))
          else pure false)

  unfoldable pub restore_pristine_baseline : Act Done
  unfolding persistence_present PacketMarking.revert revert_cgroup_hierarchy remove_persistence
      restore_kernel_sysctl_defaults reload_configured_sysctls
  restore_pristine_baseline = do
    present ← persistence_present
    when present (do
      PacketMarking.revert
      revert_cgroup_hierarchy
      remove_persistence
      restore_kernel_sysctl_defaults
      reload_configured_sysctls)

  unfoldable pub load_kernel_modules : Act Done
  unfolding PacketMarking.load_required_modules
  load_kernel_modules = do
    run (chars "modprobe tcp_bbr 2>/dev/null")
    run (chars "modprobe sch_cake 2>/dev/null")
    PacketMarking.load_required_modules

  unfoldable pub bbr_available : World → Bool
  unfolding contains first_line
  bbr_available w = offers_bbr (read_file available_file w)

  -- The loop over the table in `apply`
  unfoldable pub write_params : Bool → Dict Text Text → Act Done
  unfolding write_sysctl for_each
  write_params bbr params = for_each params (λ (key, value).
      when (not (not bbr && text_eq key congestion_control))
        (do written ← write_sysctl key value; skip))

  -- `apply`, behind its guard
  unfoldable pub tune : Text → Act Done
  unfolding restore_pristine_baseline detect_interface select load_kernel_modules bbr_available
      save_backup write_params apply_focus_priority apply_interface_qdisc apply_wifi_latency
      WifiAirtime.apply apply_nic_tuning IrqAffinity.apply write_persistence PacketMarking.apply
      apply_dns save to_string
  tune forced_iface = do
    restore_pristine_baseline
    found ← ask detect_interface
    let iface = if is_empty forced_iface then found else forced_iface
    profile ← ask (select iface)
    load_kernel_modules
    bbr ← ask bbr_available
    save_backup
    write_params bbr base_params
    apply_focus_priority iface
    apply_interface_qdisc iface
    apply_wifi_latency iface
    WifiAirtime.apply iface
    apply_nic_tuning iface profile
    IrqAffinity.apply iface
    write_persistence iface profile
    failures ← PacketMarking.apply
    apply_dns
    save (chars "iface") iface
    save (chars "profile") (to_string profile)
    save (chars "state") (chars "active")

  unfoldable pub apply : Text → Act Done
  unfolding is_active tune
  apply forced_iface = do
    active ← is_active
    if active
        then raise (chars "betterconn is already active, run stop first")
        else tune forced_iface

  -- `revert`, behind its guards
  unfoldable pub untune : Act Done
  unfolding remove_persistence restore_backup PacketMarking.revert saved load revert_focus_priority
      revert_interface_qdisc WifiAirtime.revert IrqAffinity.revert revert_wifi_latency
      revert_nic_tuning revert_dns reload_configured_sysctls save remove_file
  untune = do
    run (chars "systemctl stop betterconn.service 2>/dev/null")
    remove_persistence
    restore_backup
    PacketMarking.revert
    focus ← ask (saved (chars "focus_priority_iface"))
    when focus (do iface ← load (chars "focus_priority_iface"); revert_focus_priority iface)
    qdisc ← ask (saved (chars "tc_iface"))
    when qdisc (do iface ← load (chars "tc_iface"); revert_interface_qdisc iface)
    WifiAirtime.revert
    IrqAffinity.revert
    revert_wifi_latency
    revert_nic_tuning
    revert_dns
    reload_configured_sysctls
    save (chars "state") (chars "inactive")
    remove_file (chars "sysctl_backup")
    remove_file (chars "profile")
    remove_file (chars "iface")

  unfoldable pub revert : Act Done
  unfolding is_active saved untune
  revert = do
    active ← is_active
    if active
        then (do
          backup ← ask (saved (chars "sysctl_backup"))
          if backup then untune else raise (chars "sysctl backup not found, cannot revert safely"))
        else raise (chars "betterconn is not active")
