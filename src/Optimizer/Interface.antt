-- ===== src/Optimizer/Interface.antt =====
-- The other settings of the interface: its queue, the control groups, the power saving of its
-- radio, and the name servers. The messages on stderr are left out.
use betterconn.Prelude.{
  Bool, true, false, not, Option, none, some, List, [], ◌∷◌, ◌++◌, Text, take, if◌then◌else◌,
}
use betterconn.Prelude.{text_eq}
use betterconn.Io.{◌>>=◌, ◌>>◌, pure, Done, when}
use betterconn.Optimizer.Nic.{load_or}
use betterconn.Os.{Os, Act, ask, change, with_result, run, succeeds, write, write_quietly}
use betterconn.PriorityScheduler.Groups.{apply_cgroup_hierarchy, revert_cgroup_hierarchy}
use betterconn.Storage.{save, load, saved, remove_file}
use betterconn.Text.{chars, contains, is_empty}
use betterconn.Text.Lines.{lines, first_line, words}

-- One line of the route table: the interface, if the destination is the default route
unfoldable pub default_route : List Text → Option Text
default_route [] = none
default_route (iface ∷ []) = none
default_route (iface ∷ dest ∷ rest) = if text_eq dest (chars "00000000") then some iface else none

unfoldable pub first_default : List Text → Text
unfolding default_route words
first_default [] = []
first_default (line ∷ rest) = elim (default_route (words line)) [
  | none ↦ first_default rest
  | some iface ↦ iface
]

abbrev pub without_heading : List Text → List Text
without_heading [] = []
without_heading (heading ∷ rest) = rest

-- "off" in the first chunk of 63 bytes or less that `fgets` reads
abbrev power_mode : Option Text → Text
power_mode none = chars "on"
power_mode (some output) =
    if contains (chars "off") (take 63 (first_line output)) then chars "off" else chars "on"

abbrev pub network_manager_file : Text
network_manager_file = chars "/etc/NetworkManager/conf.d/betterconn.conf"

abbrev pub resolved_file : Text
resolved_file = chars "/etc/systemd/resolved.conf.d/betterconn.conf"

abbrev pub cake_command : Text → Text
cake_command iface =
    chars "tc qdisc replace dev "
    ++ (iface ++ chars " root cake diffserv4 triple-isolate 2>/dev/null")

abbrev pub fq_codel_command : Text → Text
fq_codel_command iface =
    chars "tc qdisc replace dev "
    ++ (iface ++ chars " root fq_codel target 5ms interval 100ms 2>/dev/null")

unfoldable pub resolved_config : Text
resolved_config =
    chars "[Resolve]\nDNS=1.1.1.1 1.0.0.1 8.8.8.8 8.8.4.4\nCache=yes\nDNSStubListener=yes\n"
    ++ chars "DNSSEC=no\nDNSOverTLS=no\n"

module _ ⦃os : Os⦄ where
  open os use {World, read_file, exists, remove, make_dirs, popen}

  unfoldable pub detect_interface : World → Text
  unfolding first_default lines
  detect_interface w = elim (read_file (chars "/proc/net/route") w) [
    | none ↦ []
    | some content ↦ first_default (without_heading (lines content))
  ]

  unfoldable pub is_wifi : Text → World → Bool
  is_wifi iface w = exists (chars "/sys/class/net/" ++ (iface ++ chars "/phy80211")) w

  unfoldable pub apply_interface_qdisc : Text → Act Done
  unfolding save
  apply_interface_qdisc iface = when (not (is_empty iface)) (do
    cake ← succeeds (cake_command iface)
    done ← (if cake then pure true else succeeds (fq_codel_command iface))
    when done (save (chars "tc_iface") iface))

  unfoldable pub revert_interface_qdisc : Text → Act Done
  unfolding remove_file
  revert_interface_qdisc iface = when (not (is_empty iface)) (do
    run (chars "tc qdisc del dev " ++ (iface ++ chars " root 2>/dev/null"))
    remove_file (chars "tc_iface"))

  unfoldable pub apply_focus_priority : Text → Act Done
  unfolding apply_cgroup_hierarchy save
  apply_focus_priority iface =
      when (not (is_empty iface))
        (do apply_cgroup_hierarchy; save (chars "focus_priority_iface") iface)

  unfoldable pub revert_focus_priority : Text → Act Done
  unfolding revert_cgroup_hierarchy remove_file
  revert_focus_priority iface =
      when (not (is_empty iface))
        (do revert_cgroup_hierarchy; remove_file (chars "focus_priority_iface"))

  unfoldable pub reload_network_manager : Text → Act Done
  reload_network_manager iface = do
    run (chars "nmcli general reload 2>/dev/null")
    run (chars "nmcli device reapply " ++ (iface ++ chars " 2>/dev/null"))

  unfoldable pub apply_wifi_latency : Text → Act Done
  unfolding is_wifi save contains first_line reload_network_manager
  apply_wifi_latency iface = do
    wifi ← ask (is_wifi iface)
    when (if is_empty iface then false else wifi) (do
      printed ←
          with_result (popen (chars "iw dev " ++ (iface ++ chars " get power_save 2>/dev/null")))
      save (chars "wifi_pm_original") (power_mode printed)
      save (chars "wifi_pm_iface") iface
      run (chars "iw dev " ++ (iface ++ chars " set power_save off 2>/dev/null"))
      made ← with_result (make_dirs (chars "/etc/NetworkManager/conf.d"))
      write_quietly network_manager_file (chars "[connection]\nwifi.powersave = 2\n")
      reload_network_manager iface)

  unfoldable pub revert_wifi_latency : Act Done
  unfolding saved load load_or remove_file reload_network_manager
  revert_wifi_latency = do
    present ← ask (saved (chars "wifi_pm_iface"))
    when present (do
      iface ← load (chars "wifi_pm_iface")
      pm ← load_or (chars "wifi_pm_original") (chars "on")
      run (chars "iw dev " ++ (iface ++ (chars " set power_save " ++ (pm ++ chars " 2>/dev/null"))))
      remove_file (chars "wifi_pm_original")
      remove_file (chars "wifi_pm_iface")
      change (remove network_manager_file)
      reload_network_manager iface)

  unfoldable pub apply_dns : Act Done
  unfolding resolved_config
  apply_dns = do
    active ← succeeds (chars "systemctl is-active --quiet systemd-resolved 2>/dev/null")
    when active (do
      made ← with_result (make_dirs (chars "/etc/systemd/resolved.conf.d"))
      opened ← write resolved_file resolved_config
      when opened (run (chars "systemctl restart systemd-resolved 2>/dev/null")))

  unfoldable pub revert_dns : Act Done
  revert_dns = do
    change (remove resolved_file)
    run (chars "systemctl restart systemd-resolved 2>/dev/null")
