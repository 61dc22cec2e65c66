-- ===== src/Optimizer/Lifecycle/Boot/Files.antt =====
-- What `revert` leaves of the files that apply the tuning at the next boot.
use betterconn.Prelude.{
  refl, Bool, ◌||◌, ◌≡◌, sym, subst, true, not, List, [], ◌∷◌, ◌++◌, Text, Text_eq, text_eq, arith,
  if◌then◌else◌, Bool-cases, inl, inr,
}
use betterconn.Prelude.Dict.{member}
use betterconn.Io.{Done, ◌>>=◌, ◌>>◌, for_each, when}
use betterconn.Io.Keeps.{
  Keeps, keeps_rules, Keeps-pure, Keeps-bind, Keeps-when, Keeps-if, Keeps-for_each,
}
use betterconn.IrqAffinity as IrqAffinity
use betterconn.IrqAffinity.{
  put_back, revert_irq, revert_rps_xps_fallback, restore_irqbalance, affinity_file, queues_path,
  previous_key,
}
use betterconn.Optimizer.{restore_backup}
use betterconn.Optimizer.Interface.{
  revert_focus_priority, revert_interface_qdisc, revert_wifi_latency, revert_dns,
  reload_network_manager,
}
use betterconn.Optimizer.Lifecycle.{revert, untune, is_active}
use betterconn.Optimizer.Lifecycle.Boot.{
  Gone, StaysGone, ask-Stays, run-Stays, succeeds-Stays, remove-Stays, load-Stays,
  remove_file-Stays, save-Stays, restore_backup-Stays, packet_revert-Stays, cgroup_revert-Stays,
  reload-Stays,
}
use betterconn.Optimizer.Lifecycle.Boot.Writes.{airtime-Stays, irq-Stays}
use betterconn.Optimizer.Nic.{
  revert_nic_tuning, restore_coalescing, forget_coalescing, load_or, with_counters,
}
use betterconn.Os.{Os, Act, ask, change, run}
use betterconn.PacketMarking as PacketMarking
use betterconn.PriorityScheduler.Groups.{revert_cgroup_hierarchy}
use betterconn.Storage.{save, load, saved, remove_file}
use betterconn.SystemDefaults.{
  reload_configured_sysctls, etc_dir, remove_persistence, persistence_paths,
}
use betterconn.Text.{chars, is_empty, starts_with}
use betterconn.WifiAirtime as WifiAirtime
use betterconn.WifiAirtime.{
  write_queue_limit, write_line, revert_limits, revert_threshold, phy_debugfs_path, limit_file,
  threshold_file,
}

-- The unit and the configuration that the services read at the next boot
abbrev boot_files : List Text
boot_files =
    chars "/etc/systemd/system/betterconn.service"
    ∷ chars "/etc/sysctl.d/99-betterconn.conf"
    ∷ chars "/etc/modules-load.d/betterconn.conf"
    ∷ chars "/etc/NetworkManager/conf.d/betterconn.conf"
    ∷ chars "/etc/systemd/resolved.conf.d/betterconn.conf"
    ∷ []

-- One of these files, or one of the program's own directory
abbrev pub is_boot_file : Text → Bool
is_boot_file path = member path boot_files || starts_with (chars "/etc/betterconn/") path

module _ ⦃os : Os⦄ (path : Text) (stays : StaysGone path) where
  open os use {World, remove, remove_all, read_file, write_file}

  abbrev Stays : {A : Type 0} → Act A → Type 0
  Stays m = Keeps (Gone path) m

  manager-Stays : (iface : Text) → Stays (reload_network_manager iface)
  unfolding reload_network_manager chars starts_with
  manager-Stays iface = search (keeps_rules, run-Stays path stays) depth 8

  load_or-Stays : (key otherwise : Text) → Stays (load_or key otherwise)
  unfolding load_or
  load_or-Stays key otherwise =
      search (keeps_rules, ask-Stays path stays, load-Stays path stays) depth 8

  wifi-Stays : Stays revert_wifi_latency
  unfolding revert_wifi_latency chars starts_with
  wifi-Stays =
      search
        (
          keeps_rules,
          ask-Stays path stays,
          load-Stays path stays,
          load_or-Stays,
          run-Stays path stays,
          remove_file-Stays path stays,
          remove-Stays path stays,
          manager-Stays,
        )
        depth 16

  counters-Stays :
      (args : Text) (counters : List (Text × Text)) → Stays (with_counters args counters)
  unfolding with_counters
  counters-Stays args [] = Keeps-pure args
  counters-Stays args ((key, name) ∷ rest) =
      Keeps-bind (ask (saved key)) _ (ask-Stays path stays (saved key)) (λ present.
        Keeps-bind _ _ (Keeps-if present _ _ (load-Stays path stays key) (Keeps-pure [])) (λ value.
          counters-Stays
            (if is_empty value then args else args ++ (b' ' ∷ (name ++ (b' ' ∷ value)))) rest))

  coalescing-Stays : Stays restore_coalescing
  unfolding restore_coalescing chars starts_with
  coalescing-Stays =
      search
        (
          keeps_rules,
          load-Stays path stays,
          load_or-Stays,
          counters-Stays,
          succeeds-Stays path stays,
          run-Stays path stays,
        )
        depth 16

  forget-Stays : Stays forget_coalescing
  unfolding forget_coalescing
  forget-Stays = search (keeps_rules, remove_file-Stays path stays) depth 12

  nic-Stays : Stays revert_nic_tuning
  unfolding revert_nic_tuning chars starts_with
  nic-Stays =
      search
        (
          keeps_rules,
          ask-Stays path stays,
          succeeds-Stays path stays,
          coalescing-Stays,
          forget-Stays,
        )
        depth 12

  dns-Stays : Stays revert_dns
  unfolding revert_dns chars starts_with
  dns-Stays = search (keeps_rules, run-Stays path stays, remove-Stays path stays) depth 8

  focus-Stays : (iface : Text) → Stays (revert_focus_priority iface)
  unfolding revert_focus_priority
  focus-Stays iface = Keeps-when (not (is_empty iface)) _ (
      Keeps-bind revert_cgroup_hierarchy _ (cgroup_revert-Stays path stays)
        (λ done. remove_file-Stays path stays (chars "focus_priority_iface")))

  qdisc-Stays : (iface : Text) → Stays (revert_interface_qdisc iface)
  unfolding revert_interface_qdisc chars starts_with
  qdisc-Stays iface =
      search (keeps_rules, run-Stays path stays, remove_file-Stays path stays) depth 8

  backup-Stays : Stays restore_backup
  backup-Stays = restore_backup-Stays path stays

  limits-Stays : Stays WifiAirtime.revert
  limits-Stays = airtime-Stays path stays

  interrupts-Stays : Stays IrqAffinity.revert
  interrupts-Stays = irq-Stays path stays

  packets-Stays : Stays PacketMarking.revert
  packets-Stays = packet_revert-Stays path stays

  sysctls-Stays : Stays reload_configured_sysctls
  sysctls-Stays = reload-Stays path stays

  -- What `revert` does once the files are removed
  rest-Stays : Stays (do
    restore_backup
    PacketMarking.revert
    focus ← ask (saved (chars "focus_priority_iface"))
    when focus (do iface ← load (chars "focus_priority_iface"); revert_focus_priority iface)
    qdisc ← ask (saved (chars "tc_iface"))
    when qdisc (do iface ← load (chars "tc_iface"); revert_interface_qdisc iface)
    WifiAirtime.revert
    IrqAffinity.revert
    revert_wifi_latency
    revert_nic_tuning
    revert_dns
    reload_configured_sysctls
    save (chars "state") (chars "inactive")
    remove_file (chars "sysctl_backup")
    remove_file (chars "profile")
    remove_file (chars "iface"))
  rest-Stays =
      search
        (
          keeps_rules,
          ask-Stays path stays,
          load-Stays path stays,
          backup-Stays,
          packets-Stays,
          focus-Stays,
          qdisc-Stays,
          limits-Stays,
          interrupts-Stays,
          wifi-Stays,
          nic-Stays,
          dns-Stays,
          sysctls-Stays,
          save-Stays path stays,
          remove_file-Stays path stays,
        )
        depth 30

  removals-Stays : (paths : List Text) → Stays (for_each paths (λ other. change (remove other)))
  removals-Stays paths = Keeps-for_each paths _ (λ other. remove-Stays path stays other)

  -- Each file of the list is gone behind the removals.
  removals-Gone :
      (paths : List Text) (w : World)
      → member path paths ≡ true
      → Gone path (for_each paths (λ other. change (remove other)) w).1
  unfolding for_each
  removals-Gone [] w listed = absurd (ground arith)
  removals-Gone (other ∷ rest) w listed = elim (Bool-cases (text_eq other path)) [
    | inl same ↦
        (removals-Stays rest).at (remove other w)
          (rw ((Text_eq.beq_iff other path).0 same) (stays.removed w))
    | inr differs ↦ removals-Gone rest (remove other w) (ground arith)
  ]

  -- The removals of `remove_persistence`
  abbrev remove_all_files : Act Done
  remove_all_files = do
    for_each persistence_paths (λ other. change (remove other))
    change (remove_all etc_dir)

  removed-Gone : (w : World) → is_boot_file path ≡ true → Gone path (remove_all_files w).1
  unfolding for_each persistence_paths chars
  removed-Gone w boot = elim (Bool-cases (member path boot_files)) [
    | inl listed ↦ stays.by_remove_all etc_dir _ (removals-Gone persistence_paths w listed)
    | inr unlisted ↦
        let below : starts_with (chars "/etc/betterconn/") path ≡ true = ground arith in
        stays.removed_below etc_dir _ below
  ]

  remove_persistence-Gone :
      (w : World) → is_boot_file path ≡ true → Gone path (remove_persistence w).1
  unfolding remove_persistence for_each chars starts_with
  remove_persistence-Gone w boot =
      let stopped : World = (run (chars "systemctl stop betterconn.service 2>/dev/null") w).1 in
      let disabled : World =
        (run (chars "systemctl disable betterconn.service 2>/dev/null") stopped).1 in
      let reset : World =
        (run (chars "systemctl reset-failed betterconn.service 2>/dev/null") disabled).1 in
      stays.by_command (chars "systemctl daemon-reload 2>/dev/null") _ refl
        (removed-Gone reset boot)

  untune-Gone : (w : World) → is_boot_file path ≡ true → Gone path (untune w).1
  unfolding untune remove_persistence for_each
  untune-Gone w listed =
      let stopped : World = (run (chars "systemctl stop betterconn.service 2>/dev/null") w).1 in
      rest-Stays.at (remove_persistence stopped).1 (remove_persistence-Gone stopped listed)

  revert-untune : (w : World) → saved (chars "sysctl_backup") w ≡ true → revert w ≡ untune w
  unfolding revert is_active
  revert-untune w h = ground (arith)

  -- Once there is a backup, stopping the program leaves none of the files that apply the tuning at
  -- the next boot, nor anything under /etc/betterconn, whether it returns or throws on the way,
  -- provided that a file that is removed is gone, and that neither the tools that are called nor a
  -- write or a directory made outside of /etc bring it back.
  pub revert-Gone :
      (w : World)
      → is_boot_file path ≡ true
      → saved (chars "sysctl_backup") w ≡ true
      → Gone path (revert w).1
  revert-Gone w listed backup =
      subst (λ r. Gone path r.1) (sym (revert-untune w backup)) (untune-Gone w listed)
