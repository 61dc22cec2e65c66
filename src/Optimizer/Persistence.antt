-- ===== src/Optimizer/Persistence.antt =====
-- The files that apply the tuning again at the next boot. The messages on stderr are left out.
use betterconn.Prelude.{Bool, List, [], ◌∷◌, ◌++◌, Text, if◌then◌else◌}
use betterconn.Prelude.Dict.{Dict}
use betterconn.Io.{◌>>=◌, ◌>>◌, Done, when}
use betterconn.Optimizer.{base_params}
use betterconn.Optimizer.Interface.{is_wifi}
use betterconn.Optimizer.Nic.{ethtool_coalesce_args}
use betterconn.Os.{Os, Act, ask, with_result, run, write, write_quietly}
use betterconn.PacketMarking.{idempotent_apply_commands}
use betterconn.PriorityScheduler.Groups.{cgroup_setup_commands}
use betterconn.ProfileSelector.{LatencyProfile}
use betterconn.SystemDefaults.{etc_dir}
use betterconn.Text.{chars, is_empty}

abbrev pub modules_file : Text
modules_file = chars "/etc/modules-load.d/betterconn.conf"

abbrev pub sysctl_file : Text
sysctl_file = chars "/etc/sysctl.d/99-betterconn.conf"

abbrev pub apply_script : Text
apply_script = chars "/etc/betterconn/iptables-apply.sh"

abbrev pub service_file : Text
service_file = chars "/etc/systemd/system/betterconn.service"

unfoldable pub modules_text : Text
modules_text = chars "tcp_bbr\nsch_cake\nxt_DSCP\nxt_cgroup\nxt_length\n"

unfoldable pub params_text : Dict Text Text → Text
params_text [] = []
params_text ((key, value) ∷ rest) = key ++ (chars " = " ++ (value ++ (b'\n' ∷ params_text rest)))

unfoldable pub service_text : Text
service_text =
    chars "[Unit]\nDescription=betterconn network optimizer\nAfter=network.target\n\n"
    ++ (chars "[Service]\nType=simple\nExecStartPre=/bin/sh /etc/betterconn/iptables-apply.sh\n"
        ++ (chars "ExecStart=/usr/bin/betterconn daemon\nRestart=on-failure\nRestartSec=5\n\n"
            ++ chars "[Install]\nWantedBy=multi-user.target\n"))

-- One command for each line
unfoldable pub command_lines : List Text → Text
command_lines [] = []
command_lines (command ∷ rest) = command ++ (b'\n' ∷ command_lines rest)

abbrev script_head : Text
script_head =
    chars "#!/bin/sh\nmodprobe xt_DSCP 2>/dev/null\nmodprobe xt_cgroup 2>/dev/null\n"
    ++ chars "modprobe xt_length 2>/dev/null\nmodprobe sch_cake 2>/dev/null\n"

abbrev coalesce_line : Text → LatencyProfile → Text
coalesce_line iface profile =
    chars "ethtool -C "
    ++ (iface ++ (b' ' ∷ (ethtool_coalesce_args profile ++ chars " 2>/dev/null || true\n")))

abbrev qdisc_line : Text → Text
qdisc_line iface =
    chars "tc qdisc replace dev "
    ++ (iface
        ++ (chars " root cake diffserv4 triple-isolate 2>/dev/null || tc qdisc replace dev "
            ++ (iface ++ chars " root fq_codel target 5ms interval 100ms 2>/dev/null || true\n")))

abbrev power_save_line : Text → Text
power_save_line iface =
    chars "iw dev " ++ (iface ++ chars " set power_save off 2>/dev/null || true\n")

-- The lines of the script about the interface
unfoldable pub iface_lines : Text → LatencyProfile → Bool → Text
unfolding ethtool_coalesce_args
iface_lines iface profile wifi =
    if is_empty iface
    then []
    else coalesce_line iface profile
      ++ (qdisc_line iface ++ (if wifi then power_save_line iface else []))

unfoldable pub script_text : List Text → List Text → Text → Text
unfolding command_lines
script_text groups rules about_iface =
    script_head ++ (command_lines groups ++ (command_lines rules ++ about_iface))

module _ ⦃os : Os⦄ where
  open os use {World, make_dirs}

  -- The script is open, and empty, while its commands are collected.
  unfoldable pub write_script : Text → LatencyProfile → Act Done
  unfolding idempotent_apply_commands is_wifi iface_lines script_text cgroup_setup_commands
  write_script iface profile = do
    opened ← write apply_script []
    when opened (do
      rules ← idempotent_apply_commands
      wifi ← ask (is_wifi iface)
      write_quietly apply_script
          (script_text cgroup_setup_commands rules (iface_lines iface profile wifi)))

  unfoldable pub write_persistence : Text → LatencyProfile → Act Done
  unfolding modules_text params_text base_params write_script service_text
  write_persistence iface profile = do
    made ← with_result (make_dirs etc_dir)
    write_quietly modules_file modules_text
    write_quietly sysctl_file (params_text base_params)
    write_script iface profile
    run (chars "chmod 755 /etc/betterconn/iptables-apply.sh 2>/dev/null")
    write_quietly service_file service_text
    run (chars "systemctl daemon-reload 2>/dev/null")
    run (chars "systemctl enable betterconn.service 2>/dev/null")
