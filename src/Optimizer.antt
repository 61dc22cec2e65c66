-- ===== src/Optimizer.antt =====
-- core/src/optimizer.cpp: the table of kernel parameters, and the backup that is taken of
-- their values and restored.
pub mod Backup
pub mod Memory
pub mod Restore
pub mod Nic
pub mod Interface
pub mod Persistence
pub mod Lifecycle
use betterconn.Prelude.{
  ℕ, String, Bool, true, false, Option, none, some, List, [], ◌∷◌, ◌++◌, Text, length, take, drop,
  ◌+◌,
}
use betterconn.Prelude.Dict.{Dict}
use betterconn.Io.{◌>>=◌, ◌>>◌, skip, Done, for_each}
use betterconn.Os.{Os, Act, ask, write}
use betterconn.Storage.{save, load}
use betterconn.SystemDefaults.{sysctl_path}
use betterconn.Text.{chars, find, is_empty}
use betterconn.Text.Lines.{lines, first_line}

-- `SysctlParam`, a key with its value
abbrev entry : String → String → Text × Text
entry key value = (chars key, chars value)

unfoldable pub base_params : Dict Text Text
base_params =
    entry "net.core.default_qdisc" "fq_codel"
    ∷ entry "net.ipv4.tcp_congestion_control" "bbr"
    ∷ entry "net.core.rmem_max" "16777216"
    ∷ entry "net.core.wmem_max" "16777216"
    ∷ entry "net.core.rmem_default" "1048576"
    ∷ entry "net.core.wmem_default" "1048576"
    ∷ entry "net.ipv4.tcp_rmem" "4096 1048576 16777216"
    ∷ entry "net.ipv4.tcp_wmem" "4096 1048576 16777216"
    ∷ entry "net.ipv4.udp_rmem_min" "65536"
    ∷ entry "net.ipv4.udp_wmem_min" "65536"
    ∷ entry "net.core.netdev_max_backlog" "5000"
    ∷ entry "net.core.netdev_budget" "500"
    ∷ entry "net.core.netdev_budget_usecs" "8000"
    ∷ entry "net.ipv4.tcp_fastopen" "3"
    ∷ entry "net.ipv4.tcp_window_scaling" "1"
    ∷ entry "net.ipv4.tcp_timestamps" "1"
    ∷ entry "net.ipv4.tcp_sack" "1"
    ∷ entry "net.ipv4.tcp_ecn" "1"
    ∷ entry "net.ipv4.tcp_fin_timeout" "15"
    ∷ entry "net.ipv4.tcp_tw_reuse" "1"
    ∷ entry "net.ipv4.tcp_autocorking" "0"
    ∷ entry "net.ipv4.tcp_notsent_lowat" "131072"
    ∷ entry "net.ipv4.tcp_slow_start_after_idle" "0"
    ∷ entry "net.ipv4.tcp_mtu_probing" "1"
    ∷ entry "net.ipv4.ip_local_port_range" "1024 65535"
    ∷ entry "net.ipv4.tcp_rto_min_us" "5000"
    ∷ entry "net.ipv4.tcp_keepalive_time" "60"
    ∷ entry "net.ipv4.tcp_keepalive_intvl" "10"
    ∷ entry "net.ipv4.tcp_keepalive_probes" "6"
    ∷ entry "net.ipv4.tcp_moderate_rcvbuf" "1"
    ∷ entry "net.ipv4.tcp_recovery" "1"
    ∷ entry "net.ipv4.tcp_frto" "2"
    ∷ entry "net.ipv4.tcp_thin_linear_timeouts" "1"
    ∷ entry "net.ipv4.tcp_no_metrics_save" "1"
    ∷ []

abbrev first_line_found : Option Text → Text
first_line_found none = []
first_line_found (some content) = first_line content

-- The text of the backup, one line for each key
unfoldable pub backup_text : Dict Text Text → Text
backup_text [] = []
backup_text ((key, value) ∷ rest) = (key ++ (b'=' ∷ value)) ++ (b'\n' ∷ backup_text rest)

-- The key and the value of one line, unless there is no value to restore
unfoldable pub backup_entry : Text → Option (Text × Text)
unfolding find
backup_entry line = elim (find (chars "=") line 0) [
  | none ↦ none
  | some eq ↦ elim (is_empty (drop (eq + 1) line)) [
    | true ↦ none
    | false ↦ some (take eq line, drop (eq + 1) line)
  ]
]

abbrev pub add_entry : Option (Text × Text) → Dict Text Text → Dict Text Text
add_entry none es = es
add_entry (some found) es = found ∷ es

unfoldable pub backup_entries : List Text → Dict Text Text
unfolding backup_entry
backup_entries [] = []
backup_entries (line ∷ rest) = add_entry (backup_entry line) (backup_entries rest)

module _ ⦃os : Os⦄ where
  open os use {World, read_file}

  unfoldable pub read_sysctl : Text → World → Text
  unfolding sysctl_path first_line
  read_sysctl key w = first_line_found (read_file (sysctl_path key) w)

  unfoldable pub write_sysctl : Text → Text → Act Bool
  unfolding sysctl_path
  write_sysctl key value = write (sysctl_path key) (value ++ b'\n' ∷ [])

  -- The values that the keys of a table have now
  unfoldable pub snapshot : Dict Text Text → World → Dict Text Text
  unfolding read_sysctl
  snapshot [] w = []
  snapshot ((key, value) ∷ rest) w = (key, read_sysctl key w) ∷ snapshot rest w

  -- The backup that `apply` takes
  unfoldable pub save_backup : Act Done
  unfolding snapshot backup_text save base_params
  save_backup = do
    values ← ask (snapshot base_params)
    save (chars "sysctl_backup") (backup_text values)

  -- The loop over it in `revert`
  unfoldable pub restore_backup : Act Done
  unfolding backup_entries load lines write_sysctl for_each
  restore_backup = do
    backup ← load (chars "sysctl_backup")
    for_each (backup_entries (lines backup))
        (λ (key, value). (do written ← write_sysctl key value; skip))
