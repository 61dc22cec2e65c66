-- ===== src/Tests/Restored.antt =====
-- Runs of the backup of core/src/optimizer.cpp, on files in memory.
use betterconn.Prelude.{◌≡◌, [], ◌∷◌, keep}
use betterconn.Optimizer.{base_params, backup_text, backup_entries, snapshot}
use betterconn.Optimizer.Backup.{has_value, backup_entries-snapshot}
use betterconn.Os.Memory.{Memory, memory}
use betterconn.Text.{chars}
use betterconn.Text.Lines.{lines}

abbrev machine : Memory
machine = record {
  files =
      (chars "/proc/sys/net/ipv4/tcp_ecn", chars "2\n")
      ∷ (chars "/proc/sys/net/ipv4/tcp_rmem", chars "4096 131072 6291456\n")
      ∷ [];
  commands = [];
}

backup_entries-snapshot_example :
    backup_entries (lines (backup_text (snapshot base_params machine)))
    ≡ keep has_value (snapshot base_params machine)
backup_entries-snapshot_example = backup_entries-snapshot machine
