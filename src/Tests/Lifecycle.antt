-- ===== src/Tests/Lifecycle.antt =====
-- Runs of the optimizer (core/src/optimizer.cpp) from the start to the end, on files in memory.
use betterconn.Prelude.{Text_eq, ◌≡◌, ◌≢◌, refl, false, true, [], ◌∷◌}
use betterconn.Io.{ok, throw}
use betterconn.Optimizer.{base_params, read_sysctl, write_sysctl, save_backup, restore_backup}
use betterconn.Optimizer.Lifecycle.{apply, revert, is_active, tune}
use betterconn.Optimizer.Lifecycle.Active.{apply_once, revert_once}
use betterconn.Optimizer.Lifecycle.Boot.{Gone}
use betterconn.Optimizer.Lifecycle.Boot.Files.{revert-Gone}
use betterconn.Optimizer.Lifecycle.Boot.Memory.{memory-StaysGone}
use betterconn.Optimizer.Lifecycle.Errors.{revert-no_backup}
use betterconn.Optimizer.Memory.{memory-TakesBack, memory-Independent}
use betterconn.Optimizer.Restore.{overwritten, restore_backup-save_backup}
use betterconn.Os.Memory.{Memory, memory}
use betterconn.Storage.{saved, path_of}
use betterconn.Storage.Memory.{memory-IsStore}
use betterconn.SystemDefaults.{persistence_paths}
use betterconn.Text.{chars, starts_with}

abbrev fresh : Memory
fresh = record {
  files =
      (chars "/proc/sys/net/ipv4/tcp_ecn", chars "2\n")
      ∷ (chars "/proc/sys/net/ipv4/tcp_rmem", chars "4096 131072 6291456\n")
      ∷ [];
  commands = [];
}

-- A machine on which the program is active
abbrev tuned : Memory
tuned = record {
  files =
      (chars "/var/lib/.betterconn/sysctl_backup", chars "net.ipv4.tcp_ecn=2\nnet.ipv4.tcp_frto=\n")
      ∷ (chars "/etc/sysctl.d/99-betterconn.conf", chars "net.ipv4.tcp_ecn = 1\n")
      ∷ (chars "/etc/betterconn/iptables-apply.sh", chars "#!/bin/sh\n")
      ∷ (chars "/var/lib/.betterconn/state", chars "active")
      ∷ (chars "/proc/sys/net/ipv4/tcp_ecn", chars "1\n")
      ∷ [];
  commands = [];
}

-- The machine after the backup, with one parameter changed
abbrev changed : Memory
changed = (write_sysctl (chars "net.ipv4.tcp_ecn") (chars "1") (save_backup fresh).1).1

revert-no_backup_example : ((revert fresh).1 ≡ fresh) × ((revert fresh).0 ≢ ok tt)
unfolding saved chars path_of
revert-no_backup_example = revert-no_backup fresh refl

apply_once_example :
    ((is_active (apply (chars "eth0") fresh).1).0 ≡ ok true)
    × (apply [] (apply (chars "eth0") fresh).1 ≡ (
      throw (chars "betterconn is already active, run stop first"),
      (apply (chars "eth0") fresh).1,
    ))
unfolding apply chars path_of
apply_once_example = apply_once memory-IsStore (chars "eth0") [] fresh refl

revert_once_example :
    ((is_active (revert tuned).1).0 ≡ ok false)
    × (revert (revert tuned).1 ≡ (throw (chars "betterconn is not active"), (revert tuned).1))
    × (apply [] (revert tuned).1 ≡ tune [] (revert tuned).1)
unfolding revert chars path_of
revert_once_example = revert_once memory-IsStore [] tuned refl

restore_backup-save_backup_example :
    ((restore_backup changed).0 ≡ ok tt)
    × (read_sysctl (chars "net.ipv4.tcp_ecn") (restore_backup changed).1
        ≡ overwritten
            (read_sysctl (chars "net.ipv4.tcp_ecn") fresh)
            (read_sysctl (chars "net.ipv4.tcp_ecn") changed))
unfolding save_backup chars write_sysctl path_of base_params
restore_backup-save_backup_example =
    restore_backup-save_backup memory-IsStore fresh changed refl refl (chars "net.ipv4.tcp_ecn")
      refl (memory-TakesBack (chars "net.ipv4.tcp_ecn") fresh)
      (memory-Independent (chars "net.ipv4.tcp_ecn") base_params)

revert-Gone_example : Gone (chars "/etc/betterconn/iptables-apply.sh") (revert tuned).1
unfolding persistence_paths saved chars path_of starts_with
revert-Gone_example =
    revert-Gone (chars "/etc/betterconn/iptables-apply.sh")
      (memory-StaysGone (chars "/etc/betterconn/iptables-apply.sh") refl) tuned refl refl
