-- ===== src/Optimizer/Memory.antt =====
-- The parameters of a kernel as files in memory.
use betterconn.Prelude.{refl, ap, ◌∙◌, arith, Text_eq, ◌≡◌, ◌≢◌, ◌∷◌, [], ◌++◌, Text}
use betterconn.Prelude.Dict.{Dict, lookup-insert, lookup-insert_self, lookup}
use betterconn.Os.Memory.{memory, Memory}
use betterconn.Optimizer.{read_sysctl, write_sysctl, first_line_found}
use betterconn.Optimizer.Backup.{first_line_found-Lacks}
use betterconn.Optimizer.Restore.{TakesBack, Independent}
use betterconn.SystemDefaults.{sysctl_path}
use betterconn.Text.Lines.{first_line, Lacks}

first_line-ended : (line : Text) → Lacks b'\n' line → first_line (line ++ b'\n' ∷ []) ≡ line
unfolding first_line
first_line-ended [] h = refl
first_line-ended (c ∷ line) h = ground (arith, first_line-ended line)

read-write_sysctl :
    (key value : Text) (w : Memory)
    → Lacks b'\n' value
    → read_sysctl key (write_sysctl key value w).1 ≡ value
unfolding read_sysctl write_sysctl
read-write_sysctl key value w h =
    ap first_line_found (lookup-insert_self (sysctl_path key) (value ++ b'\n' ∷ []) w.files)
    ∙ first_line-ended value h

unchanged :
    (key other value : Text) (w : Memory)
    → sysctl_path other ≢ sysctl_path key
    → lookup (sysctl_path key) (write_sysctl other value w).1.files
      ≡ lookup (sysctl_path key) w.files
unfolding write_sysctl
unchanged key other value w h = ground (
  arith,
  lookup-insert (sysctl_path other) (sysctl_path key) (value ++ b'\n' ∷ []) w.files,
  Text_eq.beq_iff (sysctl_path other) (sysctl_path key),
)

pub memory-TakesBack : (key : Text) (w : Memory) → TakesBack key w
unfolding read_sysctl
memory-TakesBack key w v =
    read-write_sysctl key _ v (first_line_found-Lacks (lookup (sysctl_path key) w.files))

pub memory-Independent : (key : Text) (params : Dict Text Text) → Independent key params
unfolding read_sysctl
memory-Independent key params other value w listed h =
    ap first_line_found (unchanged key other value w h)
