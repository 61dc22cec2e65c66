-- ===== src/Tests/Applied.antt =====
-- Runs of the tables and commands that the program applies: core/src/irq_affinity.cpp,
-- core/src/packet_marking.cpp and core/src/tuner.cpp.
use betterconn.Prelude.{
  Text_eq, refl, ◌+◌, ◌%◌, ◌^◌, ◌≤◌, ◌≡◌, arith, min, List, [], ◌∷◌, ◌++◌, map, Text,
}
use betterconn.Prelude.Dict.{lookup-insert}
use betterconn.Prelude.Int.{pos}
use betterconn.Double.Fixed.{fixed}
use betterconn.IrqAffinity.Masks.{all_cpus_mask, all_cpus_mask_lem}
use betterconn.IrqAffinity.Saved.{saved_text, saved_entries, saved_entries-saved_text}
use betterconn.Os.Memory.{Memory, memory}
use betterconn.PacketMarking.{append_rules}
use betterconn.PacketMarking.Commands.{GivesRules, append_rules-GivesRules}
use betterconn.Io.{ok}
use betterconn.IrqAffinity.{spread_queues}
use betterconn.IrqAffinity.Spread.{MasksApart, mask_path, mask_entry, spread_queues_lem}
use betterconn.Text.{chars}
use betterconn.Text.Lines.{lines}
use betterconn.Tuner.{buf_min, buf_max, compute_bdp_buf}
use betterconn.Tuner.Bounds.{compute_bdp_buf-bounds}

all_cpus_mask_lem_example : all_cpus_mask 4 + 1 ≡ 2 ^ min 4 63
all_cpus_mask_lem_example = all_cpus_mask_lem 4

abbrev entries : List (Text × Text)
entries = (chars "rx-0/rps_cpus", chars "0f") ∷ (chars "tx-0/xps_cpus", chars "03") ∷ []

saved_entries-saved_text_example : saved_entries (lines (saved_text entries)) ≡ entries
unfolding chars
saved_entries-saved_text_example = saved_entries-saved_text entries (ground arith)

abbrev machine : Memory
machine = record { files = []; commands = [] }

abbrev masked : Memory
masked = record {
  files =
      (chars "/sys/class/net/eth0/queues/rx-0/rps_cpus", chars "3\n")
      ∷ (chars "/sys/class/net/eth0/queues/rx-1/rps_cpus", chars "c\n")
      ∷ [];
  commands = [];
}

append_rules-GivesRules_example : GivesRules append_rules machine
append_rules-GivesRules_example = append_rules-GivesRules machine

compute_bdp_buf-bounds_example :
    (buf_min ≤ compute_bdp_buf (pos 80000000000) (pos 40000))
    × (compute_bdp_buf (pos 80000000000) (pos 40000) ≤ buf_max)
    × (compute_bdp_buf (pos 80000000000) (pos 40000) % 4096 ≡ 0)
compute_bdp_buf-bounds_example = compute_bdp_buf-bounds (pos 80000000000) (pos 40000)

abbrev queues : List Text
queues = chars "rx-0" ∷ chars "rx-1" ∷ []

masks_apart : MasksApart (chars "eth0") (chars "/rps_cpus")
masks_apart queue other mask w differ =
    let path = mask_path (chars "eth0") (chars "/rps_cpus") queue in
    let path' = mask_path (chars "eth0") (chars "/rps_cpus") other in
    ground (arith, lookup-insert path' path mask w.files, Text_eq.beq_iff path' path)

spread_queues_lem_example :
    (spread_queues (chars "eth0") (chars "/rps_cpus") (chars "f") queues [] masked).0
    ≡ ok ([] ++ saved_text (map (mask_entry (chars "eth0") (chars "/rps_cpus") masked) queues))
unfolding chars
spread_queues_lem_example =
    spread_queues_lem (chars "eth0") (chars "/rps_cpus") masks_apart (chars "f") queues [] masked
      (refl, (refl, tt))
