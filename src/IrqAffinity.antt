-- ===== src/IrqAffinity.antt =====
-- core/src/irq_affinity.cpp: the interrupts of an interface pinned to processors, its queues
-- spread over all of them, and both put back. The messages on stderr are left out.
pub mod Masks
pub mod Saved
pub mod Spread
use betterconn.Prelude.{
  ℕ, zero, suc, ◌+◌, ◌%◌, Bool, true, false, not, ◌&&◌, ◌||◌, Option, none, some, List, [], ◌∷◌,
  ◌++◌, Text, ltb, ◌==◌, if◌then◌else◌,
}
use betterconn.Prelude.Int.{ℤ, pos, negsuc, minus_one}
use betterconn.Io.{◌>>=◌, ◌>>◌, pure, raise, skip, Done, for_each, when}
use betterconn.Os.{Os, Act, ask, change, with_result, run, succeeds, write, write_quietly}
use betterconn.IrqAffinity.Masks.{all_cpus_mask_hex}
use betterconn.IrqAffinity.Saved.{saved_line, saved_entries}
use betterconn.Storage.{save, load, saved, remove_file, path_of}
use betterconn.Text.{chars, contains, find, first_where, is_empty, starts_with, substr_to}
use betterconn.Text.Decimal.{stoi, to_string, to_string_ℤ}
use betterconn.Text.Lines.{lines, first_line, pieces}
use betterconn.Text.Stream.{read_int}

abbrev first_line_found : Option Text → Text
first_line_found none = []
first_line_found (some content) = first_line content

-- The number in front of the colon of one line of /proc/interrupts
unfoldable pub line_irq : Text → Text → Option ℤ
unfolding contains find read_int
line_irq iface line =
    if contains iface line
    then elim (find (chars ":") line 0) [
      | none ↦ none
      | some colon ↦ elim (read_int (substr_to line 0 (some colon))) [
        | none ↦ none
        | some (irq, rest) ↦ some irq
      ]
    ]
    else none

unfoldable pub irqs_of : Text → List Text → List ℤ
unfolding line_irq
irqs_of iface [] = []
irqs_of iface (line ∷ rest) = elim (line_irq iface line) [
  | none ↦ irqs_of iface rest
  | some irq ↦ irq ∷ irqs_of iface rest
]

abbrev comma_or_dash : ℕ → Bool
comma_or_dash c = c == b',' || c == b'-'

abbrev or_minus_one : Option ℤ → ℤ
or_minus_one none = minus_one
or_minus_one (some n) = n

-- The first processor of a list such as `2-5,7`
unfoldable pub first_cpu : Text → ℤ
unfolding stoi first_where
first_cpu value = or_minus_one (stoi (substr_to value 0 (first_where comma_or_dash value)))

abbrev pub affinity_file : Text → Text
affinity_file irq = chars "/proc/irq/" ++ (irq ++ chars "/smp_affinity_list")

abbrev pub queues_path : Text → Text
queues_path iface = chars "/sys/class/net/" ++ (iface ++ chars "/queues")

abbrev pub previous_key : Text → Text
previous_key irq = chars "irq_prev_" ++ irq

abbrev is_negative : ℤ → Bool
is_negative (pos n) = false
is_negative (negsuc n) = true

-- The names with the prefix
unfoldable pub with_kind : Text → List Text → List Text
unfolding starts_with
with_kind kind [] = []
with_kind kind (name ∷ rest) =
    let others = with_kind kind rest in if starts_with kind name then name ∷ others else others

-- `std::sort` on strings, which compares bytes
unfoldable pub text_le : Text → Text → Bool
text_le [] t = true
text_le (a ∷ s) [] = false
text_le (a ∷ s) (b ∷ t) = ltb a b || (a == b && text_le s t)

unfoldable pub insert_sorted : Text → List Text → List Text
unfolding text_le
insert_sorted s [] = s ∷ []
insert_sorted s (t ∷ rest) =
    let later = t ∷ insert_sorted s rest in if text_le s t then s ∷ t ∷ rest else later

unfoldable pub sorted : List Text → List Text
unfolding insert_sorted
sorted [] = []
sorted (s ∷ rest) = insert_sorted s (sorted rest)

-- `irqs[0],irqs[1],…`
unfoldable pub joined : List ℤ → Text
unfolding to_string_ℤ
joined [] = []
joined (irq ∷ []) = to_string_ℤ irq
joined (irq ∷ next ∷ rest) = to_string_ℤ irq ++ (b',' ∷ joined (next ∷ rest))

module _ ⦃os : Os⦄ where
  open os use {World, read_file, write_file, exists, list_dir, cpus}

  unfoldable pub detect_cpu_count : World → ℕ
  detect_cpu_count w = if ltb 0 (cpus w) then cpus w else 1

  unfoldable pub find_interface_irqs : Text → World → List ℤ
  unfolding irqs_of lines
  find_interface_irqs iface w = elim (read_file (chars "/proc/interrupts") w) [
    | none ↦ []
    | some content ↦ irqs_of iface (lines content)
  ]

  unfoldable pub irqbalance_active : Act Bool
  irqbalance_active = succeeds (chars "systemctl is-active --quiet irqbalance 2>/dev/null")

  unfoldable pub stop_irqbalance : Act Done
  unfolding irqbalance_active save
  stop_irqbalance = do
    active ← irqbalance_active
    when active (do
      save (chars "irqbalance_was_active") (chars "1")
      run (chars "systemctl stop irqbalance 2>/dev/null"))

  unfoldable pub restore_irqbalance : Act Done
  unfolding saved remove_file
  restore_irqbalance = do
    stopped ← ask (saved (chars "irqbalance_was_active"))
    when stopped (do
      run (chars "systemctl start irqbalance 2>/dev/null")
      remove_file (chars "irqbalance_was_active"))

  unfoldable pub read_irq_affinity_cpu : ℤ → World → ℤ
  unfolding first_cpu first_line
  read_irq_affinity_cpu irq w = elim (read_file (affinity_file (to_string_ℤ irq)) w) [
    | none ↦ minus_one
    | some content ↦ first_cpu (first_line content)
  ]

  unfoldable pub pin_irq_to_cpu : ℤ → ℕ → Act Done
  unfolding read_irq_affinity_cpu save
  pin_irq_to_cpu irq cpu = do
    previous_cpu ← ask (read_irq_affinity_cpu irq)
    when (not (is_negative previous_cpu))
        (save (previous_key (to_string_ℤ irq)) (to_string_ℤ previous_cpu))
    write_quietly (affinity_file (to_string_ℤ irq)) (to_string cpu)

  unfoldable pub list_queue_dirs : Text → Text → World → List Text
  unfolding sorted with_kind
  list_queue_dirs iface kind w =
      if exists (queues_path iface) w
      then sorted (with_kind kind (list_dir (queues_path iface) w))
      else []

  unfoldable pub read_first_line : Text → World → Text
  unfolding first_line
  read_first_line path w = first_line_found (read_file path w)

  -- One queue: its mask is read, and replaced by that of all processors. The result is the text
  -- that is saved, with the line of this queue behind it.
  unfoldable pub spread_queues : Text → Text → Text → List Text → Text → Act Text
  unfolding read_first_line saved_line
  spread_queues iface mask_file mask [] text = pure text
  spread_queues iface mask_file mask (queue ∷ rest) text = do
    let relative_path = queue ++ mask_file
    let path = queues_path iface ++ (b'/' ∷ relative_path)
    before ← ask (read_first_line path)
    write_quietly path mask
    spread_queues iface mask_file mask rest (text ++ saved_line (relative_path, before))

  unfoldable pub apply_rps_xps_fallback : Text → ℕ → Act Done
  unfolding spread_queues list_queue_dirs all_cpus_mask_hex save
  apply_rps_xps_fallback iface cpu_count = do
    rx ← ask (list_queue_dirs iface (chars "rx-"))
    after_rx ← spread_queues iface (chars "/rps_cpus") (all_cpus_mask_hex cpu_count) rx []
    tx ← ask (list_queue_dirs iface (chars "tx-"))
    after_tx ← spread_queues iface (chars "/xps_cpus") (all_cpus_mask_hex cpu_count) tx after_rx
    save (chars "rps_xps_saved") after_tx
    save (chars "rps_xps_iface") iface

  unfoldable pub revert_rps_xps_fallback : Text → Act Done
  unfolding saved load remove_file for_each saved_entries
  revert_rps_xps_fallback iface = do
    present ← ask (saved (chars "rps_xps_saved"))
    when present (do
      raw ← load (chars "rps_xps_saved")
      for_each (saved_entries (lines raw)) (λ (relative_path, mask).
          write_quietly (queues_path iface ++ (b'/' ∷ relative_path)) mask)
      remove_file (chars "rps_xps_saved"))
    remove_file (chars "rps_xps_iface")

  -- The loop over the interrupts, from the `i`-th on
  unfoldable pub pin_irqs : ℕ → ℕ → List ℤ → Act Done
  unfolding pin_irq_to_cpu
  pin_irqs cpu_count i [] = skip
  pin_irqs cpu_count i (irq ∷ rest) =
      pin_irq_to_cpu irq (i % cpu_count) >> pin_irqs cpu_count (suc i) rest

  unfoldable pub apply : Text → Act Done
  unfolding find_interface_irqs detect_cpu_count apply_rps_xps_fallback stop_irqbalance pin_irqs
      joined save
  apply iface = when (not (is_empty iface)) (do
    irqs ← ask (find_interface_irqs iface)
    cpu_count ← ask detect_cpu_count
    apply_rps_xps_fallback iface cpu_count
    when (not (is_empty irqs)) (do
      stop_irqbalance
      pin_irqs cpu_count 0 irqs
      save (chars "irq_affinity_list") (joined irqs)
      save (chars "irq_affinity_iface") iface))

  -- The file of the interrupt is opened before the storage is read, so a file of the storage that
  -- cannot be read throws only if the first one opened.
  unfoldable pub put_back : Text → Act Done
  unfolding load
  put_back token = do
    found ← ask (read_file (path_of (previous_key token)))
    elim found [
      | some content ↦ write_quietly (affinity_file token) content
      | none ↦ (do
        opened ← with_result (write_file (affinity_file token) [])
        when opened (do content ← load (previous_key token); skip))
    ]

  unfoldable pub revert_irq : Text → Act Done
  unfolding put_back saved remove_file
  revert_irq token = when (not (is_empty token)) (do
    present ← ask (saved (previous_key token))
    when present (do put_back token; remove_file (previous_key token)))

  unfoldable pub revert : Act Done
  unfolding saved load revert_rps_xps_fallback revert_irq restore_irqbalance remove_file for_each
      pieces
  revert = do
    spread ← ask (saved (chars "rps_xps_iface"))
    when spread (do iface ← load (chars "rps_xps_iface"); revert_rps_xps_fallback iface)
    pinned ← ask (saved (chars "irq_affinity_list"))
    when pinned (do
      raw ← load (chars "irq_affinity_list")
      for_each (pieces b',' raw) revert_irq
      restore_irqbalance
      remove_file (chars "irq_affinity_list")
      remove_file (chars "irq_affinity_iface"))
