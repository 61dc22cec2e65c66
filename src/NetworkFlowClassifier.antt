-- ===== src/NetworkFlowClassifier.antt =====
-- core/src/network_flow_classifier.cpp: a window of queue occupancies for each process, and
-- whether its shape is that of interactive traffic.
pub mod Window
use betterconn.Prelude.{
  ℕ, ◌+◌, ◌%◌, ◌^◌, Bool, true, false, ◌&&◌, Option, none, some, List, [], ltb, leb, ◌∷◌,
  if◌then◌else◌, length, max, ℕ_eq,
}
use betterconn.Prelude.Int.{ℤ, is_pos, ℤ_eq}
use betterconn.Prelude.Dict.{Dict, lookup, insert, erase}
use betterconn.ContextPersistence.{push_bounded}
use betterconn.Double.{Double, positive}
use betterconn.ProcActivity.{SocketStateSnapshot}

-- `samples_`, with the deque of each process
abbrev pub Samples : Type 0
Samples = Dict ℤ (List ℕ)

-- `kSampleWindow`
abbrev pub sample_window : ℕ
sample_window = 6

-- `kBulkQueueThresholdBytes`
abbrev pub bulk_queue_threshold_bytes : ℕ
bulk_queue_threshold_bytes = 65536

abbrev plus_found : ℕ → Option ℕ → ℕ
plus_found total none = total
plus_found total (some v) = (total + v) % 2 ^ 64

unfoldable pub queue_occupancy_from : ℕ → List ℕ → SocketStateSnapshot → ℕ
queue_occupancy_from total [] snapshot = total
queue_occupancy_from total (inode ∷ rest) snapshot =
    queue_occupancy_from (plus_found total (lookup inode snapshot.queued_bytes_by_inode)) rest
      snapshot

unfoldable pub queue_occupancy : List ℕ → SocketStateSnapshot → ℕ
unfolding queue_occupancy_from
queue_occupancy inodes snapshot = queue_occupancy_from 0 inodes snapshot

abbrev found_values : Option (List ℕ) → List ℕ
found_values none = []
found_values (some vs) = vs

unfoldable pub sample : ℤ → List ℕ → SocketStateSnapshot → Samples → Samples
unfolding push_bounded queue_occupancy
sample pid inodes snapshot m =
    if is_pos pid
    then insert pid
        (push_bounded sample_window (queue_occupancy inodes snapshot) (found_values (lookup pid m)))
        m
    else m

unfoldable pub forget : ℤ → Samples → Samples
forget pid m = erase pid m

-- `max_occupancy` after its loop
abbrev pub max_from : ℕ → List ℕ → ℕ
max_from best [] = best
max_from best (v ∷ vs) = max_from (max best v) vs

module _ ⦃d : Double⦄ where
  open d use {Real, add, sub, mul, div, of_ℕ, milli}

  abbrev pub mean_from : Real → List ℕ → Real
  mean_from total [] = total
  mean_from total (v ∷ vs) = mean_from (add total (of_ℕ v)) vs

  abbrev pub squares_from : Real → Real → List ℕ → Real
  squares_from mean total [] = total
  squares_from mean total (v ∷ vs) =
      let delta = sub (of_ℕ v) mean in squares_from mean (add total (mul delta delta)) vs

  unfoldable pub sample_variance : List ℕ → Real
  sample_variance values =
      let size = of_ℕ (length values) in
      let mean = div (mean_from (milli 0) values) size in
      if ltb (length values) 2 then milli 0 else div (squares_from mean (milli 0) values) size

  abbrev pub values_look_interactive : List ℕ → Bool
  values_look_interactive values =
      if ltb (length values) sample_window
      then false
      else if leb bulk_queue_threshold_bytes (max_from 0 values)
      then false
      else positive (sample_variance values)

  unfoldable pub looks_interactive : ℤ → Samples → Bool
  unfolding sample_variance
  looks_interactive pid m = elim (lookup pid m) [
    | none ↦ false
    | some values ↦ values_look_interactive values
  ]
