-- ===== src/Tuner.antt =====
-- core/src/tuner.cpp: the size of the socket buffers and the latency that the queue is
-- told, from what is measured.
pub mod Bounds
pub mod Rtt
pub mod Counters
pub mod Loops
pub mod Threads
pub mod Flag
use betterconn.Prelude.{
  ℕ, ◌+◌, ◌-◌, ◌%◌, Bool, true, false, ◌||◌, Option, none, some, List, [], ◌∷◌, ◌++◌, Text, min,
  max, if◌then◌else◌,
}
use betterconn.Prelude.Int.{ℤ, pos, minus_one, is_pos}
use betterconn.Double.{Double, positive}
use betterconn.Io.{Done, when}
use betterconn.Os.{Os, Act, run}
use betterconn.Text.{chars, is_empty}
use betterconn.Text.Decimal.{to_string_ℤ}

-- `kBufMin`
abbrev pub buf_min : ℕ
buf_min = 4194304

-- `kBufMax`
abbrev pub buf_max : ℕ
buf_max = 33554432

-- `(buf + align - 1) & ~(align - 1)` for the power of two 4096
unfoldable pub align_up : ℕ → ℕ
align_up buf = (buf + 4095) - (buf + 4095) % 4096

module _ ⦃d : Double⦄ where
  open d use {Real, lt, le, mul, div, of_ℕ, to_u64, milli}

  unfoldable pub qdisc_rtt_bucket_ms : Real → ℤ
  qdisc_rtt_bucket_ms rtt_ms =
      if le rtt_ms (milli 0)
      then minus_one
      else if lt rtt_ms (of_ℕ 10)
      then pos 10
      else if lt rtt_ms (of_ℕ 20)
      then pos 20
      else if lt rtt_ms (of_ℕ 50)
      then pos 50
      else if lt rtt_ms (of_ℕ 100)
      then pos 100
      else pos 200

  unfoldable pub compute_bdp_buf : Real → Real → ℕ
  unfolding align_up
  compute_bdp_buf rx_bps rtt_ms =
      if le rx_bps (milli 0) || le rtt_ms (milli 0)
      then 8388608
      else align_up (
          min
            (max (to_u64 (mul (div (mul rx_bps (div rtt_ms (of_ℕ 1000))) (of_ℕ 8)) (of_ℕ 2)))
              buf_min)
            buf_max)

module _ ⦃os : Os⦄ where
  unfoldable pub set_qdisc_rtt : Text → ℤ → Act Done
  set_qdisc_rtt iface rtt_ms = when (if is_empty iface then false else is_pos rtt_ms) (
      run (
        chars "tc qdisc change dev "
        ++ (iface ++ (chars " root cake rtt " ++ (to_string_ℤ rtt_ms ++ chars "ms 2>/dev/null")))))
