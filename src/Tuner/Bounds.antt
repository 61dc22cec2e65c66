-- ===== src/Tuner/Bounds.antt =====
-- The sizes and latencies that can come out.
use betterconn.Prelude.{ℕ, ◌%◌, ◌≤◌, ◌≡◌, inl, inr, refl, ◌||◌, arith, min, max, Bool-cases}
use betterconn.Double.{Double}
use betterconn.Tuner.{align_up, buf_min, buf_max, compute_bdp_buf}

align_up_lem :
    (buf : ℕ)
    → buf ≤ buf_max
    → (buf ≤ align_up buf) × (align_up buf ≤ buf_max) × (align_up buf % 4096 ≡ 0)
unfolding align_up
align_up_lem buf h = (omega arith, omega arith, omega arith)

module _ ⦃d : Double⦄ where
  open d use {Real, le, milli}

  -- Whatever rate and latency are measured, the buffer is a whole number of pages between 4 MiB and
  -- 32 MiB.
  pub compute_bdp_buf-bounds :
      (rx_bps rtt_ms : Real)
      → (buf_min ≤ compute_bdp_buf rx_bps rtt_ms)
        × (compute_bdp_buf rx_bps rtt_ms ≤ buf_max)
        × (compute_bdp_buf rx_bps rtt_ms % 4096 ≡ 0)
  unfolding compute_bdp_buf
  compute_bdp_buf-bounds rx_bps rtt_ms =
      let size =
        d.to_u64
          (d.mul (d.div (d.mul rx_bps (d.div rtt_ms (d.of_ℕ 1000))) (d.of_ℕ 8)) (d.of_ℕ 2)) in
      elim (Bool-cases (le rx_bps (milli 0) || le rtt_ms (milli 0))) [
        | inl nothing ↦ rw nothing (omega arith, omega arith, refl)
        | inr measured ↦
            let (low, high, pages) = align_up_lem (min (max size buf_min) buf_max) (omega arith) in
            rw measured (omega (arith, low), high, pages)
      ]
