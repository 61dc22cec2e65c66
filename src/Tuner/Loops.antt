-- ===== src/Tuner/Loops.antt =====
-- The loops of core/src/tuner.cpp: one round of each, behind its sleep.
use betterconn.Prelude.{
  ℕ, ◌+◌, ◌/◌, ◌%◌, ◌^◌, Bool, not, ◌&&◌, ◌||◌, ◌==◌, [], ◌∷◌, ◌++◌, Text, max, if◌then◌else◌,
}
use betterconn.Prelude.Int.{ℤ, is_pos, int_eq, minus_one}
use betterconn.Double.{Double, positive, minus_one_real, real_max, real_eq}
use betterconn.Io.{◌>>=◌, ◌>>◌, pure, Done, when}
use betterconn.Os.{Os, Act, ask, write_quietly}
use betterconn.SurveyMonitor.{Survey}
use betterconn.SystemDefaults.{sysctl_path}
use betterconn.Text.{chars}
use betterconn.Text.Decimal.{to_string}
use betterconn.Tuner.{compute_bdp_buf, qdisc_rtt_bucket_ms, set_qdisc_rtt}
use betterconn.Tuner.Counters.{
  read_iface_rx, read_iface_tx, bits_per_second, read_rssi_dbm, read_tx_retries,
}
use betterconn.Tuner.Rtt.{read_rtt_ms}

module _ ⦃d : Double⦄ where
  open d use {Real, lt, le, add, sub, mul, of_ℕ, milli}

  pub record SharedSample : Type 0 where
    pub rtt_ms : Real
    pub rx_bps : Real
    pub tx_bps : Real
    pub rssi_dbm : Real
    pub tx_retries : Real
    pub seq : ℕ

  unfoldable pub new_sample : SharedSample
  new_sample = record {
    rtt_ms = minus_one_real;
    rx_bps = milli 0;
    tx_bps = milli 0;
    rssi_dbm = milli 0;
    tx_retries = milli 0;
    seq = 0;
  }

  -- The variables of `buffer_loop`
  pub record BufferState : Type 0 where
    pub last_seq : ℕ
    pub last_written_buf : ℕ
    pub peak_rx : Real
    pub smoothed_rtt : Real

  unfoldable pub new_buffer : BufferState
  new_buffer = record {
    last_seq = 0;
    last_written_buf = 0;
    peak_rx = milli 0;
    smoothed_rtt = milli 30000;
  }

  -- The variables of `qdisc_loop`
  pub record QdiscState : Type 0 where
    pub last_seq : ℕ
    pub applied_rtt_ms : ℤ

  unfoldable pub new_qdisc : QdiscState
  new_qdisc = record { last_seq = 0; applied_rtt_ms = minus_one }

  abbrev peak_decay_per_sample : Real
  peak_decay_per_sample = milli 999

  abbrev next_rtt : Real → Real → Real
  next_rtt rtt smoothed =
      if positive rtt
      then add (mul (milli 300) rtt) (mul (sub (milli 1000) (milli 300)) smoothed)
      else smoothed

  -- What a new sample makes of the variables, but for the last size that was written
  unfoldable pub measure : SharedSample → BufferState → BufferState
  measure s b = record b {
    last_seq = s.seq;
    peak_rx = real_max s.rx_bps (mul b.peak_rx peak_decay_per_sample);
    smoothed_rtt = next_rtt s.rtt_ms b.smoothed_rtt;
  }

  -- `buf_def`
  unfoldable pub default_buf : ℕ → ℕ
  default_buf buf = max (buf / 4) 1048576

  -- `tcp_vec`
  unfoldable pub tcp_vector : ℕ → ℕ → Text
  unfolding to_string
  tcp_vector buf_def buf = chars "4096 " ++ (to_string buf_def ++ (b' ' ∷ to_string buf))

  -- `notsent` and `budget`
  unfoldable pub queue_limits : Real → Real → Text × Text
  queue_limits rtt rx_bps =
      if positive rtt && lt (milli 55000) rtt
      then (chars "65536", chars "400")
      else if positive rtt && lt rtt (milli 20000)
      then (chars "131072", chars "600")
      else if lt (of_ℕ 671088640) rx_bps
      then (chars "262144", chars "700")
      else (chars "131072", chars "500")

  unfoldable pub is_busy : Survey → Bool
  is_busy survey = survey.has_data && lt (milli 350) survey.busy_ratio

  -- The new latency of the queue, where there is one
  unfoldable pub applied_after : Real → ℤ → ℤ
  unfolding qdisc_rtt_bucket_ms
  applied_after rtt applied =
      let target = qdisc_rtt_bucket_ms rtt in
      if is_pos target && not (int_eq target applied) then target else applied

  -- `tcp_autocorking` and `netdev_budget_usecs`
  unfoldable pub radio_limits : SharedSample → Text × Text
  radio_limits s =
      if (not (real_eq s.rssi_dbm (milli 0)) && lt s.rssi_dbm (d.neg (milli 75000)))
        || lt (milli 5000) s.tx_retries
      then (chars "1", chars "12000")
      else if (not (real_eq s.rssi_dbm (milli 0)) && lt s.rssi_dbm (d.neg (milli 65000)))
          || (positive s.rtt_ms && lt (milli 55000) s.rtt_ms)
      then (chars "0", chars "8000")
      else if lt s.tx_retries (milli 1000) && (positive s.rtt_ms && lt s.rtt_ms (milli 20000))
      then (chars "0", chars "6000")
      else (chars "0", chars "8000")

  module _ ⦃os : Os⦄ where
    open os use {World}

    unfoldable pub write_sysctl : Text → Text → Act Done
    unfolding sysctl_path
    write_sysctl key value = write_quietly (sysctl_path key) (value ++ b'\n' ∷ [])

    -- The end of a round of `sampler_loop`, from the counters before the sleep, with what the loop
    -- keeps of the retries
    unfoldable pub sampler_round :
        Text → Bool → ℕ × ℕ → SharedSample × Real → Act (SharedSample × Real)
    unfolding read_iface_rx read_iface_tx bits_per_second read_rssi_dbm read_tx_retries
    sampler_round iface wifi (rx0, tx0) (s, prev_retries) = do
      rx1 ← ask (read_iface_rx iface)
      tx1 ← ask (read_iface_tx iface)
      rssi ← ask (read_rssi_dbm iface)
      cur_retries ← ask (read_tx_retries iface)
      let counted = record s {
        rx_bps = bits_per_second rx0 rx1 200;
        tx_bps = bits_per_second tx0 tx1 200;
        seq = (s.seq + 1) % 2 ^ 64;
      }
      pure (
          if wifi
          then (
            record counted { rssi_dbm = rssi; tx_retries = sub cur_retries prev_retries },
            cur_retries,
          )
          else (counted, prev_retries))

    unfoldable pub write_buffers : ℕ → Act Done
    unfolding write_sysctl default_buf tcp_vector to_string
    write_buffers buf = do
      let buf_def = default_buf buf
      let tcp_vec = tcp_vector buf_def buf
      write_sysctl (chars "net.core.rmem_max") (to_string buf)
      write_sysctl (chars "net.core.wmem_max") (to_string buf)
      write_sysctl (chars "net.core.rmem_default") (to_string buf_def)
      write_sysctl (chars "net.core.wmem_default") (to_string buf_def)
      write_sysctl (chars "net.ipv4.tcp_rmem") tcp_vec
      write_sysctl (chars "net.ipv4.tcp_wmem") tcp_vec

    -- The end of a round of `buffer_loop`, on the size that comes out
    unfoldable pub set_buffers : ℕ → BufferState → Act BufferState
    unfolding write_buffers
    set_buffers buf b =
        if buf == b.last_written_buf
        then pure b
        else (do write_buffers buf; pure (record b { last_written_buf = buf }))

    unfoldable pub buffer_round : SharedSample → BufferState → Act BufferState
    unfolding measure compute_bdp_buf set_buffers
    buffer_round s b =
        if s.seq == b.last_seq
        then pure b
        else (let m = measure s b in set_buffers (compute_bdp_buf m.peak_rx m.smoothed_rtt) m)

    unfoldable pub qdisc_round : Text → SharedSample → Survey → QdiscState → Act QdiscState
    unfolding queue_limits is_busy write_sysctl qdisc_rtt_bucket_ms set_qdisc_rtt applied_after
    qdisc_round iface s survey q = if s.seq == q.last_seq then pure q else (do
      let (notsent, budget) = queue_limits s.rtt_ms s.rx_bps
      write_sysctl (chars "net.ipv4.tcp_notsent_lowat")
          (if is_busy survey then chars "65536" else notsent)
      write_sysctl (chars "net.core.netdev_budget") budget
      let target = qdisc_rtt_bucket_ms s.rtt_ms
      when (is_pos target && not (int_eq target q.applied_rtt_ms)) (set_qdisc_rtt iface target)
      pure (record { last_seq = s.seq; applied_rtt_ms = applied_after s.rtt_ms q.applied_rtt_ms }))

    -- The round of `wifi_loop`, with the number of the last sample it saw
    unfoldable pub wifi_round : SharedSample → ℕ → Act ℕ
    unfolding radio_limits write_sysctl
    wifi_round s last_seq = if s.seq == last_seq then pure last_seq else (do
      let (autocorking, budget_usecs) = radio_limits s
      write_sysctl (chars "net.ipv4.tcp_autocorking") autocorking
      write_sysctl (chars "net.core.netdev_budget_usecs") budget_usecs
      pure s.seq)

    unfoldable pub rtt_store : Real → SharedSample → SharedSample
    rtt_store rtt s = if positive rtt then record s { rtt_ms = rtt } else s

    -- The round of `rtt_loop`
    unfoldable pub rtt_round : SharedSample → Act SharedSample
    unfolding read_rtt_ms rtt_store
    rtt_round s = do rtt ← read_rtt_ms; pure (rtt_store rtt s)
