-- ===== src/Tuner/Threads/Sound.antt =====
-- What holds of the threads of core/src/tuner.cpp in every order of their rounds.
use betterconn.Prelude.{
  ℕ, ◌%◌, ◌≤◌, ◌≡◌, refl, ap, Bool, true, ◌==◌, ◌⊎◌, inl, inr, List, [], ◌∷◌, Text, arith,
  Bool-cases,
}
use betterconn.Prelude.Dict.{member}
use betterconn.Prelude.Int.{ℤ, ℤ_eq, pos, minus_one}
use betterconn.Double.{Double, positive}
use betterconn.Io.{ok}
use betterconn.Io.Gives.{Gives, gives_rules, Gives-bind, Gives-pure}
use betterconn.Os.{Os}
use betterconn.SurveyMonitor.{
  Survey, Previous, new_survey, observe, read_active_channel_survey, monitor_round,
}
use betterconn.SurveyMonitor.Ratio.{IsMeasured, observe-IsMeasured}
use betterconn.Tuner.{buf_min, buf_max, compute_bdp_buf, qdisc_rtt_bucket_ms}
use betterconn.Tuner.Bounds.{compute_bdp_buf-bounds}
use betterconn.Tuner.Rtt.{read_rtt_ms}
use betterconn.Tuner.Rtt.Passive.{IsTime}
use betterconn.Tuner.Loops.{
  SharedSample, new_sample, BufferState, new_buffer, QdiscState, new_qdisc, sampler_round, measure,
  write_sysctl, write_buffers, set_buffers, buffer_round, applied_after, qdisc_round, rtt_store,
  rtt_round,
}
use betterconn.Tuner.Threads.{
  Tuning, new_tuning, Step, Reachable, sampler_reads, sampler_stores, buffer_runs, qdisc_runs,
  wifi_runs, rtt_runs, survey_runs, others, starts, goes_on,
}

abbrev pub buckets : List ℤ
buckets = minus_one ∷ pos 10 ∷ pos 20 ∷ pos 50 ∷ pos 100 ∷ pos 200 ∷ []

abbrev pub IsSized : ℕ → Type 0
IsSized size = (size ≡ 0) ⊎ ((buf_min ≤ size) × (size ≤ buf_max) × (size % 4096 ≡ 0))

module _ ⦃d : Double⦄ ⦃os : Os⦄ where
  open d use {Real, lt, milli}
  open os use {World}

  write_buffers-ok : (buf : ℕ) (w : World) → (write_buffers buf w).0 ≡ ok tt
  unfolding write_buffers write_sysctl
  write_buffers-ok buf w = refl

  set_buffers-last :
      (buf : ℕ) (b c : BufferState) (w v : World)
      → set_buffers buf b w ≡ (ok c, v)
      → c.last_written_buf ≡ buf
  unfolding set_buffers
  set_buffers-last buf b c w v e = elim (Bool-cases (buf == b.last_written_buf)) [
    | inl kept ↦ let same : c ≡ b = ground arith in ground arith
    | inr changed ↦
        let same : c ≡ record b { last_written_buf = buf } =
          ground (arith, write_buffers-ok buf w) in
        ap (λ b. b.last_written_buf) same
  ]

  buffer_round-IsSized :
      (s : SharedSample) (b c : BufferState) (w v : World)
      → IsSized b.last_written_buf
      → buffer_round s b w ≡ (ok c, v)
      → IsSized c.last_written_buf
  unfolding buffer_round
  buffer_round-IsSized s b c w v sized e = elim (Bool-cases (s.seq == b.last_seq)) [
    | inl old ↦ let same : c ≡ b = ground arith in rw same sized
    | inr new ↦
        let m = measure s b in
        let same : c.last_written_buf ≡ compute_bdp_buf m.peak_rx m.smoothed_rtt =
          set_buffers-last (compute_bdp_buf m.peak_rx m.smoothed_rtt) m c w v (ground arith) in
        rw same (inr (compute_bdp_buf-bounds m.peak_rx m.smoothed_rtt))
  ]

  abbrev pub IsBucket : ℤ → Type 0
  IsBucket rtt = member rtt buckets ≡ true

  applied_after-IsBucket :
      (rtt : Real) (applied : ℤ) → IsBucket applied → IsBucket (applied_after rtt applied)
  unfolding applied_after qdisc_rtt_bucket_ms
  applied_after-IsBucket rtt applied h = ground arith

  qdisc_round-IsBucket :
      (iface : Text) (s : SharedSample) (survey : Survey) (q : QdiscState)
      → IsBucket q.applied_rtt_ms
      → Gives (λ r. IsBucket r.applied_rtt_ms) (qdisc_round iface s survey q)
  unfolding qdisc_round
  qdisc_round-IsBucket iface s survey q h =
      let later : IsBucket (applied_after s.rtt_ms q.applied_rtt_ms) =
        applied_after-IsBucket s.rtt_ms q.applied_rtt_ms h in
      search gives_rules depth 12

  rtt_store-IsTime :
      (rtt : Real) (s : SharedSample) → IsTime s.rtt_ms → IsTime (rtt_store rtt s).rtt_ms
  unfolding rtt_store
  rtt_store-IsTime rtt s t = elim (Bool-cases (positive rtt)) [
    | inl some_time ↦ rw some_time (inr some_time)
    | inr no_time ↦ rw no_time t
  ]

  rtt_round-IsTime :
      (s : SharedSample) → IsTime s.rtt_ms → Gives (λ u. IsTime u.rtt_ms) (rtt_round s)
  unfolding rtt_round
  rtt_round-IsTime s t =
      Gives-bind read_rtt_ms _ (λ rtt. Gives-pure (rtt_store rtt s) (rtt_store-IsTime rtt s t))

  sampler_round-rtt :
      (iface : Text) (wifi : Bool) (counters : ℕ × ℕ) (s : SharedSample) (before : Real)
      → Gives (λ r. r.0.rtt_ms ≡ s.rtt_ms) (sampler_round iface wifi counters (s, before))
  unfolding sampler_round
  sampler_round-rtt iface wifi counters s before = record { at = λ w r h. ground arith }

  monitor_round-IsMeasured :
      (iface : Text) (state : Survey × Previous)
      → IsMeasured state.0
      → Gives (λ r. IsMeasured r.0) (monitor_round iface state)
  unfolding monitor_round
  monitor_round-IsMeasured iface state m =
      Gives-bind (read_active_channel_survey iface) _
        (λ sample. Gives-pure (observe sample state) (observe-IsMeasured sample state m))

  -- What the threads rely on of each other
  pub record IsSound (t : Tuning) : Type 0 where
    pub time : IsTime t.shared.rtt_ms
    pub size : IsSized t.buffer.last_written_buf
    pub bucket : IsBucket t.qdisc.applied_rtt_ms
    pub measured : IsMeasured t.survey

  new_tuning-IsSound : IsSound new_tuning
  unfolding new_tuning new_sample new_buffer new_qdisc new_survey
  new_tuning-IsSound = record {
    time = inl refl;
    size = inl refl;
    bucket = refl;
    measured = inl refl;
  }

  Step-IsSound :
      (iface : Text) (t : Tuning) (w : World) (u : Tuning) (v : World)
      → IsSound t
      → Step iface t w u v
      → IsSound u
  Step-IsSound iface t w _ _ sound (sampler_reads _ _) = record {
    time = sound.time;
    size = sound.size;
    bucket = sound.bucket;
    measured = sound.measured;
  }
  Step-IsSound iface t w _ _ sound (sampler_stores _ _ v wifi counters s retries reads e) =
      let same : s.rtt_ms ≡ t.shared.rtt_ms =
        (sampler_round-rtt iface wifi counters t.shared t.prev_retries).at w (s, retries)
          (ap (λ r. r.0) e) in
      record {
        time = rw same sound.time;
        size = sound.size;
        bucket = sound.bucket;
        measured = sound.measured;
      }
  Step-IsSound iface t w _ _ sound (buffer_runs _ _ v b e) = record {
    time = sound.time;
    size = buffer_round-IsSized t.shared t.buffer b w v sound.size e;
    bucket = sound.bucket;
    measured = sound.measured;
  }
  Step-IsSound iface t w _ _ sound (qdisc_runs _ _ v q e) = record {
    time = sound.time;
    size = sound.size;
    bucket =
        (qdisc_round-IsBucket iface t.shared t.survey t.qdisc sound.bucket).at w q
          (ap (λ r. r.0) e);
    measured = sound.measured;
  }
  Step-IsSound iface t w _ _ sound (wifi_runs _ _ v seq wifi e) = record {
    time = sound.time;
    size = sound.size;
    bucket = sound.bucket;
    measured = sound.measured;
  }
  Step-IsSound iface t w _ _ sound (rtt_runs _ _ v s e) = record {
    time = (rtt_round-IsTime t.shared sound.time).at w s (ap (λ r. r.0) e);
    size = sound.size;
    bucket = sound.bucket;
    measured = sound.measured;
  }
  Step-IsSound iface t w _ _ sound (survey_runs _ _ v survey previous e) = record {
    time = sound.time;
    size = sound.size;
    bucket = sound.bucket;
    measured =
        (monitor_round-IsMeasured iface (t.survey, t.previous) sound.measured).at w
          (survey, previous) (ap (λ r. r.0) e);
  }
  Step-IsSound iface t w _ _ sound (others _ _ v) = sound

  -- Whatever the threads do in whatever order, and whatever else happens to the machine: the
  -- latency is -1 or above zero, the size of the buffers was not set or is a whole number of pages
  -- between 4 MiB and 32 MiB, the latency of the queue is -1 or one of its five buckets, and the
  -- busy ratio, where there is one, is the quotient of a busy time that is not negative and a
  -- positive active time.
  pub Reachable-IsSound : (iface : Text) (t : Tuning) (w : World) → Reachable iface t w → IsSound t
  Reachable-IsSound iface _ _ (starts w) = new_tuning-IsSound
  Reachable-IsSound iface _ _ (goes_on t u w v before step) =
      Step-IsSound iface t w u v (Reachable-IsSound iface t w before) step
