-- ===== src/Tuner/Threads.antt =====
-- The threads of core/src/tuner.cpp side by side: each step is one round of one thread, or a change
-- of the machine by something else. The flags that end the threads are left out, so they may run on at
-- any time, and a round reads the shared sample at once.
pub mod Sound
use betterconn.Prelude.{
  ℕ, ◌%◌, ◌≤◌, ◌≡◌, refl, ap, Bool, true, false, not, ◌&&◌, ◌==◌, ◌⊎◌, inl, inr, Option, none, some,
  List, [], ◌∷◌, Text, arith, Bool-cases, if◌then◌else◌,
}
use betterconn.Prelude.Dict.{member}
use betterconn.Prelude.Int.{ℤ, ℤ_eq, pos, minus_one, is_pos, int_eq}
use betterconn.Double.{Double, positive, minus_one_real}
use betterconn.Io.{ok}
use betterconn.Io.Gives.{Gives, gives_rules, Gives-bind, Gives-pure}
use betterconn.Os.{Os}
use betterconn.SurveyMonitor.{
  Survey, Previous, new_survey, no_previous, observe, read_active_channel_survey, monitor_round,
}
use betterconn.SurveyMonitor.Ratio.{IsMeasured, observe-IsMeasured}
use betterconn.Tuner.{buf_min, buf_max, compute_bdp_buf, qdisc_rtt_bucket_ms}
use betterconn.Tuner.Bounds.{compute_bdp_buf-bounds}
use betterconn.Tuner.Counters.{read_iface_rx, read_iface_tx, is_wifi}
use betterconn.Tuner.Rtt.{read_rtt_ms}
use betterconn.Tuner.Rtt.Passive.{IsTime}
use betterconn.Tuner.Loops.{
  SharedSample, new_sample, BufferState, new_buffer, QdiscState, new_qdisc, sampler_round, measure,
  write_sysctl, write_buffers, set_buffers, buffer_round, applied_after, qdisc_round, wifi_round,
  rtt_store, rtt_round,
}

module _ ⦃d : Double⦄ ⦃os : Os⦄ where
  open d use {Real, lt, milli}
  open os use {World}

  -- The variables of the threads
  pub record Tuning : Type 0 where
    pub shared : SharedSample
    pub reading : Option (ℕ × ℕ)
    pub prev_retries : Real
    pub buffer : BufferState
    pub qdisc : QdiscState
    pub wifi_seq : ℕ
    pub survey : Survey
    pub previous : Previous

  unfoldable pub new_tuning : Tuning
  unfolding new_sample new_buffer new_qdisc new_survey no_previous
  new_tuning = record {
    shared = new_sample;
    reading = none;
    prev_retries = milli 0;
    buffer = new_buffer;
    qdisc = new_qdisc;
    wifi_seq = 0;
    survey = new_survey;
    previous = no_previous;
  }

  pub data Step (iface : Text) : Tuning → World → Tuning → World → Type 0 where
    sampler_reads :
        (t : Tuning) (w : World)
        → Step iface t w
            (record t { reading = some (read_iface_rx iface w, read_iface_tx iface w) })
            w
    sampler_stores :
        (t : Tuning) (w v : World) (wifi : Bool) (counters : ℕ × ℕ) (s : SharedSample)
        (retries : Real)
        → t.reading ≡ some counters
        → sampler_round iface wifi counters (t.shared, t.prev_retries) w ≡ (ok (s, retries), v)
        → Step iface t w (record t { shared = s; reading = none; prev_retries = retries }) v
    buffer_runs :
        (t : Tuning) (w v : World) (b : BufferState)
        → buffer_round t.shared t.buffer w ≡ (ok b, v)
        → Step iface t w (record t { buffer = b }) v
    qdisc_runs :
        (t : Tuning) (w v : World) (q : QdiscState)
        → qdisc_round iface t.shared t.survey t.qdisc w ≡ (ok q, v)
        → Step iface t w (record t { qdisc = q }) v
    wifi_runs :
        (t : Tuning) (w v : World) (seq : ℕ)
        → is_wifi iface w ≡ true
        → wifi_round t.shared t.wifi_seq w ≡ (ok seq, v)
        → Step iface t w (record t { wifi_seq = seq }) v
    rtt_runs :
        (t : Tuning) (w v : World) (s : SharedSample)
        → rtt_round t.shared w ≡ (ok s, v)
        → Step iface t w (record t { shared = s }) v
    survey_runs :
        (t : Tuning) (w v : World) (survey : Survey) (previous : Previous)
        → monitor_round iface (t.survey, t.previous) w ≡ (ok (survey, previous), v)
        → Step iface t w (record t { survey = survey; previous = previous }) v
    others : (t : Tuning) (w v : World) → Step iface t w t v

  -- The states of the threads after any steps from the start
  pub data Reachable (iface : Text) : Tuning → World → Type 0 where
    starts : (w : World) → Reachable iface new_tuning w
    goes_on :
        (t u : Tuning) (w v : World)
        → Reachable iface t w
        → Step iface t w u v
        → Reachable iface u v
