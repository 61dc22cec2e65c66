-- ===== src/Tests/Tuning.antt =====
-- Runs of the threads of core/src/tuner.cpp and of what they read (core/src/survey_monitor.cpp), on
-- files in memory and whole thousandths.
use betterconn.Prelude.{true, List, arith, ℕ, ◌≡◌, refl, false, Option, none, some, [], ◌∷◌, Text}
use betterconn.Prelude.Int.{pos, negsuc}
use betterconn.Double.Fixed.{fixed}
use betterconn.NetworkInfo.{unescape_nmcli}
use betterconn.NetworkInfo.Escapes.{escaped, unescape_nmcli-escaped}
use betterconn.Os.Memory.{Memory, memory}
use betterconn.SurveyMonitor.{find_active_block}
use betterconn.SurveyMonitor.Block.{IsActiveBlock, find_active_block_lem}
use betterconn.Text.{chars}
use betterconn.Tuner.Flag.{
  at_flag, in_round, over, launch, stop, Tuner, Turn, Owner, tuner, survey_monitor,
  priority_scheduler,
}
use betterconn.Tuner.Flag.Ends.{turns_of, is_over, stop_ends}
use betterconn.Tuner.Flag.Turns.{turns}
use betterconn.Tuner.Loops.{SharedSample, BufferState, sampler_round, buffer_round, write_sysctl}
use betterconn.Tuner.Counters.{read_iface_rx, read_iface_tx}
use betterconn.Tuner.Rtt.{passive_rtt}
use betterconn.Tuner.Rtt.Passive.{IsTime, passive_rtt_lem}
use betterconn.Tuner.Threads.{
  Tuning, new_tuning, Reachable, starts, goes_on, sampler_reads, sampler_stores, buffer_runs,
  others,
}
use betterconn.Tuner.Threads.Sound.{IsSound, Reachable-IsSound}

abbrev survey : Text
survey =
    chars "frequency: 2412 MHz\n\tnoise: -95 dBm\nfrequency: 5180 MHz [in use]\n\tnoise: -92 dBm\n"

find_active_block_lem_example :
    (found : Option ℕ) × (find_active_block survey ≡ some found) × IsActiveBlock survey found
find_active_block_lem_example = find_active_block_lem survey

abbrev sockets : Text
sockets = chars "cubic rtt:31/4 minrtt:12 cwnd:10\ncubic rtt:24/2 minrtt:8\n"

passive_rtt_lem_example : (r : fixed.Real) × (passive_rtt sockets ≡ some r) × IsTime r
passive_rtt_lem_example = passive_rtt_lem sockets

unescape_nmcli-escaped_example : unescape_nmcli (escaped (chars "Cafe: 5GHz")) ≡ chars "Cafe: 5GHz"
unescape_nmcli-escaped_example = unescape_nmcli-escaped (chars "Cafe: 5GHz")

abbrev machine : Memory
machine = record {
  files =
      (chars "/proc/net/dev", chars "Inter-|\n  eth0: 1000 1 0 0 0 0 0 0 500 1 0 0 0 0 0 0\n") ∷ [];
  commands = [];
}

abbrev later : Memory
later = record {
  files =
      (chars "/proc/net/dev", chars "Inter-|\n  eth0: 9000 1 0 0 0 0 0 0 700 1 0 0 0 0 0 0\n") ∷ [];
  commands = [];
}

abbrev eth : Text
eth = chars "eth0"

abbrev waiting : Tuning
waiting = record {
  shared = record {
    rtt_ms = negsuc 999;
    rx_bps = pos 0;
    tx_bps = pos 0;
    rssi_dbm = pos 0;
    tx_retries = pos 0;
    seq = 0;
  };
  reading = some (1000, 500);
  prev_retries = pos 0;
  buffer = record { last_seq = 0; last_written_buf = 0; peak_rx = pos 0; smoothed_rtt = pos 30000 };
  qdisc = record { last_seq = 0; applied_rtt_ms = negsuc 0 };
  wifi_seq = 0;
  survey = record { busy_ratio = negsuc 999; noise_dbm = pos 0; has_data = false };
  previous = record { active_time = negsuc 999; busy_time = negsuc 999; tx_time = negsuc 999 };
}

-- What is measured between the two machines
abbrev sample : SharedSample
sample = record {
  rtt_ms = negsuc 999;
  rx_bps = pos 320000000;
  tx_bps = pos 8000000;
  rssi_dbm = pos 0;
  tx_retries = pos 0;
  seq = 1;
}

abbrev sampled : Tuning
sampled = record waiting { shared = sample; reading = none }

abbrev sized : BufferState
sized = record {
  last_seq = 1;
  last_written_buf = 4194304;
  peak_rx = pos 320000000;
  smoothed_rtt = pos 30000;
}

-- The sampler measures the interface while it works, and the buffers are set from that.
some_rounds :
    Reachable eth (record sampled { buffer = sized }) (buffer_round sample waiting.buffer later).1
unfolding new_tuning read_iface_rx read_iface_tx sampler_round buffer_round write_sysctl chars
some_rounds =
    goes_on sampled _ later _
      (goes_on waiting _ later _
        (goes_on waiting _ machine _
          (goes_on new_tuning waiting machine machine (starts machine)
            (sampler_reads new_tuning machine))
          (others waiting machine later))
        (sampler_stores waiting later later false (1000, 500) sample (pos 0) refl refl))
      (buffer_runs sampled later _ sized refl)

Reachable-IsSound_example : IsSound (record sampled { buffer = sized })
Reachable-IsSound_example = Reachable-IsSound eth _ _ some_rounds

-- The daemon on a machine without Wi-Fi and without cgroup v2
abbrev daemon : Tuner
daemon = record {
  own = launch (in_round ∷ at_flag ∷ in_round ∷ over ∷ at_flag ∷ []);
  survey_monitor_ = launch (in_round ∷ []);
  priority_scheduler_ = launch (over ∷ []);
}

-- Two turns of each of the tuner's threads, with one of the survey monitor's in between
abbrev own_turns : List Turn
own_turns =
    (tuner, 0)
    ∷ (tuner, 1)
    ∷ (tuner, 2)
    ∷ (tuner, 3)
    ∷ (survey_monitor, 0)
    ∷ (tuner, 4)
    ∷ (tuner, 4)
    ∷ (tuner, 3)
    ∷ (tuner, 2)
    ∷ (tuner, 1)
    ∷ (tuner, 0)
    ∷ []

abbrev monitor_turns : List Turn
monitor_turns = (survey_monitor, 0) ∷ (survey_monitor, 0) ∷ []

abbrev scheduler_turns : List Turn
scheduler_turns = (priority_scheduler, 0) ∷ (priority_scheduler, 0) ∷ []

stop_ends_example :
    (t' : Tuner) × (stop own_turns monitor_turns scheduler_turns daemon ≡ some t')
    × ((owner : Owner) → is_over owner t' ≡ true)
unfolding turns turns_of launch
stop_ends_example =
    stop_ends daemon own_turns monitor_turns scheduler_turns (λ i h. ground arith)
      (λ i h. ground arith) (λ i h. ground arith)
