-- ===== src/AudioActivityMonitor.antt =====
-- core/src/audio_activity_monitor.cpp: the processes that play sound, from the listing of
-- `pactl list sink-inputs`.
pub mod Parse
use betterconn.Prelude.{ℕ, Bool, true, false, Option, none, some, List, [], Text, if◌then◌else◌}
use betterconn.Prelude.Int.{ℤ}
use betterconn.AudioActivityMonitor.Parse.{parse_sink_inputs}
use betterconn.Io.{◌>>=◌, pure}
use betterconn.Os.{Os, Act, succeeds, with_result}
use betterconn.Text.{chars}

module _ ⦃os : Os⦄ where
  open os use {popen}

  abbrev output_or_empty : Option Text → Text
  output_or_empty none = []
  output_or_empty (some out) = out

  unfoldable pub run_and_capture : Text → Act Text
  run_and_capture cmd = do p ← with_result (popen cmd); pure (output_or_empty p)

  unfoldable pub pactl_available : Act Bool
  pactl_available = succeeds (chars "command -v pactl >/dev/null 2>&1")

  unfoldable pub available : Act Bool
  unfolding pactl_available
  available = pactl_available

  unfoldable pub pids_playing_audio : Act (List ℤ)
  unfolding pactl_available run_and_capture parse_sink_inputs
  pids_playing_audio = do
    found ← pactl_available
    if found
        then (do
          output ← run_and_capture (chars "pactl list sink-inputs 2>/dev/null")
          pure (parse_sink_inputs output))
        else pure []
