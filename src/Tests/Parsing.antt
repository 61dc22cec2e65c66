-- ===== src/Tests/Parsing.antt =====
-- Runs of the readers of other programs' output (core/src/audio_activity_monitor.cpp and
-- core/src/window_focus_backend.cpp) and of the quoting for the shell
-- (core/src/session_environment.cpp).
use betterconn.Prelude.{true, [], ◌≡◌, ◌⊎◌, refl, All, Text}
use betterconn.Prelude.Int.{pos, is_pos, minus_one}
use betterconn.AudioActivityMonitor.Parse.{parse_sink_inputs, parse_sink_inputs_positive}
use betterconn.SessionEnvironment.{GraphicalSession, command_prefix}
use betterconn.SessionEnvironment.Quoting.{Reader, read_bytes, session_words, read_command_prefix}
use betterconn.Text.{chars}
use betterconn.WindowFocus.Hyprland.{scan_clients, IsClientAt, scan_clients_lem}

abbrev listing : Text
listing = chars "Sink Input #12\n\tCorked: no\n\t\tapplication.process.id = \"4321\"\n"

parse_sink_inputs_positive_example : All (λ pid. is_pos pid ≡ true) (parse_sink_inputs listing)
parse_sink_inputs_positive_example = parse_sink_inputs_positive listing

abbrev tree : Text
tree = chars "{\"pid\": 77, \"focused\": true}"

abbrev clients : Text
clients = chars "[{\"at\": [0, 0], \"size\": [10, 10], \"pid\": 55}]"

scan_clients_lem_example : (pos 55 ≡ minus_one) ⊎ IsClientAt (pos 5) (pos 5) clients (pos 55)
unfolding scan_clients chars
scan_clients_lem_example = scan_clients_lem (pos 5) (pos 5) clients (pos 55) refl

abbrev session : GraphicalSession
session = record {
  valid = true;
  display = chars ":0; echo 'x'";
  xauthority = chars "/run/user/1000/$x";
  wayland_display = [];
  xdg_runtime_dir = [];
  sway_sock = [];
  hyprland_instance_signature = [];
}

read_command_prefix_example :
    read_bytes (Reader.between []) (command_prefix session) ≡ Reader.between (session_words session)
read_command_prefix_example = read_command_prefix session
