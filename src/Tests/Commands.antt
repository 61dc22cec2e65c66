-- ===== src/Tests/Commands.antt =====
-- Runs of the commands of cli/src/main.cpp, on files in memory.
use betterconn.Prelude.{◌≡◌, refl, true, false, List, [], ◌∷◌, Text, some}
use betterconn.Arguments.{parse_start, no_start_options}
use betterconn.CommandLine.{Host, main, start, stop}
use betterconn.CommandLine.Consent.{declined, OnlyAsks}
use betterconn.CommandLine.Guards.{main-unprivileged}
use betterconn.Arguments.Written.{
  StartOption, skip_warning, interface, written, asked, parse_start-written,
}
use betterconn.Double.Fixed.{fixed}
use betterconn.Os.Memory.{Memory, memory}
use betterconn.Text.{chars}
use betterconn.Tuner.Flag.{tuner, survey_monitor, priority_scheduler}

-- A user who answers no, with and without root privileges
abbrev root : Host memory
root = record {
  is_root = λ w. true;
  read_line = λ w. (chars "n", record w { commands = chars "n" ∷ w.commands });
  pause = λ w. w;
  g_stop = λ w. true;
  seconds = 1;
  turns_before = [];
  own_turns = [];
  monitor_turns = [];
  scheduler_turns = [];
  until_joined = λ w. w;
}

abbrev user : Host memory
user = record {
  is_root = λ w. false;
  read_line = λ w. (chars "n", w);
  pause = λ w. w;
  g_stop = λ w. true;
  seconds = 1;
  turns_before = [];
  own_turns = [];
  monitor_turns = [];
  scheduler_turns = [];
  until_joined = λ w. w;
}

abbrev machine : Memory
machine = record { files = []; commands = [] }

abbrev active : Memory
active = record { files = (chars "/var/lib/.betterconn/state", chars "active") ∷ []; commands = [] }

abbrev arguments : List Text
arguments = chars "start" ∷ chars "--skip-warning" ∷ []

main-unprivileged_example : (main user arguments machine).1 ≡ machine
main-unprivileged_example = main-unprivileged user arguments machine refl

declined_example :
    OnlyAsks root active (start root (chars "--interface" ∷ chars "eth0" ∷ []) active).1
    × OnlyAsks root active (stop root active).1
unfolding chars
declined_example = declined root (chars "--interface" ∷ chars "eth0" ∷ []) active refl refl

-- A daemon that gets its signal at once, on a machine where the program is active
abbrev served : Host memory
served = record {
  is_root = λ w. true;
  read_line = λ w. ([], w);
  pause = λ w. w;
  g_stop = λ w. true;
  seconds = 1;
  turns_before = (tuner, 2) ∷ [];
  own_turns =
      (tuner, 0)
      ∷ (tuner, 1)
      ∷ (tuner, 2)
      ∷ (tuner, 3)
      ∷ (tuner, 4)
      ∷ (tuner, 0)
      ∷ (tuner, 1)
      ∷ (tuner, 2)
      ∷ (tuner, 3)
      ∷ (tuner, 4)
      ∷ [];
  monitor_turns = (survey_monitor, 0) ∷ (survey_monitor, 0) ∷ [];
  scheduler_turns = (priority_scheduler, 0) ∷ (priority_scheduler, 0) ∷ [];
  until_joined = λ w. w;
}

abbrev options : List StartOption
options = interface (chars "eth0") ∷ skip_warning ∷ interface (chars "wlan0") ∷ []

parse_start-written_example :
    parse_start (written options) no_start_options ≡ some (asked options no_start_options)
parse_start-written_example = parse_start-written options no_start_options
