-- ===== src/CommandLine.antt =====
-- cli/src/main.cpp: the commands of the program, with the status that the process ends with. The
-- messages are left out; a report is asked for and not looked at.
pub mod Consent
pub mod Daemon
pub mod Guards
use betterconn.Prelude.{
  ℕ, zero, suc, Bool, true, false, not, ◌&&◌, ◌||◌, Option, none, some, List, [], ◌∷◌, ◌++◌, Text,
  text_eq, map, if◌then◌else◌,
}
use betterconn.Io.{Io, Result, ok, throw, ◌>>=◌, ◌>>◌, pure, skip, Done, when}
use betterconn.Arguments.{
  StartOptions, NetworkOptions, parse_start, parse_network, no_start_options, no_network_options,
}
use betterconn.Cleaner.{clean}
use betterconn.NetworkInfo.{force_network_on, force_network_off, info, secrets}
use betterconn.Optimizer.Interface.{first_default, without_heading}
use betterconn.Optimizer.Lifecycle.{apply, revert, is_active}
use betterconn.Os.{Os, Act, ask, change, run, with_result}
use betterconn.Double.{Double}
use betterconn.Status.{report}
use betterconn.Storage.{save, load, saved}
use betterconn.Text.{chars, is_empty, lower}
use betterconn.Text.Lines.{lines}
use betterconn.Tuner.Flag as Flag

-- What the process asks of its surroundings
pub record Host (os : Os) : Type 0 where
  -- `geteuid() == 0`
  pub is_root : os.World → Bool
  -- `std::getline(std::cin, input)`
  pub read_line : os.World → Text × os.World
  -- the machine a second later
  pub pause : os.World → os.World
  -- `g_stop`, which the handler of the signals sets
  pub g_stop : os.World → Bool
  -- how many seconds of the daemon are looked at
  pub seconds : ℕ
  -- the turns of the daemon's threads in these seconds, and while each join waits
  pub turns_before : List Flag.Turn
  pub own_turns : List Flag.Turn
  pub monitor_turns : List Flag.Turn
  pub scheduler_turns : List Flag.Turn
  -- the machine once the joins have returned
  pub until_joined : os.World → os.World

-- How the process stands: over with a status, or still running behind the seconds and the turns
-- that are looked at
pub data Exit : Type 0 where
  exited : ℕ → Exit
  still_running : Exit

abbrev pub exit_with : Result ℕ → Result Exit
exit_with (ok status) = ok (exited status)
exit_with (throw message) = throw message

abbrev pub joined_exit : Option Flag.Tuner → Exit
joined_exit none = still_running
joined_exit (some tuner) = exited 0

unfoldable pub consents : Text → Bool
consents input =
    let answer = map lower input in text_eq answer (chars "y") || text_eq answer (chars "yes")

abbrev first_but_lo : List Text → Text
first_but_lo [] = []
first_but_lo (name ∷ rest) =
    let later = first_but_lo rest in if text_eq name (chars "lo") then later else name

-- `catch (const std::exception&)`
abbrev pub caught : {W : Type 0} → Io W Exit → Io W Exit
caught m w = let (r, v) = m w in (elim r [ ok exit ↦ ok exit | throw message ↦ ok (exited 1) ], v)

-- A command that ends by itself
abbrev pub ending : {W : Type 0} → Io W ℕ → Io W Exit
ending m w = let (r, v) = m w in (exit_with r, v)

abbrev pub is_help : Text → Bool
is_help arg =
    (text_eq arg (chars "-h") || text_eq arg (chars "--help"))
    || (text_eq arg (chars "-v") || text_eq arg (chars "--version"))

module _ ⦃d : Double⦄ ⦃os : Os⦄ (host : Host os) where
  open os use {World, read_file, exists, list_dir}
  open host use {
    is_root, read_line, pause, g_stop, seconds, turns_before, own_turns, monitor_turns,
    scheduler_turns, until_joined,
  }

  -- `require_root`, which ends the process
  abbrev pub as_root : Act ℕ → Act ℕ
  as_root body = do root ← ask is_root; if root then body else pure 1

  unfoldable pub detect_default_interface : World → Text
  unfolding first_default lines
  detect_default_interface w = elim (read_file (chars "/proc/net/route") w) [
    | none ↦ []
    | some content ↦ first_default (without_heading (lines content))
  ]

  unfoldable pub find_fallback_interface : World → Text
  find_fallback_interface w =
      if exists (chars "/sys/class/net") w
      then first_but_lo (list_dir (chars "/sys/class/net") w)
      else []

  abbrev has_radio : Text → World → Bool
  has_radio name w = exists (chars "/sys/class/net/" ++ (name ++ chars "/phy80211")) w

  unfoldable pub reboot_with_countdown : Act Done
  reboot_with_countdown = run (chars "systemctl reboot")

  -- The question behind the warning
  unfoldable pub confirm : Act Bool
  unfolding consents
  confirm = do input ← with_result read_line; pure (consents input)

  unfoldable pub start_with : StartOptions → Act ℕ
  unfolding confirm apply report reboot_with_countdown
  start_with o = do
    agreed ← (if o.skip_warning then pure true else confirm)
    if agreed
        then (do apply o.iface; shown ← report pause; reboot_with_countdown; pure 0)
        else pure 0

  unfoldable pub start : List Text → Act ℕ
  unfolding is_active parse_start start_with no_start_options
  start args = as_root (do
    active ← is_active
    if active
        then pure 1
        else elim (parse_start args no_start_options) [ none ↦ pure 1 | some o ↦ start_with o ])

  unfoldable pub stop : Act ℕ
  unfolding is_active confirm revert clean reboot_with_countdown
  stop = as_root (do
    active ← is_active
    if active
        then (do
          agreed ← confirm
          if agreed then (do revert; clean; reboot_with_countdown; pure 0) else pure 0)
        else pure 1)

  unfoldable pub status : Act ℕ
  unfolding report
  status = as_root (do shown ← report pause; pure 0)

  -- The interfaces that `list` prints, each with whether it is the default one and a radio, or
  -- nothing where they cannot be read
  unfoldable pub listed : World → Option (List (Text × (Bool × Bool)))
  unfolding detect_default_interface
  listed w =
      if exists (chars "/sys/class/net") w
      then some (
          map (λ name. (name, (text_eq name (detect_default_interface w), has_radio name w)))
            (list_dir (chars "/sys/class/net") w))
      else none

  unfoldable pub list : Act ℕ
  unfolding listed
  list = do shown ← ask listed; pure 0

  unfoldable pub clean_up : Act ℕ
  unfolding is_active clean
  clean_up = as_root (do active ← is_active; if active then pure 1 else (do clean; pure 0))

  -- The contents of a name, or nothing
  abbrev load_or_nothing : Text → Act Text
  load_or_nothing name = do present ← ask (saved name); if present then load name else pure []

  -- `while (!g_stop) sleep(1)`, for a number of seconds: whether the signal came
  unfoldable pub wait_for_signal : ℕ → Act Bool
  wait_for_signal zero = ask g_stop
  wait_for_signal (suc n) =
      let later = change pause >> wait_for_signal n in
      do stopped ← ask g_stop; if stopped then pure true else later

  -- `tuner.stop()` behind the loop
  unfoldable pub stop_tuner : Flag.Tuner → Act Exit
  unfolding Flag.run_turns Flag.stop
  stop_tuner tuner = do
    change until_joined
    pure (
        joined_exit
          (Flag.stop own_turns monitor_turns scheduler_turns (Flag.run_turns turns_before tuner)))

  unfoldable pub run_daemon : Act Exit
  unfolding saved load Flag.start wait_for_signal stop_tuner
  run_daemon = do
    state ← load_or_nothing (chars "state")
    if text_eq state (chars "active")
        then (do
          iface ← load_or_nothing (chars "iface")
          tuner ← Flag.start iface
          stopped ← wait_for_signal seconds
          if stopped then stop_tuner tuner else pure still_running)
        else pure (exited 1)

  unfoldable pub daemon : Act Exit
  unfolding run_daemon
  daemon = do root ← ask is_root; if root then run_daemon else pure (exited 1)

  -- The interface that `network --interface on` brings up
  unfoldable pub interface_to_raise : Text → Act Text
  unfolding saved load find_fallback_interface
  interface_to_raise found = do
    known ← (if is_empty found then load_or_nothing (chars "network_toggle_iface") else pure found)
    fallback ← ask find_fallback_interface
    pure (if is_empty known then fallback else known)

  unfoldable pub toggle_network : Bool → Text → Act Done
  unfolding interface_to_raise force_network_on force_network_off save
  toggle_network true found = do
    iface ← interface_to_raise found
    confirmed ← force_network_on iface
    when (not (is_empty iface)) (save (chars "network_toggle_iface") iface)
  toggle_network false found = do
    when (not (is_empty found)) (save (chars "network_toggle_iface") found)
    force_network_off found

  abbrev pub toggled : Option Bool → Bool → Text → Act ℕ
  toggled none show_secrets iface =
      if show_secrets then (do shown ← secrets iface; pure 0) else (do shown ← info iface; pure 0)
  toggled (some on) show_secrets iface = do toggle_network on iface; pure 0

  abbrev pub network_with : Option NetworkOptions → Act ℕ
  network_with none = pure 1
  network_with (some o) =
      if o.show_help
      then pure 0
      else as_root (do iface ← ask detect_default_interface; toggled o.toggle o.show_secrets iface)

  unfoldable pub network : List Text → Act ℕ
  unfolding parse_network no_network_options detect_default_interface toggle_network info secrets
  network args = network_with (parse_network args no_network_options)

  -- The commands that `main` tells apart, behind the options for help and the version
  unfoldable pub command : Text → List Text → Act Exit
  unfolding start stop status list clean_up daemon network
  command cmd args =
      if text_eq cmd (chars "start")
      then ending (start args)
      else if text_eq cmd (chars "stop")
      then ending stop
      else if text_eq cmd (chars "status")
      then ending status
      else if text_eq cmd (chars "list")
      then ending list
      else if text_eq cmd (chars "clean")
      then ending clean_up
      else if text_eq cmd (chars "daemon")
      then daemon
      else if text_eq cmd (chars "network")
      then ending (network args)
      else pure (exited 1)

  -- `main`, on the arguments behind the name of the program
  unfoldable pub main : List Text → Act Exit
  unfolding command
  main [] = pure (exited 0)
  main (cmd ∷ []) = if is_help cmd then pure (exited 0) else caught (command cmd [])
  main (cmd ∷ arg ∷ rest) = caught (command cmd (arg ∷ rest))
