-- ===== src/Status.antt =====
-- core/src/status.cpp: what the program reports of its state and of the connection. A report stands
-- for the lines that are printed; the digits and colours of its numbers are left out.
use betterconn.Prelude.{
  ◌+◌, ◌-◌, ◌%◌, ◌^◌, ◌==◌, Bool, false, ◌&&◌, ◌||◌, Option, none, some, List, [], ◌∷◌, ◌++◌, Text,
  text_eq, if◌then◌else◌,
}
use betterconn.Double.{Double, minus_one_real}
use betterconn.Io.{◌>>=◌, pure}
use betterconn.Optimizer.Interface.{default_route, without_heading}
use betterconn.Os.{Os, Act, ask, with_result}
use betterconn.Storage.{load, saved}
use betterconn.SystemDefaults.{sysctl_path}
use betterconn.Text.{chars, is_empty}
use betterconn.Text.Lines.{lines, first_line, words}
use betterconn.Tuner.Counters.{read_iface_rx, read_iface_tx}
use betterconn.Tuner.Rtt.{ping_rtt}

abbrev unknown : Text
unknown = chars "unknown"

unfoldable pub first_or_unknown : List Text → Text
unfolding default_route words
first_or_unknown [] = unknown
first_or_unknown (line ∷ rest) = elim (default_route (words line)) [
  | none ↦ first_or_unknown rest
  | some iface ↦ iface
]

-- `pop_back` while the text ends in a newline, a return or a space
unfoldable pub trim_end : Text → Text
trim_end [] = []
trim_end (c ∷ s) =
    let rest = trim_end s in
    if is_empty rest && (c == b'\n' || (c == b'\r' || c == b' ')) then [] else c ∷ rest

abbrev or_auto : Text → Text
or_auto value = if is_empty value then chars "auto" else value

abbrev first_line_or_na : Option Text → Text
first_line_or_na none = chars "n/a"
first_line_or_na (some content) = first_line content

-- The parameters of the report, in its order
unfoldable pub reported_keys : List Text
reported_keys =
    chars "net.ipv4.tcp_congestion_control"
    ∷ chars "net.core.default_qdisc"
    ∷ chars "net.ipv4.tcp_ecn"
    ∷ chars "net.ipv4.tcp_fastopen"
    ∷ chars "net.ipv4.tcp_autocorking"
    ∷ chars "net.core.rmem_max"
    ∷ chars "net.core.wmem_max"
    ∷ chars "net.core.rmem_default"
    ∷ chars "net.core.wmem_default"
    ∷ chars "net.ipv4.tcp_fin_timeout"
    ∷ chars "net.ipv4.tcp_slow_start_after_idle"
    ∷ chars "net.ipv4.tcp_keepalive_time"
    ∷ chars "net.ipv4.tcp_keepalive_intvl"
    ∷ chars "net.ipv4.tcp_keepalive_probes"
    ∷ []

module _ ⦃d : Double⦄ where
  open d use {Real, lt, le, mul, div, of_ℕ}

  -- A rate with its unit
  unfoldable pub fmt_speed : Real → Real × Text
  fmt_speed bytes =
      if le (of_ℕ 1048576) bytes
      then (div bytes (of_ℕ 1048576), chars " MB/s")
      else if le (of_ℕ 1024) bytes
      then (div bytes (of_ℕ 1024), chars " KB/s")
      else (bytes, chars " B/s")

  pub record Report : Type 0 where
    pub active : Bool
    pub iface : Text
    pub profile : Text
    -- the download and the upload, of a known interface
    pub speed : Option ((Real × Text) × (Real × Text))
    pub ping : Real
    pub settings : List (Text × Text)

  module _ ⦃os : Os⦄ where
    open os use {World, read_file, popen}

    unfoldable pub detect_interface : World → Text
    unfolding first_or_unknown lines
    detect_interface w = elim (read_file (chars "/proc/net/route") w) [
      | none ↦ unknown
      | some content ↦ first_or_unknown (without_heading (lines content))
    ]

    unfoldable pub active_profile : Act Text
    unfolding saved load trim_end
    active_profile = do
      present ← ask (saved (chars "profile"))
      if present
          then (do value ← load (chars "profile"); pure (or_auto (trim_end value)))
          else pure (chars "auto")

    -- From the machine before and the one after the sleep
    unfoldable pub measure_speed : Text → World → World → Real × Real
    unfolding read_iface_rx read_iface_tx
    measure_speed iface w v = (
      of_ℕ ((read_iface_rx iface v + 2 ^ 64 - read_iface_rx iface w) % 2 ^ 64),
      of_ℕ ((read_iface_tx iface v + 2 ^ 64 - read_iface_tx iface w) % 2 ^ 64),
    )

    abbrev answered : Option Text → Real
    answered none = minus_one_real
    answered (some output) = ping_rtt output

    unfoldable pub measure_ping : Text → Act Real
    unfolding ping_rtt
    measure_ping host = do
      printed ←
          with_result (popen (chars "ping -c 3 -i 0.2 -W 2 " ++ (host ++ chars " 2>/dev/null")))
      pure (answered printed)

    unfoldable pub read_sysctl : Text → World → Text
    unfolding sysctl_path first_line
    read_sysctl key w = first_line_or_na (read_file (sysctl_path key) w)

    unfoldable pub settings_of : List Text → World → List (Text × Text)
    unfolding read_sysctl
    settings_of [] w = []
    settings_of (key ∷ rest) w = (key, read_sysctl key w) ∷ settings_of rest w

    -- The speeds over a pause, which is what happens to the machine in a second
    unfoldable pub speeds : (World → World) → Text → Act (Option ((Real × Text) × (Real × Text)))
    unfolding measure_speed fmt_speed
    speeds pause iface = if text_eq iface unknown then pure none else (do
      measured ← with_result (λ w. (measure_speed iface w (pause w), pause w))
      pure (some (fmt_speed measured.0, fmt_speed measured.1)))

    unfoldable pub state_is_active : Act Bool
    unfolding saved load
    state_is_active = do
      present ← ask (saved (chars "state"))
      if present
          then (do state ← load (chars "state"); pure (text_eq state (chars "active")))
          else pure false

    -- `print`
    unfoldable pub report : (World → World) → Act Report
    unfolding state_is_active detect_interface active_profile speeds measure_ping settings_of
        reported_keys
    report pause = do
      active ← state_is_active
      iface ← ask detect_interface
      profile ← active_profile
      speed ← speeds pause iface
      ping ← measure_ping (chars "8.8.8.8")
      settings ← ask (settings_of reported_keys)
      pure (record {
        active = active;
        iface = iface;
        profile = profile;
        speed = speed;
        ping = ping;
        settings = settings;
      })
