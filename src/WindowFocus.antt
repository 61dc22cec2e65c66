-- ===== src/WindowFocus.antt =====
-- core/src/window_focus_backend.cpp: which process has the focus or the cursor, by the backend
-- that the session offers. What the commands print is read in the children.
pub mod Fields
pub mod Sway
pub mod Hyprland
use betterconn.Prelude.{Bool, true, false, Option, none, some, List, [], ◌++◌, Text, if◌then◌else◌}
use betterconn.Prelude.Int.{ℤ, is_pos, minus_one}
use betterconn.Io.{◌>>=◌, pure}
use betterconn.Os.{Os, Act, succeeds, with_result}
use betterconn.Text.{chars}
use betterconn.Text.Decimal.{to_string_ℤ}
use betterconn.WindowFocus.Fields.{captured_pid, parse_shell_field, or_minus_one}
use betterconn.WindowFocus.Hyprland.{pid_at_cursor}
use betterconn.WindowFocus.Sway.{focused_pid_sway}
use betterconn.Text.{is_empty}

-- The backends; `none` of the source is `no_backend`.
pub data WindowFocusBackend : Type 0 where
  no_backend x11_xdotool wayland_sway wayland_hyprland : WindowFocusBackend

module _ ⦃os : Os⦄ where
  open os use {popen}

  abbrev output_or_empty : Option Text → Text
  output_or_empty none = []
  output_or_empty (some out) = out

  unfoldable pub run_and_capture : Text → Act Text
  run_and_capture command = do p ← with_result (popen command); pure (output_or_empty p)

  unfoldable pub xdotool_available : Act Bool
  xdotool_available = succeeds (chars "command -v xdotool >/dev/null 2>&1")

  unfoldable pub swaymsg_available : Text → Act Bool
  swaymsg_available env_prefix = do
    found ← succeeds (chars "command -v swaymsg >/dev/null 2>&1")
    if found
        then succeeds (env_prefix ++ chars "swaymsg -t get_version >/dev/null 2>&1")
        else pure false

  unfoldable pub hyprctl_available : Text → Act Bool
  hyprctl_available env_prefix = do
    found ← succeeds (chars "command -v hyprctl >/dev/null 2>&1")
    if found then succeeds (env_prefix ++ chars "hyprctl version >/dev/null 2>&1") else pure false

  unfoldable pub run_and_capture_pid : Text → Text → Act ℤ
  unfolding run_and_capture captured_pid
  run_and_capture_pid command anchor_key = do
    output ← run_and_capture command
    pure (or_minus_one (captured_pid output anchor_key))

  unfoldable pub get_focused_pid_x11 : Text → Act ℤ
  unfolding run_and_capture_pid
  get_focused_pid_x11 env_prefix =
      run_and_capture_pid (env_prefix ++ chars "xdotool getactivewindow getwindowpid 2>/dev/null")
        []

  unfoldable pub get_focused_pid_sway : Text → Act ℤ
  unfolding run_and_capture focused_pid_sway
  get_focused_pid_sway env_prefix = do
    output ← run_and_capture (env_prefix ++ chars "swaymsg -r -t get_tree 2>/dev/null")
    pure (if is_empty output then minus_one else focused_pid_sway output)

  unfoldable pub get_focused_pid_hyprland : Text → Act ℤ
  unfolding run_and_capture_pid
  get_focused_pid_hyprland env_prefix =
      run_and_capture_pid (env_prefix ++ chars "hyprctl activewindow -j 2>/dev/null")
        (chars "\"pid\":")

  -- The window under the pointer, if its number is there and positive.
  abbrev usable_window : Option ℤ → Option ℤ
  usable_window none = none
  usable_window (some w) = if is_pos w then some w else none

  unfoldable pub get_pid_under_cursor_x11 : Text → Act ℤ
  unfolding run_and_capture run_and_capture_pid parse_shell_field
  get_pid_under_cursor_x11 env_prefix = do
    output ← run_and_capture (env_prefix ++ chars "xdotool getmouselocation --shell 2>/dev/null")
    elim (usable_window (parse_shell_field output (chars "WINDOW="))) [
      | none ↦ pure minus_one
      | some window_id ↦
          run_and_capture_pid
            (env_prefix
              ++ (chars "xdotool getwindowpid " ++ (to_string_ℤ window_id ++ chars " 2>/dev/null")))
            []
    ]

  -- The cursor's position is read before the clients are asked for.
  unfoldable pub get_pid_under_cursor_hyprland : Text → Act ℤ
  unfolding run_and_capture pid_at_cursor parse_shell_field
  get_pid_under_cursor_hyprland env_prefix = do
    cursor_output ← run_and_capture (env_prefix ++ chars "hyprctl cursorpos -j 2>/dev/null")
    elim (parse_shell_field cursor_output (chars "\"x\":")) [
      | none ↦ pure minus_one
      | some x ↦ elim (parse_shell_field cursor_output (chars "\"y\":")) [
        | none ↦ pure minus_one
        | some y ↦ (do
          clients ← run_and_capture (env_prefix ++ chars "hyprctl clients -j 2>/dev/null")
          pure (pid_at_cursor x y clients))
      ]
    ]

  unfoldable pub detect_available_backend : Text → Act WindowFocusBackend
  unfolding xdotool_available swaymsg_available hyprctl_available get_focused_pid_x11
  detect_available_backend env_prefix = do
    xdotool ← xdotool_available
    focused ← (if xdotool then get_focused_pid_x11 env_prefix else pure minus_one)
    sway ← (if is_pos focused then pure false else swaymsg_available env_prefix)
    hyprland ←
        (if is_pos focused
          then pure false
          else if sway
          then pure false
          else hyprctl_available env_prefix)
    pure (
        if is_pos focused
        then WindowFocusBackend.x11_xdotool
        else if sway
        then WindowFocusBackend.wayland_sway
        else if hyprland
        then WindowFocusBackend.wayland_hyprland
        else WindowFocusBackend.no_backend)

  unfoldable pub get_focused_pid : WindowFocusBackend → Text → Act ℤ
  unfolding get_focused_pid_x11 get_focused_pid_sway get_focused_pid_hyprland
  get_focused_pid WindowFocusBackend.x11_xdotool env_prefix = get_focused_pid_x11 env_prefix
  get_focused_pid WindowFocusBackend.wayland_sway env_prefix = get_focused_pid_sway env_prefix
  get_focused_pid WindowFocusBackend.wayland_hyprland env_prefix =
      get_focused_pid_hyprland env_prefix
  get_focused_pid WindowFocusBackend.no_backend env_prefix = pure minus_one

  unfoldable pub get_pid_under_cursor : WindowFocusBackend → Text → Act ℤ
  unfolding get_pid_under_cursor_x11 get_pid_under_cursor_hyprland get_focused_pid_sway
  get_pid_under_cursor WindowFocusBackend.x11_xdotool env_prefix =
      get_pid_under_cursor_x11 env_prefix
  get_pid_under_cursor WindowFocusBackend.wayland_hyprland env_prefix =
      get_pid_under_cursor_hyprland env_prefix
  get_pid_under_cursor WindowFocusBackend.wayland_sway env_prefix = get_focused_pid_sway env_prefix
  get_pid_under_cursor WindowFocusBackend.no_backend env_prefix = pure minus_one
