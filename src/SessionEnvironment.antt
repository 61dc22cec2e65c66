-- ===== src/SessionEnvironment.antt =====
-- core/src/session_environment.cpp: the desktop session found in the environments of the running
-- processes, and the shell prefix that hands it to a command.
pub mod Quoting
use betterconn.Prelude.{
  ℕ, Bool, true, false, not, ◌&&◌, ◌||◌, Option, none, some, List, [], ◌∷◌, ◌++◌, Text,
  if◌then◌else◌, ◌==◌, drop, length,
}
use betterconn.Io.{◌>>=◌, pure}
use betterconn.Os.{Os}
use betterconn.Text.{chars, is_empty, is_digit, starts_with}

pub record GraphicalSession : Type 0 where
  pub valid : Bool
  pub display : Text
  pub xauthority : Text
  pub wayland_display : Text
  pub xdg_runtime_dir : Text
  pub sway_sock : Text
  pub hyprland_instance_signature : Text

abbrev pub no_session : GraphicalSession
no_session = record {
  valid = false;
  display = [];
  xauthority = [];
  wayland_display = [];
  xdg_runtime_dir = [];
  sway_sock = [];
  hyprland_instance_signature = [];
}

abbrev all_digits : Text → Bool
all_digits [] = true
all_digits (c ∷ s) = is_digit c && all_digits s

unfoldable pub looks_like_pid_directory : Text → Bool
looks_like_pid_directory name = not (is_empty name) && all_digits name

-- `if (!entry.empty()) entries.push_back(entry)`
abbrev push_entry : Text → List Text → List Text
push_entry [] entries = entries
push_entry (c ∷ s) entries = entries ++ (c ∷ s) ∷ []

-- The loop over the bytes; NUL ends an entry.
unfoldable pub environ_entries_from : Text → List Text → Text → List Text
environ_entries_from entry entries [] = push_entry entry entries
environ_entries_from entry entries (c ∷ s) = elim (c == 0) [
  | true ↦ environ_entries_from [] (push_entry entry entries) s
  | false ↦ environ_entries_from (entry ++ c ∷ []) entries s
]

unfoldable pub environ_entries : Text → List Text
unfolding environ_entries_from
environ_entries content = environ_entries_from [] [] content

unfoldable pub value_for : List Text → Text → Text
unfolding starts_with
value_for [] key = []
value_for (entry ∷ rest) key =
    let prefix = key ++ b'=' ∷ [] in
    let later = value_for rest key in
    if starts_with prefix entry then drop (length prefix) entry else later

unfoldable pub session_is_usable : GraphicalSession → Bool
session_is_usable s =
    if not (is_empty s.display) && not (is_empty s.xauthority)
    then true
    else if not (is_empty s.wayland_display) && not (is_empty s.xdg_runtime_dir)
    then true
    else false

-- What one byte of a value becomes between the quotes.
unfoldable pub quoted_byte : ℕ → Text
quoted_byte c = if c == b'\'' then b'\'' ∷ b'\\' ∷ b'\'' ∷ b'\'' ∷ [] else c ∷ []

unfoldable pub quoted_bytes : Text → Text
unfolding quoted_byte
quoted_bytes [] = []
quoted_bytes (c ∷ s) = quoted_byte c ++ quoted_bytes s

-- `append_shell_quoted`: what is appended
unfoldable pub shell_quoted : Text → Text
unfolding quoted_bytes
shell_quoted value = b'\'' ∷ (quoted_bytes value ++ b'\'' ∷ [])

-- `append_assignment`: what is appended
unfoldable pub assignment : Text → Text → Text
unfolding shell_quoted
assignment key value =
    if is_empty value then [] else key ++ (b'=' ∷ (shell_quoted value ++ b' ' ∷ []))

unfoldable pub command_prefix : GraphicalSession → Text
unfolding assignment
command_prefix s =
    if not s.valid
    then []
    else assignment (chars "DISPLAY") s.display
      ++ (assignment (chars "XAUTHORITY") s.xauthority
          ++ (assignment (chars "WAYLAND_DISPLAY") s.wayland_display
              ++ (assignment (chars "XDG_RUNTIME_DIR") s.xdg_runtime_dir
                  ++ (assignment (chars "SWAYSOCK") s.sway_sock
                      ++ assignment (chars "HYPRLAND_INSTANCE_SIGNATURE")
                          s.hyprland_instance_signature))))

module _ ⦃os : Os⦄ where
  open os use {World, read_file, exists, list_dir}

  abbrev content_entries : Option Text → List Text
  unfolding environ_entries
  content_entries none = []
  content_entries (some content) = environ_entries content

  unfoldable pub read_environ_entries : Text → World → List Text
  unfolding environ_entries
  read_environ_entries path w = content_entries (read_file path w)

  unfoldable pub default_cookie : Text → World → Text
  default_cookie home w =
      if not (is_empty home) && exists (home ++ chars "/.Xauthority") w
      then home ++ chars "/.Xauthority"
      else []

  -- The candidate that one process's variables make, before it is known to be usable.
  unfoldable pub candidate_session : List Text → World → GraphicalSession
  unfolding value_for default_cookie
  candidate_session variables w =
      let display = value_for variables (chars "DISPLAY") in
      let xauthority = value_for variables (chars "XAUTHORITY") in
      record {
        valid = true;
        display = display;
        xauthority =
            (if not (is_empty display) && is_empty xauthority
              then default_cookie (value_for variables (chars "HOME")) w
              else xauthority);
        wayland_display = value_for variables (chars "WAYLAND_DISPLAY");
        xdg_runtime_dir = value_for variables (chars "XDG_RUNTIME_DIR");
        sway_sock = value_for variables (chars "SWAYSOCK");
        hyprland_instance_signature = value_for variables (chars "HYPRLAND_INSTANCE_SIGNATURE");
      }

  -- A usable candidate of one directory of /proc.
  unfoldable pub session_of : Text → World → Option GraphicalSession
  unfolding looks_like_pid_directory read_environ_entries candidate_session session_is_usable
  session_of name w =
      let variables = read_environ_entries (chars "/proc/" ++ (name ++ chars "/environ")) w in
      let candidate = candidate_session variables w in
      if looks_like_pid_directory name && not (is_empty variables) && session_is_usable candidate
      then some candidate
      else none

  abbrev has_compositor_socket : GraphicalSession → Bool
  has_compositor_socket s =
      not (is_empty s.sway_sock) || not (is_empty s.hyprland_instance_signature)

  -- The loop over the directory, on the best candidate so far
  unfoldable pub detect_from : List Text → GraphicalSession → World → GraphicalSession
  unfolding session_of
  detect_from [] best w = best
  detect_from (name ∷ rest) best w = elim (session_of name w) [
    | none ↦ detect_from rest best w
    | some candidate ↦ elim (has_compositor_socket candidate) [
      | true ↦ candidate
      | false ↦ detect_from rest (if best.valid then best else candidate) w
    ]
  ]

  unfoldable pub detect : World → GraphicalSession
  unfolding detect_from
  detect w = detect_from (list_dir (chars "/proc") w) no_session w
