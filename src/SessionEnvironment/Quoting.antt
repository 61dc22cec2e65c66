-- ===== src/SessionEnvironment/Quoting.antt =====
-- The prefix as a shell reads it. The reader below follows the quoting rules of POSIX (Shell
-- Command Language, 2.2): between single quotes every byte stands for itself, and a backslash
-- outside quotes preserves the next byte. Any other byte that is not a letter, a digit, `_`, `=`
-- or a blank between words makes it refuse, since such a byte may start an operator or an
-- expansion.
use betterconn.Prelude.{
  ℕ, ◌≡◌, refl, ap, ◌∙◌, Bool, true, false, not, ◌&&◌, ◌||◌, List, [], ◌∷◌, ◌++◌, Text,
  if◌then◌else◌, ◌==◌, arith, append_assoc, append-nil, Bool-cases, inl, inr,
}
use betterconn.Text.{chars, is_alpha, is_digit}
use betterconn.SessionEnvironment.{
  GraphicalSession, quoted_byte, quoted_bytes, shell_quoted, assignment, command_prefix,
}

-- Words read so far, and the current one.
pub data Reader : Type 0 where
  between : List Text → Reader
  plain quoted escaped : List Text → Text → Reader
  refused : Reader

abbrev pub is_plain : ℕ → Bool
is_plain c = is_alpha c || is_digit c || c == b'_' || c == b'='

unfoldable pub read_byte : Reader → ℕ → Reader
read_byte (between ws) c =
    if c == b' '
    then between ws
    else if c == b'\''
    then quoted ws []
    else if c == b'\\'
    then escaped ws []
    else if is_plain c
    then plain ws (c ∷ [])
    else refused
read_byte (plain ws word) c =
    if c == b' '
    then between (ws ++ word ∷ [])
    else if c == b'\''
    then quoted ws word
    else if c == b'\\'
    then escaped ws word
    else if is_plain c
    then plain ws (word ++ c ∷ [])
    else refused
read_byte (quoted ws word) c = if c == b'\'' then plain ws word else quoted ws (word ++ c ∷ [])
read_byte (escaped ws word) c = plain ws (word ++ c ∷ [])
read_byte refused c = refused

unfoldable pub read_bytes : Reader → Text → Reader
unfolding read_byte
read_bytes r [] = r
read_bytes r (c ∷ s) = read_bytes (read_byte r c) s

-- The word that an assignment is, if there is one.
unfoldable pub assigned : Text → Text → List Text
assigned key [] = []
assigned key (c ∷ s) = (key ++ (b'=' ∷ (c ∷ s))) ∷ []

read_bytes-append :
    (r : Reader) (s t : Text) → read_bytes r (s ++ t) ≡ read_bytes (read_bytes r s) t
unfolding read_bytes
read_bytes-append r [] t = refl
read_bytes-append r (c ∷ s) t = read_bytes-append (read_byte r c) s t

read_quoted_byte :
    (ws : List Text) (word : Text) (c : ℕ) (rest : Text)
    → read_bytes (quoted ws word) (quoted_byte c ++ rest)
      ≡ read_bytes (quoted ws (word ++ c ∷ [])) rest
unfolding read_bytes quoted_byte
read_quoted_byte ws word c rest = ground arith

read_quoted_bytes :
    (ws : List Text) (word value rest : Text)
    → read_bytes (quoted ws word) (quoted_bytes value ++ rest)
      ≡ read_bytes (quoted ws (word ++ value)) rest
unfolding quoted_bytes
read_quoted_bytes ws word [] rest = rw append-nil
read_quoted_bytes ws word (c ∷ s) rest = rw (append_assoc (quoted_byte c) (quoted_bytes s) rest) (
    read_quoted_byte ws word c (quoted_bytes s ++ rest)
    ∙ read_quoted_bytes ws (word ++ c ∷ []) s rest
    ∙ rw (append_assoc word (c ∷ []) s))

read_shell_quoted :
    (ws : List Text) (word value rest : Text)
    → read_bytes (plain ws word) (shell_quoted value ++ rest)
      ≡ read_bytes (plain ws (word ++ value)) rest
unfolding shell_quoted
read_shell_quoted ws word value rest = rw (append_assoc (quoted_bytes value) (b'\'' ∷ []) rest) (
    opened ws word (quoted_bytes value ++ b'\'' ∷ rest)
    ∙ read_quoted_bytes ws word value (b'\'' ∷ rest)
    ∙ closed ws (word ++ value) rest)
  where
    opened :
        (ws : List Text) (word rest : Text)
        → read_bytes (plain ws word) (b'\'' ∷ rest) ≡ read_bytes (quoted ws word) rest
    opened ws word rest = unfold read_bytes in refl

    closed :
        (ws : List Text) (word rest : Text)
        → read_bytes (quoted ws word) (b'\'' ∷ rest) ≡ read_bytes (plain ws word) rest
    closed ws word rest = unfold read_bytes in refl

abbrev pub all_plain : Text → Bool
all_plain [] = true
all_plain (c ∷ s) = is_plain c && all_plain s

-- Letters, digits and `_`, and at least one.
abbrev pub is_name : Text → Bool
is_name [] = false
is_name (c ∷ s) = all_plain (c ∷ s)

read_plain :
    (ws : List Text) (word s rest : Text)
    → all_plain s ≡ true
    → read_bytes (plain ws word) (s ++ rest) ≡ read_bytes (plain ws (word ++ s)) rest
read_plain ws word [] rest h = rw append-nil
read_plain ws word (c ∷ s) rest h =
    one ws word c (s ++ rest) (ground arith)
    ∙ read_plain ws (word ++ c ∷ []) s rest (ground arith)
    ∙ rw (append_assoc word (c ∷ []) s)
  where
    one :
        (ws : List Text) (word : Text) (c : ℕ) (rest : Text)
        → is_plain c ≡ true
        → read_bytes (plain ws word) (c ∷ rest) ≡ read_bytes (plain ws (word ++ c ∷ [])) rest
    one ws word c rest h = unfold read_bytes in ground arith

read_name :
    (ws : List Text) (name rest : Text)
    → is_name name ≡ true
    → read_bytes (between ws) (name ++ rest) ≡ read_bytes (plain ws name) rest
read_name ws [] rest h = absurd (cc)
read_name ws (c ∷ s) rest h =
    one ws c (s ++ rest) (ground arith) ∙ read_plain ws (c ∷ []) s rest (ground arith)
  where
    one :
        (ws : List Text) (c : ℕ) (rest : Text)
        → is_plain c ≡ true
        → read_bytes (between ws) (c ∷ rest) ≡ read_bytes (plain ws (c ∷ [])) rest
    one ws c rest h = unfold read_bytes in ground arith

-- An assignment is read as one word, `key=value` with the very bytes of the value, and the reader
-- is between words behind it. An empty value leaves no word.
pub read_assignment :
    (ws : List Text) (key value : Text)
    → is_name key ≡ true
    → read_bytes (between ws) (assignment key value) ≡ between (ws ++ assigned key value)
unfolding assignment assigned
read_assignment ws key [] h = unfold read_bytes in rw append-nil
read_assignment ws key (c ∷ s) h =
    read_name ws key (b'=' ∷ (shell_quoted (c ∷ s) ++ b' ' ∷ [])) h
    ∙ read_plain ws key (b'=' ∷ []) (shell_quoted (c ∷ s) ++ b' ' ∷ []) refl
    ∙ read_shell_quoted ws (key ++ b'=' ∷ []) (c ∷ s) (b' ' ∷ [])
    ∙ (unfold read_bytes in rw (append_assoc key (b'=' ∷ []) (c ∷ s)))

-- The words of a session, in the order of the prefix.
unfoldable pub session_words : GraphicalSession → List Text
unfolding assigned
session_words s =
    if not s.valid
    then []
    else assigned (chars "DISPLAY") s.display
      ++ (assigned (chars "XAUTHORITY") s.xauthority
          ++ (assigned (chars "WAYLAND_DISPLAY") s.wayland_display
              ++ (assigned (chars "XDG_RUNTIME_DIR") s.xdg_runtime_dir
                  ++ (assigned (chars "SWAYSOCK") s.sway_sock
                      ++ assigned (chars "HYPRLAND_INSTANCE_SIGNATURE")
                          s.hyprland_instance_signature))))

read_more :
    (ws : List Text) (key value rest : Text) {words : List Text}
    → is_name key ≡ true
    → ((vs : List Text) → read_bytes (between vs) rest ≡ between (vs ++ words))
    → read_bytes (between ws) (assignment key value ++ rest)
      ≡ between (ws ++ (assigned key value ++ words))
read_more ws key value rest {words} name later =
    read_bytes-append (between ws) (assignment key value) rest
    ∙ ap (λ r. read_bytes r rest) (read_assignment ws key value name)
    ∙ later (ws ++ assigned key value)
    ∙ ap between (append_assoc ws (assigned key value) words)

-- Whatever bytes the environment variables of the session hold, quotes, `;`, `$` and newlines
-- included, the shell reads the prefix as assignments of exactly these values, one for each
-- variable that is not empty, and is then between words: no value ends its quotes early.
pub read_command_prefix :
    (s : GraphicalSession) → read_bytes (between []) (command_prefix s) ≡ between (session_words s)
unfolding command_prefix session_words
read_command_prefix s = elim (Bool-cases s.valid) [
  | inl usable ↦ rw usable (
      read_more [] (chars "DISPLAY") s.display _ (unfold chars in refl) λ v1.
        read_more v1 (chars "XAUTHORITY") s.xauthority _ (unfold chars in refl) λ v2.
          read_more v2 (chars "WAYLAND_DISPLAY") s.wayland_display _ (unfold chars in refl) λ v3.
            read_more v3 (chars "XDG_RUNTIME_DIR") s.xdg_runtime_dir _ (unfold chars in refl) λ v4.
              read_more v4 (chars "SWAYSOCK") s.sway_sock _ (unfold chars in refl) λ v5.
                read_assignment v5 (chars "HYPRLAND_INSTANCE_SIGNATURE")
                  s.hyprland_instance_signature (unfold chars in refl))
  | inr unusable ↦ rw unusable (unfold read_bytes in refl)
]
