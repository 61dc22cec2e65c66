-- ===== src/WindowFocus/Hyprland.antt =====
-- `get_pid_under_cursor_hyprland` behind the captures: the first client whose rectangle holds
-- the cursor and whose process number is positive.
use betterconn.Prelude.{
  ℕ, suc, ◌+◌, ◌-◌, ◌<◌, ◌≤◌, ◌≡◌, ap, sym, ◌∙◌, ◌⊎◌, ◌≢◌, Bool, true, ◌&&◌, Option, none, some, [],
  ◌∷◌, arith, length, drop, Text, Option-cases, inl, inr,
}
use betterconn.Prelude.Chain.{◌>>=◌, ◌>>◌, guard, >>=-eq-some, guard-eq-some}
use betterconn.Prelude.Int.{ℤ, is_pos, minus_one, to_int32, ltb_ℤ, leb_ℤ, ◌+ℤ◌}
use betterconn.Text.{chars, find, starts_with, substr}
use betterconn.Text.Search.{
  Round, next, done, scan, Advances, scan_total, find-bounds, find-starts_with, scan-done,
}
use betterconn.WindowFocus.Fields.{or_minus_one, parse_shell_field}

pub record Rectangle : Type 0 where
  pub window_x : ℤ
  pub window_y : ℤ
  pub window_width : ℤ
  pub window_height : ℤ

-- `cursor_inside_rect`
unfoldable pub holds_point : ℤ → ℤ → Rectangle → Bool
unfolding ◌+ℤ◌
holds_point x y r =
    leb_ℤ r.window_x x
    && ltb_ℤ x (r.window_x +ℤ r.window_width)
    && leb_ℤ r.window_y y
    && ltb_ℤ y (r.window_y +ℤ r.window_height)

-- The two numbers of an array such as `[10, 20]`.
unfoldable pub number_pair : Text → Option (ℤ × ℤ)
unfolding parse_shell_field find
number_pair array = do
  first ← parse_shell_field array (b'[' ∷ [])
  comma_pos ← find (b',' ∷ []) array 0
  second ← parse_shell_field (drop comma_pos array) (b',' ∷ [])
  some (first, second)

-- The rectangle of the client whose `at` array is given and ends at `array_end`, with the end of
-- its `size` array. `none` is a `continue` of the loop.
unfoldable pub client_rectangle : Text → Text → ℕ → Option (Rectangle × ℕ)
unfolding number_pair find chars
client_rectangle clients at_array array_end = do
  corner ← number_pair at_array
  size_pos ← find (chars "\"size\":") clients array_end
  size_start ← find (b'[' ∷ []) clients size_pos
  size_end ← find (b']' ∷ []) clients size_start
  extent ← number_pair (substr clients size_start (size_end - size_start + 1))
  some (
    record {
      window_x = corner.0;
      window_y = corner.1;
      window_width = extent.0;
      window_height = extent.1;
    },
    size_end,
  )

-- The process number of a client that holds the cursor, as an `int`.
unfoldable pub client_pid : ℤ → ℤ → Text → Text → ℕ → Option ℤ
unfolding client_rectangle holds_point parse_shell_field find chars to_int32
client_pid x y clients at_array array_end = do
  found ← client_rectangle clients at_array array_end
  guard (holds_point x y found.0)
  pid_pos ← find (chars "\"pid\":") clients found.1
  pid ← parse_shell_field (drop pid_pos clients) (chars "\"pid\":")
  guard (is_pos pid)
  some (to_int32 pid)

-- The next `at` array: its start and its end.
unfoldable pub next_array : Text → ℕ → Option (ℕ × ℕ)
unfolding find chars
next_array clients search_from = do
  at_pos ← find (chars "\"at\":") clients search_from
  array_start ← find (b'[' ∷ []) clients at_pos
  array_end ← find (b']' ∷ []) clients array_start
  some (array_start, array_end)

abbrev go_on : ℕ → Option ℤ → Round (Unit {0}) ℤ
go_on after none = next after tt
go_on after (some pid) = done pid

unfoldable pub client_round : ℤ → ℤ → Text → ℕ → Unit {0} → Round (Unit {0}) ℤ
unfolding next_array client_pid
client_round x y clients search_from u = elim (next_array clients search_from) [
  | none ↦ done minus_one
  | some (array_start, array_end) ↦
      go_on array_end (
        client_pid x y clients (substr clients array_start (array_end - array_start + 1)) array_end)
]

unfoldable pub scan_clients : ℤ → ℤ → Text → Option ℤ
unfolding scan client_round
scan_clients x y clients = scan (suc (length clients)) (client_round x y clients) 0 tt

-- The loop of `get_pid_under_cursor_hyprland`, once the cursor's position is known
unfoldable pub pid_at_cursor : ℤ → ℤ → Text → ℤ
unfolding scan_clients
pid_at_cursor x y clients = or_minus_one (scan_clients x y clients)

two_marks : (s : Text) → starts_with (b'[' ∷ []) s ≡ true → starts_with (b']' ∷ []) s ≡ true → ⊥
unfolding starts_with
two_marks [] h k = cc
two_marks (c ∷ s) h k = ground arith

next_array-bounds :
    (clients : Text) (from start end : ℕ)
    → next_array clients from ≡ some (start, end)
    → (from < end) × (end < length clients)
unfolding next_array chars
next_array-bounds clients from start end h =
    let (at_pos, at, h1) = >>=-eq-some (find (chars "\"at\":") clients from) _ h in
    let (start', opens, h2) = >>=-eq-some (find (b'[' ∷ []) clients at_pos) _ h1 in
    let (end', closes, h3) = >>=-eq-some (find (b']' ∷ []) clients start') _ h2 in
    let b = find-bounds (chars "\"at\":") clients from at_pos at in
    let b' = find-bounds (b'[' ∷ []) clients at_pos start' opens in
    let b'' = find-bounds (b']' ∷ []) clients start' end' closes in
    let differ : start' ≢ end' = λ same.
      two_marks (drop start' clients) (find-starts_with (b'[' ∷ []) clients at_pos start' opens)
        (rw same (find-starts_with (b']' ∷ []) clients start' end' closes)) in
    let e : end' ≡ end = ground arith in (omega arith, omega arith)

client_round-Advances :
    (x y : ℤ) (clients : Text) → Advances (length clients) (client_round x y clients)
unfolding client_round
client_round-Advances x y clients p s q t e = elim (Option-cases (next_array clients p)) [
  | inl f ↦ absurd (ground arith)
  | inr (ends, f) ↦
      let b = next_array-bounds clients p ends.0 ends.1 f in (ground arith, ground arith)
]

-- The walk over the clients ends on every listing.
pub scan_clients_total :
    (x y : ℤ) (clients : Text) → (pid : ℤ) × (scan_clients x y clients ≡ some pid)
unfolding scan_clients
scan_clients_total x y clients =
    scan_total (length clients) (client_round x y clients) (client_round-Advances x y clients)
      (suc (length clients)) 0 tt (omega arith)

-- Where an `at` array of the listing starts and ends: the first brackets behind its key
pub record IsArrayAt (clients : Text) (start end : ℕ) : Type 0 where
  pub at_pos : ℕ
  pub key : starts_with (chars "\"at\":") (drop at_pos clients) ≡ true
  pub opens : find (b'[' ∷ []) clients at_pos ≡ some start
  pub closes : find (b']' ∷ []) clients start ≡ some end

next_array-IsArrayAt :
    (clients : Text) (from start end : ℕ)
    → next_array clients from ≡ some (start, end)
    → IsArrayAt clients start end
unfolding next_array
next_array-IsArrayAt clients from start end h =
    let (at_pos, at, h1) = >>=-eq-some (find (chars "\"at\":") clients from) _ h in
    let (start', opens, h2) = >>=-eq-some (find (b'[' ∷ []) clients at_pos) _ h1 in
    let (end', closes, h3) = >>=-eq-some (find (b']' ∷ []) clients start') _ h2 in
    let same : start' ≡ start = ground arith in
    let same' : end' ≡ end = ground arith in
    record {
      at_pos = at_pos;
      key = find-starts_with (chars "\"at\":") clients from at_pos at;
      opens = opens ∙ ap some same;
      closes = ap (λ n. find (b']' ∷ []) clients n) (sym same) ∙ (closes ∙ ap some same');
    }

-- A client whose rectangle holds the point: its corner is read in an `at` array of the listing,
-- its extent behind that array, and its number, cast to an `int`, behind the extent.
pub record IsClientAt (x y : ℤ) (clients : Text) (pid : ℤ) : Type 0 where
  pub array_start : ℕ
  pub array_end : ℕ
  pub rectangle : Rectangle
  pub size_end : ℕ
  pub pid_pos : ℕ
  pub number : ℤ
  pub at_array : IsArrayAt clients array_start array_end
  pub parsed :
      client_rectangle clients (substr clients array_start (array_end - array_start + 1)) array_end
      ≡ some (rectangle, size_end)
  pub inside : holds_point x y rectangle ≡ true
  pub behind : size_end ≤ pid_pos
  pub read : parse_shell_field (drop pid_pos clients) (chars "\"pid\":") ≡ some number
  pub positive : is_pos number ≡ true
  pub cast : to_int32 number ≡ pid

client_pid_lem :
    (x y : ℤ) (clients : Text) (start end : ℕ) (pid : ℤ)
    → IsArrayAt clients start end
    → client_pid x y clients (substr clients start (end - start + 1)) end ≡ some pid
    → IsClientAt x y clients pid
unfolding client_pid
client_pid_lem x y clients start end pid at_array h =
    let array = substr clients start (end - start + 1) in
    let (found, parsed, h1) = >>=-eq-some (client_rectangle clients array end) _ h in
    let (u, inside, h2) = >>=-eq-some (guard (holds_point x y found.0)) _ h1 in
    let (pid_pos, place, h3) = >>=-eq-some (find (chars "\"pid\":") clients found.1) _ h2 in
    let (n, number, h4) =
      >>=-eq-some (parse_shell_field (drop pid_pos clients) (chars "\"pid\":")) _ h3 in
    let (u', checked, h5) = >>=-eq-some (guard (is_pos n)) _ h4 in
    record {
      array_start = start;
      array_end = end;
      rectangle = found.0;
      size_end = found.1;
      pid_pos = pid_pos;
      number = n;
      at_array = at_array;
      parsed = parsed;
      inside = guard-eq-some (holds_point x y found.0) inside;
      behind = (find-bounds (chars "\"pid\":") clients found.1 pid_pos place).0;
      read = number;
      positive = guard-eq-some (is_pos n) checked;
      cast = cc;
    }

-- Where the walk over Hyprland's clients ends with a number, it is -1, or it is the `int` of a
-- positive number that the listing has behind a rectangle which holds the cursor, and the corner of
-- that rectangle stands in the `at` array in front of it.
pub scan_clients_lem :
    (x y : ℤ) (clients : Text) (pid : ℤ)
    → scan_clients x y clients ≡ some pid
    → (pid ≡ minus_one) ⊎ IsClientAt x y clients pid
unfolding scan_clients client_round
scan_clients_lem x y clients pid h =
    let (q, t, e) = scan-done (client_round x y clients) (suc (length clients)) 0 tt pid h in
    elim (Option-cases (next_array clients q)) [
      | inl f ↦ inl (ground arith)
      | inr (ends, f) ↦
          let at_array = substr clients ends.0 (ends.1 - ends.0 + 1) in
          elim (Option-cases (client_pid x y clients at_array ends.1)) [
            | inl g ↦ absurd (ground arith)
            | inr (found, g) ↦ inr (
                client_pid_lem x y clients ends.0 ends.1 pid
                  (next_array-IsArrayAt clients q ends.0 ends.1 f) (g ∙ ap some (ground arith)))
          ]
    ]
