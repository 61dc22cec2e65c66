-- ===== src/Optimizer/Backup.antt =====
-- The backup of core/src/optimizer.cpp read back, and the defaults behind its parameters.
use betterconn.Prelude.{
  ℕ, suc, ◌+◌, ◌≡◌, refl, ap, ap₂, ◌∙◌, Bool, true, false, not, Option, none, some, List, [], ◌∷◌,
  ◌++◌, Text, All, keep, length, take, drop, ◌==◌, arith, Text_eq,
}
use mathlib.Core.Option
use betterconn.Prelude.Dict.{Dict, keys, member}
use betterconn.Os.{Os}
use betterconn.Text.{chars, find, find_first, starts_with, is_empty}
use betterconn.Text.Lines.{lines, Lacks, lines-append, first_line-Lacks}
use betterconn.SystemDefaults.{kernel_defaults, sysctl_path}
use betterconn.Optimizer.{
  base_params, backup_text, backup_entry, backup_entries, snapshot, read_sysctl, add_entry,
  first_line_found,
}

-- A key that can stand in front of `=` in a line
abbrev IsKey : Text → Type 0
IsKey key = Lacks b'=' key × Lacks b'\n' key

abbrev IsEntry : Text × Text → Type 0
IsEntry (key, value) = IsKey key × Lacks b'\n' value

abbrev pub has_value : Text × Text → Bool
has_value (key, value) = not (is_empty value)

-- Every parameter that the program sets has a default of the kernel, which the removal restores.
pub base_params-defaults : All (λ entry. member entry.0 (keys kernel_defaults) ≡ true) base_params
unfolding base_params kernel_defaults chars
base_params-defaults = ground arith

find_first-equals :
    (key value : Text)
    → Lacks b'=' key
    → find_first (b'=' ∷ []) (key ++ b'=' ∷ value) ≡ some (length key)
unfolding find_first starts_with
find_first-equals [] value lacks = refl
find_first-equals (c ∷ key) value lacks = ground (arith, find_first-equals key value)

take-append : (s t : Text) → take (length s) (s ++ t) ≡ s
take-append [] t = refl
take-append (c ∷ s) t = ap (λ u. c ∷ u) (take-append s t)

drop_past : (s t : Text) (c : ℕ) → drop (suc (length s)) (s ++ c ∷ t) ≡ t
drop_past [] t c = refl
drop_past (b ∷ s) t c = drop_past s t c

take_key : (key value : Text) → take (0 + length key) (key ++ b'=' ∷ value) ≡ key
take_key key value =
    let n : 0 + length key ≡ length key = omega arith in
    ap (λ n. take n (key ++ b'=' ∷ value)) n ∙ take-append key (b'=' ∷ value)

drop_key : (key value : Text) → drop (0 + length key + 1) (key ++ b'=' ∷ value) ≡ value
drop_key key value =
    let n : 0 + length key + 1 ≡ suc (length key) = omega arith in
    ap (λ n. drop n (key ++ b'=' ∷ value)) n ∙ drop_past key value b'='

-- What the line of a key and a value is read as.
abbrev line_result : Bool → Text → Text → Option (Text × Text)
line_result true key value = none
line_result false key value = some (key, value)

-- What `backup_entry` makes of the place of the first `=`.
abbrev at_place : Text → Option ℕ → Option (Text × Text)
at_place line none = none
at_place line (some eq) = elim (is_empty (drop (eq + 1) line)) [
  | true ↦ none
  | false ↦ some (take eq line, drop (eq + 1) line)
]

result_same :
    (b : Bool) (key value : Text)
    → elim b [ true ↦ none | false ↦ some (key, value) ] ≡ line_result b key value
result_same true key value = refl
result_same false key value = refl

backup_entry-line :
    (key value : Text)
    → Lacks b'=' key
    → backup_entry (key ++ (b'=' ∷ value)) ≡ line_result (is_empty value) key value
unfolding backup_entry find chars
backup_entry-line key value lacks =
    ap (λ o. at_place (key ++ (b'=' ∷ value)) (Option.map (λ n. 0 + n) o))
      (find_first-equals key value lacks)
    ∙ (ap₂ (λ k v. elim (is_empty v) [ true ↦ none | false ↦ some (k, v) ]) (take_key key value)
          (drop_key key value)
        ∙ result_same (is_empty value) key value)

All-append {ℓ κ} :
    {A : Type ℓ} (P : A → Type κ) (xs ys : List A) → All P xs → All P ys → All P (xs ++ ys)
All-append P [] ys a b = b
All-append P (x ∷ xs) ys (p, a) b = (p, All-append P xs ys a b)

kept_same :
    (b : Bool) (key value : Text) (rest : Dict Text Text)
    → add_entry (line_result b key value) (keep has_value rest)
      ≡ elim (not b) [ true ↦ (key, value) ∷ keep has_value rest | false ↦ keep has_value rest ]
kept_same true key value rest = refl
kept_same false key value rest = refl

-- The entries that are restored, from the lines of the backup.
backup_entries-backup_text :
    (entries : Dict Text Text)
    → All IsEntry entries
    → backup_entries (lines (backup_text entries)) ≡ keep has_value entries
unfolding backup_entries backup_text lines
backup_entries-backup_text [] all = refl
backup_entries-backup_text ((key, value) ∷ rest) (((eq, newline), v), all) =
    ap backup_entries (
      lines-append (key ++ (b'=' ∷ value)) (backup_text rest)
        (All-append (λ c. (c == b'\n') ≡ false) key (b'=' ∷ value) newline (refl, v)))
    ∙ (ap (λ o. add_entry o (backup_entries (lines (backup_text rest))))
          (backup_entry-line key value eq)
        ∙ (ap (λ es. add_entry (line_result (is_empty value) key value) es)
              (backup_entries-backup_text rest all)
            ∙ kept_same (is_empty value) key value rest))

pub first_line_found-Lacks : (found : Option Text) → Lacks b'\n' (first_line_found found)
first_line_found-Lacks none = tt
first_line_found-Lacks (some content) = first_line-Lacks content

base_params-IsKey : All (λ entry. IsKey entry.0) base_params
unfolding base_params chars
base_params-IsKey = ground arith

module _ ⦃os : Os⦄ where
  open os use {World, read_file}

  snapshot-IsEntry :
      (params : Dict Text Text) (w : World)
      → All (λ entry. IsKey entry.0) params
      → All IsEntry (snapshot params w)
  unfolding snapshot read_sysctl
  snapshot-IsEntry [] w all = tt
  snapshot-IsEntry ((key, value) ∷ rest) w (k, all) =
      ((k, first_line_found-Lacks (read_file (sysctl_path key) w)), snapshot-IsEntry rest w all)

  -- Whatever values the kernel has when the backup is taken, the backup gives back each parameter
  -- with exactly that value, in the order of the table, and leaves out those without a value.
  pub backup_entries-snapshot :
      (w : World)
      → backup_entries (lines (backup_text (snapshot base_params w)))
        ≡ keep has_value (snapshot base_params w)
  backup_entries-snapshot w =
      backup_entries-backup_text (snapshot base_params w)
        (snapshot-IsEntry base_params w base_params-IsKey)
