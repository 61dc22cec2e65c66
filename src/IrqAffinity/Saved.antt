-- ===== src/IrqAffinity/Saved.antt =====
-- The saved masks of the queues, written one a line and read back.
use betterconn.Prelude.{
  ℕ, false, Option, none, some, List, [], ◌∷◌, ◌++◌, Text, ◌≡◌, refl, ap, ◌∙◌, arith, ◌==◌, All,
  append_assoc, append-nil,
}
use betterconn.Text.{is_space}
use betterconn.Text.Lines.{lines, words, words_from, lines-append, Lacks}

-- One line of the saved text: the path of a mask, relative to the queues, and the mask
unfoldable pub saved_line : Text × Text → Text
saved_line (path, mask) = path ++ (b' ' ∷ (mask ++ b'\n' ∷ []))

-- The lines with a path and a mask
abbrev first_two : List Text → Option (Text × Text)
first_two [] = none
first_two (path ∷ []) = none
first_two (path ∷ mask ∷ rest) = some (path, mask)

unfoldable pub saved_entry : Text → Option (Text × Text)
unfolding words
saved_entry line = first_two (words line)

unfoldable pub saved_entries : List Text → List (Text × Text)
unfolding saved_entry
saved_entries [] = []
saved_entries (line ∷ rest) = elim (saved_entry line) [
  | none ↦ saved_entries rest
  | some entry ↦ entry ∷ saved_entries rest
]

unfoldable pub saved_text : List (Text × Text) → Text
unfolding saved_line
saved_text [] = []
saved_text (entry ∷ rest) = saved_line entry ++ saved_text rest

-- A word: a byte at least, and no space
abbrev IsWord : Text → Type 0
IsWord [] = ⊥
IsWord (c ∷ s) = All (λ c. is_space c ≡ false) (c ∷ s)

words_from-word :
    (b : ℕ) (now s rest : Text)
    → All (λ c. is_space c ≡ false) s
    → words_from (b ∷ now) (s ++ b' ' ∷ rest) ≡ ((b ∷ now) ++ s) ∷ words_from [] rest
unfolding words_from
words_from-word b now [] rest h = ground (arith, append-nil (b ∷ now))
words_from-word b now (c ∷ s) rest h =
    ground (arith, words_from-word b ((now ++ c ∷ [])) s rest, append_assoc (b ∷ now) (c ∷ []) s)

words_from-last :
    (b : ℕ) (now s : Text)
    → All (λ c. is_space c ≡ false) s
    → words_from (b ∷ now) s ≡ ((b ∷ now) ++ s) ∷ []
unfolding words_from
words_from-last b now [] h = ground (arith, append-nil (b ∷ now))
words_from-last b now (c ∷ s) h =
    ground (arith, words_from-last b (now ++ c ∷ []) s, append_assoc (b ∷ now) (c ∷ []) s)

words_from-start :
    (c : ℕ) (s : Text) → is_space c ≡ false → words_from [] (c ∷ s) ≡ words_from (c ∷ []) s
unfolding words_from
words_from-start c s h = ground arith

-- The line of an entry, without its end
abbrev entry_line : Text × Text → Text
entry_line (path, mask) = path ++ (b' ' ∷ mask)

saved_entry-entry_line :
    (path mask : Text)
    → IsWord path
    → IsWord mask
    → saved_entry (entry_line (path, mask)) ≡ some (path, mask)
unfolding saved_entry words words_from
saved_entry-entry_line [] mask p m = elim p [ ]
saved_entry-entry_line (c ∷ path) [] p m = elim m [ ]
saved_entry-entry_line (c ∷ path) (e ∷ mask) (pc, p) (me, m) = ap first_two (
    words_from-start c (path ++ b' ' ∷ e ∷ mask) pc
    ∙ (words_from-word c [] path (e ∷ mask) p
        ∙ ap (λ ws. (c ∷ path) ∷ ws) (words_from-start e mask me ∙ words_from-last e [] mask m)))

All-map {ℓ κ} :
    {A : Type ℓ} (P Q : A → Type κ) (xs : List A) → ((x : A) → P x → Q x) → All P xs → All Q xs
All-map P Q [] h all = tt
All-map P Q (x ∷ xs) h (p, all) = (h x p, All-map P Q xs h all)

All-append {ℓ κ} :
    {A : Type ℓ} (P : A → Type κ) (xs ys : List A) → All P xs → All P ys → All P (xs ++ ys)
All-append P [] ys a b = b
All-append P (x ∷ xs) ys (p, a) b = (p, All-append P xs ys a b)

word-Lacks : (s : Text) → IsWord s → Lacks b'\n' s
word-Lacks [] h = elim h [ ]
word-Lacks (c ∷ s) h =
    All-map (λ c. is_space c ≡ false) (λ c. (c == b'\n') ≡ false) (c ∷ s) (λ x k. ground arith) h

saved_line-entry_line :
    (path mask rest : Text)
    → saved_line (path, mask) ++ rest ≡ entry_line (path, mask) ++ (b'\n' ∷ rest)
unfolding saved_line
saved_line-entry_line path mask rest = ground (
  arith,
  append_assoc path (b' ' ∷ (mask ++ b'\n' ∷ [])) rest,
  append_assoc mask (b'\n' ∷ []) rest,
  append_assoc path (b' ' ∷ mask) (b'\n' ∷ rest),
)

abbrev pub IsEntry : Text × Text → Type 0
IsEntry (path, mask) = IsWord path × IsWord mask

-- The masks that are saved for the queues are the masks that are read back, each with its path, as
-- long as no path and no mask is empty or holds a space.
pub saved_entries-saved_text :
    (entries : List (Text × Text))
    → All IsEntry entries
    → saved_entries (lines (saved_text entries)) ≡ entries
unfolding saved_text saved_entries lines
saved_entries-saved_text [] all = refl
saved_entries-saved_text ((path, mask) ∷ rest) ((p, m), all) =
    rw
      (
        saved_line-entry_line path mask (saved_text rest),
        lines-append (entry_line (path, mask)) (saved_text rest) (
            All-append (λ c. (c == b'\n') ≡ false) path (b' ' ∷ mask) (word-Lacks path p)
              (refl, word-Lacks mask m)),
        saved_entry-entry_line path mask p m,
        saved_entries,
      )
      (ap (λ es. (path, mask) ∷ es) (saved_entries-saved_text rest all))
