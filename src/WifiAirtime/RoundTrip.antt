-- ===== src/WifiAirtime/RoundTrip.antt =====
-- The limits of core/src/wifi_airtime.cpp, saved and read back.
use betterconn.Prelude.{
  ℕ, suc, ◌≤◌, ◌<◌, true, false, ◌&&◌, some, List, [], ◌∷◌, ◌++◌, Text, ltb, ◌≡◌, ◌==◌, refl, sym,
  ap, subst, arith, All, Bool-cases, Option-cases, inl, inr, append-nil, drop,
}
use betterconn.Prelude.Chain.{◌>>◌, guard, >>=-ensures}
use betterconn.Prelude.Int.{ℤ, pos, negsuc, is_pos}
use betterconn.Text.{is_space, is_digit, skip_where}
use betterconn.Text.Decimal.{
  int_max, parse_signed, parse_up_to, to_string, to_string_ℤ, to_string-All,
}
use betterconn.Text.Lines.{lines, Lacks, lines-append}
use betterconn.Text.Stream.{read_int, read_word, read_int-to_string, read_int-space}
use betterconn.WifiAirtime.Limits.{
  AirtimeQueueLimit, read_limit, limits_from, queue_limits, limit_value, serialize_limits,
  read_saved_limit, limits_of, deserialize_limits,
}

-- An `int` that is not negative
abbrev pub Fits : ℤ → Type 0
Fits (pos n) = n ≤ int_max
Fits (negsuc n) = ⊥

abbrev pub IsStorable : AirtimeQueueLimit → Type 0
IsStorable limit = Fits limit.access_category × Fits limit.low_us × Fits limit.high_us

All-append {ℓ κ} :
    {A : Type ℓ} (P : A → Type κ) (xs ys : List A) → All P xs → All P ys → All P (xs ++ ys)
All-append P [] ys a b = b
All-append P (x ∷ xs) ys (p, a) b = (p, All-append P xs ys a b)

All-map {ℓ κ} :
    {A : Type ℓ} (P Q : A → Type κ) (xs : List A) → ((x : A) → P x → Q x) → All P xs → All Q xs
All-map P Q [] h all = tt
All-map P Q (x ∷ xs) h (p, all) = (h x p, All-map P Q xs h all)

parse_up_to-≤ : (bound n : ℕ) (s : Text) → parse_up_to bound s ≡ some n → n ≤ bound
unfolding parse_up_to
parse_up_to-≤ bound n s h = ground arith

parse_signed-Fits : (s : Text) (n : ℤ) → parse_signed int_max s ≡ some n → is_pos n ≡ true → Fits n
unfolding parse_signed
parse_signed-Fits [] n h p = absurd (cc)
parse_signed-Fits (c ∷ s) (negsuc m) h p = absurd (cc)
parse_signed-Fits (c ∷ s) (pos m) h p = elim (Option-cases (parse_up_to int_max s)) [
  | inl none_s ↦ ground (arith, parse_up_to-≤ int_max m (c ∷ s))
  | inr (k, e) ↦ ground (arith, parse_up_to-≤ int_max k s e, parse_up_to-≤ int_max m (c ∷ s))
]

read_int-Fits : (s : Text) (r : ℤ × Text) → read_int s ≡ some r → is_pos r.0 ≡ true → Fits r.0
unfolding read_int
read_int-Fits s r h =
    >>=-ensures (λ r. is_pos r.0 ≡ true → Fits r.0) (parse_signed int_max (skip_where is_space s)) _
      (λ n. λ parsed. λ b. λ e. λ p. parse_signed-Fits (skip_where is_space s) b.0 (ground arith) p)
      r h

digits-Lack : (c : ℕ) → is_digit c ≡ true → (c == b'\n') ≡ false
digits-Lack c h = ground arith

number-Lacks : (n : ℕ) → Lacks b'\n' (to_string n)
number-Lacks n =
    All-map _ _ (to_string n) (λ c. λ h. digits-Lack c h) (to_string-All is_digit n (λ c. λ h. h))

-- What one line of the saved file is read as.
line_read :
    (a l h : ℤ)
    → Fits a
    → Fits l
    → Fits h
    → read_saved_limit (limit_value (record { access_category = a; low_us = l; high_us = h }))
      ≡ some (record { access_category = a; low_us = l; high_us = h })
unfolding read_saved_limit limit_value to_string_ℤ
line_read (pos a) (pos l) (pos h) fa fl fh =
    rw
      (
        read_int-to_string a (b' ' ∷ (to_string l ++ (b' ' ∷ to_string h))) fa refl,
        read_int-space (to_string l ++ (b' ' ∷ to_string h)),
        read_int-to_string l (b' ' ∷ to_string h) fl refl,
        read_int-space (to_string h),
        sym (append-nil (to_string h)),
        read_int-to_string h [] fh refl,
      )
      refl
line_read (pos a) (pos l) (negsuc _) fa fl fh = elim fh [ ]
line_read (pos a) (negsuc _) h fa fl fh = elim fl [ ]
line_read (negsuc _) l h fa fl fh = elim fa [ ]

line-Lacks :
    (a l h : ℤ)
    → Fits a
    → Fits l
    → Fits h
    → Lacks b'\n' (limit_value (record { access_category = a; low_us = l; high_us = h }))
unfolding limit_value to_string_ℤ
line-Lacks (pos a) (pos l) (pos h) fa fl fh =
    All-append _ (to_string a) _ (number-Lacks a)
      (refl, All-append _ (to_string l) _ (number-Lacks l) (refl, number-Lacks h))
line-Lacks (pos a) (pos l) (negsuc _) fa fl fh = elim fh [ ]
line-Lacks (pos a) (negsuc _) h fa fl fh = elim fl [ ]
line-Lacks (negsuc _) l h fa fl fh = elim fa [ ]

-- Limits that are saved are read back as they were.
pub deserialize_limits-serialize_limits :
    (limits : List AirtimeQueueLimit)
    → All IsStorable limits
    → deserialize_limits (serialize_limits limits) ≡ limits
unfolding deserialize_limits serialize_limits limits_of
deserialize_limits-serialize_limits [] storable = refl
deserialize_limits-serialize_limits (limit ∷ rest) ((fa, fl, fh), storable) =
    rw
      (
        lines-append (limit_value limit) (serialize_limits rest)
            (line-Lacks limit.access_category limit.low_us limit.high_us fa fl fh),
        line_read limit.access_category limit.low_us limit.high_us fa fl fh,
        limits_of,
      )
      (ap (λ ls. limit ∷ ls) (deserialize_limits-serialize_limits rest storable))

last_step :
    (k : ℕ) (s : Text) (low high : ℤ × Text)
    → k < 4
    → read_int s ≡ some low
    → read_int low.1 ≡ some high
    → (limit : AirtimeQueueLimit)
    → (guard (is_pos low.0 && is_pos high.0)
        >> some (record { access_category = pos k; low_us = low.0; high_us = high.0 }))
      ≡ some limit
    → IsStorable limit
last_step k s low high small e2 e3 limit h = elim (Bool-cases (is_pos low.0 && is_pos high.0)) [
  | inr fails ↦ absurd (cc)
  | inl holds ↦
      let same : record { access_category = pos k; low_us = low.0; high_us = high.0 } ≡ limit =
        ground arith in
      subst IsStorable same (
        omega arith,
        read_int-Fits s low e2 (ground arith),
        read_int-Fits low.1 high e3 (ground arith),
      )
]

read_limit-IsStorable :
    (k : ℕ) (line : Text) (limit : AirtimeQueueLimit)
    → k < 4
    → read_limit k line ≡ some limit
    → IsStorable limit
unfolding read_limit
read_limit-IsStorable k line limit small h =
    >>=-ensures IsStorable (read_word line) _
      (λ word. λ e1. >>=-ensures IsStorable (read_int word.1) _ (λ low. λ e2.
        >>=-ensures IsStorable (read_int low.1) _
          (λ high. λ e3. last_step k word.1 low high small e2 e3)))
      limit h

limits_from-IsStorable :
    (k : ℕ) (limits : List AirtimeQueueLimit) (ls : List Text)
    → All IsStorable limits
    → All IsStorable (limits_from k limits ls)
unfolding limits_from
limits_from-IsStorable k limits [] storable = storable
limits_from-IsStorable k limits (line ∷ rest) storable = elim (Bool-cases (ltb k 4)) [
  | inr done ↦ rw (done, limits_from) storable
  | inl going ↦ elim (Option-cases (read_limit k line)) [
    | inl broken ↦ rw (going, broken, limits_from) tt
    | inr (limit, found) ↦
        rw (going, found, limits_from)
          (limits_from-IsStorable (suc k) (limits ++ limit ∷ []) rest (
            All-append _ limits (limit ∷ []) storable
              (read_limit-IsStorable k line limit (ground arith) found, tt)))
  ]
]

-- Whatever stands in the file of the radio, what `apply` saves of it is what `revert` writes
-- back: the limits that were read there.
pub deserialize_limits-queue_limits :
    (content : Text)
    → deserialize_limits (serialize_limits (queue_limits content)) ≡ queue_limits content
unfolding queue_limits
deserialize_limits-queue_limits content =
    deserialize_limits-serialize_limits (queue_limits content)
      (limits_from-IsStorable 0 [] (drop 1 (lines content)) tt)
