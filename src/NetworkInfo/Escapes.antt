-- ===== src/NetworkInfo/Escapes.antt =====
-- The values that nmcli prints in its terse mode, with a backslash in front of colons and backslashes.
use betterconn.Prelude.{
  ℕ, ◌≡◌, refl, false, ◌||◌, ◌==◌, [], ◌∷◌, Text, arith, if◌then◌else◌, Bool-cases, inl, inr, ap,
}
use betterconn.NetworkInfo.{unescape_nmcli}

-- What nmcli makes of a value
unfoldable pub escaped : Text → Text
escaped [] = []
escaped (c ∷ s) = if c == b'\\' || c == b':' then b'\\' ∷ c ∷ escaped s else c ∷ escaped s

unescape_nmcli-plain :
    (c : ℕ) (s : Text) → (c == b'\\') ≡ false → unescape_nmcli (c ∷ s) ≡ c ∷ unescape_nmcli s
unfolding unescape_nmcli
unescape_nmcli-plain c [] h = refl
unescape_nmcli-plain c (e ∷ s) h = ground arith

-- Every value comes back from the form in which nmcli prints it.
pub unescape_nmcli-escaped : (s : Text) → unescape_nmcli (escaped s) ≡ s
unfolding unescape_nmcli escaped
unescape_nmcli-escaped [] = refl
unescape_nmcli-escaped (c ∷ s) = elim (Bool-cases (c == b'\\' || c == b':')) [
  | inl special ↦ rw special (ap (λ t. c ∷ t) (unescape_nmcli-escaped s))
  | inr plain ↦
      rw plain (ground (arith, unescape_nmcli-plain c (escaped s), unescape_nmcli-escaped s))
]
