-- ===== src/Arguments/Written.antt =====
-- The options of `start` in cli/src/main.cpp, as they can be written.
use betterconn.Prelude.{
  ◌≡◌, refl, ap, ap₂, ◌∙◌, true, some, List, [], ◌∷◌, Text, text_eq, Text_eq, arith, Bool-cases,
  inl, inr,
}
use betterconn.Arguments.{StartOptions, parse_start}
use betterconn.Text.{chars}

-- One option of `start`
pub data StartOption : Type 0 where
  skip_warning : StartOption
  interface : Text → StartOption

-- How the options are written
unfoldable pub written : List StartOption → List Text
written [] = []
written (skip_warning ∷ rest) = chars "--skip-warning" ∷ written rest
written (interface name ∷ rest) = chars "--interface" ∷ name ∷ written rest

-- What they ask for: a later interface replaces an earlier one.
unfoldable pub asked : List StartOption → StartOptions → StartOptions
asked [] o = o
asked (skip_warning ∷ rest) o = asked rest (record o { skip_warning = true })
asked (interface name ∷ rest) o = asked rest (record o { iface = name })

parse_start-skip :
    (rest : List Text) (o : StartOptions)
    → parse_start (chars "--skip-warning" ∷ rest) o
      ≡ parse_start rest (record o { skip_warning = true })
unfolding parse_start chars
parse_start-skip [] o = refl
parse_start-skip (value ∷ rest) o = refl

-- Options of `start`, in any number and order, are read as what they ask for.
pub parse_start-written :
    (options : List StartOption) (o : StartOptions)
    → parse_start (written options) o ≡ some (asked options o)
unfolding parse_start written asked chars
parse_start-written [] o = refl
parse_start-written (skip_warning ∷ rest) o =
    parse_start-skip (written rest) o ∙ parse_start-written rest (record o { skip_warning = true })
parse_start-written (interface name ∷ rest) o = parse_start-written rest (record o { iface = name })

-- Nothing else is accepted: what is read was written as options, and they ask for it.
pub parse_start-only :
    (args : List Text) (o p : StartOptions)
    → parse_start args o ≡ some p
    → (options : List StartOption) × (args ≡ written options) × (p ≡ asked options o)
unfolding parse_start written asked
parse_start-only [] o p h = ([], refl, ground arith)
parse_start-only (arg ∷ []) o p h = elim (Bool-cases (text_eq arg (chars "--skip-warning"))) [
  | inl skips ↦ (
    skip_warning ∷ [],
    ap (λ a. a ∷ []) ((Text_eq.beq_iff arg (chars "--skip-warning")).0 skips),
    ground arith,
  )
  | inr other ↦ absurd (ground arith)
]
parse_start-only (arg ∷ value ∷ rest) o p h =
    elim (Bool-cases (text_eq arg (chars "--skip-warning"))) [
      | inl skips ↦
          let (options, same, ask) =
            parse_start-only (value ∷ rest) (record o { skip_warning = true }) p (ground arith) in
          (
            skip_warning ∷ options,
            ap₂ (λ a s. a ∷ s) ((Text_eq.beq_iff arg (chars "--skip-warning")).0 skips) same,
            ask,
          )
      | inr other ↦ elim (Bool-cases (text_eq arg (chars "--interface"))) [
        | inl names ↦
            let (options, same, ask) =
              parse_start-only rest (record o { iface = value }) p (ground arith) in
            (
              interface value ∷ options,
              ap₂ (λ a s. a ∷ value ∷ s) ((Text_eq.beq_iff arg (chars "--interface")).0 names) same,
              ask,
            )
        | inr neither ↦ absurd (ground arith)
      ]
    ]
