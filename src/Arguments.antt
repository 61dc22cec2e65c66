-- ===== src/Arguments.antt =====
-- cli/src/main.cpp: the options of the commands `start` and `network`.
pub mod Written
use betterconn.Prelude.{
  Bool, true, false, ◌||◌, Option, none, some, List, [], ◌∷◌, Text, text_eq, if◌then◌else◌,
}
use betterconn.Text.{chars}

pub record StartOptions : Type 0 where
  pub skip_warning : Bool
  pub iface : Text

pub record NetworkOptions : Type 0 where
  pub show_help : Bool
  pub show_secrets : Bool
  -- `has_interface_toggle` with `interface_toggle_on`
  pub toggle : Option Bool

-- The loop over the options of `start`, with `none` for an error
unfoldable pub parse_start : List Text → StartOptions → Option StartOptions
parse_start [] o = some o
parse_start (arg ∷ []) o =
    if text_eq arg (chars "--skip-warning") then some (record o { skip_warning = true }) else none
parse_start (arg ∷ value ∷ rest) o =
    let skips = parse_start (value ∷ rest) (record o { skip_warning = true }) in
    let names = parse_start rest (record o { iface = value }) in
    if text_eq arg (chars "--skip-warning")
    then skips
    else if text_eq arg (chars "--interface")
    then names
    else none

-- An option of `network` that stands alone
abbrev flag : Text → NetworkOptions → Option NetworkOptions
flag arg o =
    if text_eq arg (chars "--info")
    then some o
    else if text_eq arg (chars "--secrets")
    then some (record o { show_secrets = true })
    else if text_eq arg (chars "-h") || text_eq arg (chars "--help")
    then some (record o { show_help = true })
    else none

abbrev on_or_off : Text → Option Bool
on_or_off value =
    if text_eq value (chars "on")
    then some true
    else if text_eq value (chars "off")
    then some false
    else none

-- The loop over the options of `network`, with `none` for an error
unfoldable pub parse_network : List Text → NetworkOptions → Option NetworkOptions
parse_network [] o = some o
parse_network (arg ∷ []) o = flag arg o
parse_network (arg ∷ value ∷ rest) o = elim (text_eq arg (chars "--interface")) [
  | true ↦ elim (on_or_off value) [
    | none ↦ none
    | some on ↦ parse_network rest (record o { toggle = some on })
  ]
  | false ↦ elim (flag arg o) [ none ↦ none | some p ↦ parse_network (value ∷ rest) p ]
]

unfoldable pub no_start_options : StartOptions
no_start_options = record { skip_warning = false; iface = [] }

unfoldable pub no_network_options : NetworkOptions
no_network_options = record { show_help = false; show_secrets = false; toggle = none }
