-- ===== src/Optimizer/Nic.antt =====
-- The interrupt coalescing of the interface: read from `ethtool`, saved, set and put back. The
-- messages on stderr are left out.
use betterconn.Prelude.{
  ℕ, ◌+◌, ◌==◌, Bool, not, ◌||◌, Option, none, some, List, [], ◌∷◌, ◌++◌, Text, length, drop,
  if◌then◌else◌,
}
use betterconn.Io.{◌>>=◌, ◌>>◌, pure, skip, Done, for_each, when}
use betterconn.Os.{Os, Act, ask, with_result, run, succeeds}
use betterconn.ProfileSelector.{LatencyProfile, latency, balanced, throughput}
use betterconn.Storage.{save, load, saved, remove_file}
use betterconn.Text.{chars, find, find_where, is_blank, is_empty, substr_to}

unfoldable pub ethtool_coalesce_args : LatencyProfile → Text
ethtool_coalesce_args latency =
    chars "adaptive-rx off adaptive-tx off rx-usecs 8 rx-frames 8 tx-usecs 16 tx-frames 16"
ethtool_coalesce_args throughput =
    chars "adaptive-rx off adaptive-tx off rx-usecs 250 rx-frames 64 tx-usecs 250 tx-frames 64"
ethtool_coalesce_args balanced = chars "adaptive-rx on adaptive-tx on"

abbrev not_blank : ℕ → Bool
not_blank c = not (is_blank c)

-- " \t\r\n"
abbrev ends_value : ℕ → Bool
ends_value c = is_blank c || c == b'\r' || c == b'\n'

abbrev value_at : Text → Option ℕ → Text
value_at output none = []
value_at output (some start) = substr_to output start (find_where ends_value output start)

unfoldable pub coalesce_field : Text → Text → Text
unfolding find find_where
coalesce_field output key = elim (find key output 0) [
  | none ↦ []
  | some place ↦ value_at output (find_where not_blank output (place + length key))
]

-- The flag of the other direction, on the line of the first one
unfoldable pub adaptive_tx_field : Text → Text
unfolding find coalesce_field
adaptive_tx_field output = elim (find (chars "Adaptive RX:") output 0) [
  | none ↦ []
  | some place ↦ coalesce_field (drop place output) (chars "TX:")
]

abbrev or_off : Text → Text
or_off value = if is_empty value then chars "off" else value

-- `saved_counters`, the keys of the storage with the names of `ethtool`
unfoldable pub saved_counters : List (Text × Text)
saved_counters =
    (chars "nic_rx_usecs", chars "rx-usecs")
    ∷ (chars "nic_rx_frames", chars "rx-frames")
    ∷ (chars "nic_tx_usecs", chars "tx-usecs")
    ∷ (chars "nic_tx_frames", chars "tx-frames")
    ∷ []

abbrev pub ethtool_set : Text → Text → Text
ethtool_set iface args = chars "ethtool -C " ++ (iface ++ (b' ' ∷ (args ++ chars " 2>/dev/null")))

module _ ⦃os : Os⦄ where
  open os use {World, popen}

  unfoldable pub save_fields : Text → Text → Act Done
  unfolding coalesce_field adaptive_tx_field save
  save_fields iface output = do
    save (chars "nic_iface") iface
    save (chars "nic_adaptive_rx") (or_off (coalesce_field output (chars "Adaptive RX:")))
    save (chars "nic_adaptive_tx") (or_off (adaptive_tx_field output))
    save (chars "nic_rx_usecs") (coalesce_field output (chars "rx-usecs:"))
    save (chars "nic_rx_frames") (coalesce_field output (chars "rx-frames:"))
    save (chars "nic_tx_usecs") (coalesce_field output (chars "tx-usecs:"))
    save (chars "nic_tx_frames") (coalesce_field output (chars "tx-frames:"))

  unfoldable pub save_nic_coalesce_state : Text → Act Done
  unfolding save_fields
  save_nic_coalesce_state iface = do
    printed ← with_result (popen (chars "ethtool -c " ++ (iface ++ chars " 2>/dev/null")))
    elim printed [ none ↦ skip | some output ↦ save_fields iface output ]

  -- The requested coalescing, or what the driver manages itself where it is refused
  unfoldable pub set_coalescing : Text → LatencyProfile → Act Done
  unfolding ethtool_coalesce_args
  set_coalescing iface profile = do
    accepted ← succeeds (ethtool_set iface (ethtool_coalesce_args profile))
    when (not accepted) (run (ethtool_set iface (chars "adaptive-rx on adaptive-tx on")))

  unfoldable pub apply_nic_tuning : Text → LatencyProfile → Act Done
  unfolding save_nic_coalesce_state set_coalescing
  apply_nic_tuning iface profile = when (not (is_empty iface)) (do
    available ← succeeds (chars "command -v ethtool >/dev/null 2>&1")
    when available (do save_nic_coalesce_state iface; set_coalescing iface profile))

  -- `exists(key) ? load(key) : otherwise`
  unfoldable pub load_or : Text → Text → Act Text
  unfolding saved load
  load_or key otherwise = do present ← ask (saved key); if present then load key else pure otherwise

  -- The counters that were saved, behind the flags
  unfoldable pub with_counters : Text → List (Text × Text) → Act Text
  unfolding saved load
  with_counters args [] = pure args
  with_counters args ((key, name) ∷ rest) = do
    present ← ask (saved key)
    value ← (if present then load key else pure [])
    with_counters (if is_empty value then args else args ++ (b' ' ∷ (name ++ (b' ' ∷ value)))) rest

  unfoldable pub restore_coalescing : Act Done
  unfolding load load_or with_counters saved_counters
  restore_coalescing = do
    iface ← load (chars "nic_iface")
    adaptive_rx ← load_or (chars "nic_adaptive_rx") (chars "off")
    adaptive_tx ← load_or (chars "nic_adaptive_tx") (chars "off")
    let adaptive_args =
        chars "adaptive-rx " ++ (adaptive_rx ++ (chars " adaptive-tx " ++ adaptive_tx))
    full_args ← with_counters adaptive_args saved_counters
    accepted ← succeeds (ethtool_set iface full_args)
    when (not accepted) (run (ethtool_set iface adaptive_args))

  unfoldable pub forget_coalescing : Act Done
  unfolding remove_file for_each saved_counters
  forget_coalescing = do
    remove_file (chars "nic_iface")
    remove_file (chars "nic_adaptive_rx")
    remove_file (chars "nic_adaptive_tx")
    for_each saved_counters (λ (key, name). remove_file key)

  unfoldable pub revert_nic_tuning : Act Done
  unfolding saved restore_coalescing forget_coalescing
  revert_nic_tuning = do
    present ← ask (saved (chars "nic_iface"))
    when present (do
      available ← succeeds (chars "command -v ethtool >/dev/null 2>&1")
      when available (do restore_coalescing; forget_coalescing))
