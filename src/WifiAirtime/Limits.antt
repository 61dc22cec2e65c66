-- ===== src/WifiAirtime/Limits.antt =====
-- The queue limits of a radio, as debugfs and the storage spell them.
use betterconn.Prelude.{
  ℕ, suc, true, false, ◌&&◌, Option, none, some, List, [], ◌∷◌, ◌++◌, Text, ltb, drop,
}
use betterconn.Prelude.Chain.{◌>>=◌, ◌>>◌, guard}
use betterconn.Prelude.Int.{ℤ, pos, is_pos}
use betterconn.Text.Decimal.{to_string_ℤ}
use betterconn.Text.Lines.{lines}
use betterconn.Text.Stream.{read_int, read_word}

pub record AirtimeQueueLimit : Type 0 where
  pub access_category : ℤ
  pub low_us : ℤ
  pub high_us : ℤ

unfoldable pub tightened_limits : List AirtimeQueueLimit
tightened_limits =
    record { access_category = pos 0; low_us = pos 2000; high_us = pos 5000 }
    ∷ record { access_category = pos 1; low_us = pos 2000; high_us = pos 5000 }
    ∷ record { access_category = pos 2; low_us = pos 3000; high_us = pos 8000 }
    ∷ record { access_category = pos 3; low_us = pos 3000; high_us = pos 8000 }
    ∷ []

-- `ss >> label >> low >> high` and the test behind it
unfoldable pub read_limit : ℕ → Text → Option AirtimeQueueLimit
unfolding read_word read_int
read_limit access_category line = do
  (label, after_label) ← read_word line
  (low, after_low) ← read_int after_label
  (high, after_high) ← read_int after_low
  guard (is_pos low && is_pos high)
  some (record { access_category = pos access_category; low_us = low; high_us = high })

unfoldable pub limits_from : ℕ → List AirtimeQueueLimit → List Text → List AirtimeQueueLimit
unfolding read_limit
limits_from access_category limits [] = limits
limits_from access_category limits (line ∷ rest) = elim (ltb access_category 4) [
  | false ↦ limits
  | true ↦ elim (read_limit access_category line) [
    | none ↦ []
    | some limit ↦ limits_from (suc access_category) (limits ++ limit ∷ []) rest
  ]
]

-- `read_queue_limits` on the content of the file, whose first line is a heading
unfoldable pub queue_limits : Text → List AirtimeQueueLimit
unfolding limits_from lines
queue_limits content = limits_from 0 [] (drop 1 (lines content))

unfoldable pub limit_value : AirtimeQueueLimit → Text
unfolding to_string_ℤ
limit_value limit =
    to_string_ℤ limit.access_category
    ++ (b' ' ∷ (to_string_ℤ limit.low_us ++ (b' ' ∷ to_string_ℤ limit.high_us)))

unfoldable pub serialize_limits : List AirtimeQueueLimit → Text
unfolding limit_value
serialize_limits [] = []
serialize_limits (limit ∷ rest) = limit_value limit ++ (b'\n' ∷ serialize_limits rest)

-- `line_stream >> access_category >> low >> high`
unfoldable pub read_saved_limit : Text → Option AirtimeQueueLimit
unfolding read_int
read_saved_limit line = do
  (access_category, after_category) ← read_int line
  (low, after_low) ← read_int after_category
  (high, after_high) ← read_int after_low
  some (record { access_category = access_category; low_us = low; high_us = high })

unfoldable pub limits_of : List Text → List AirtimeQueueLimit
unfolding read_saved_limit
limits_of [] = []
limits_of (line ∷ rest) = elim (read_saved_limit line) [
  | none ↦ limits_of rest
  | some limit ↦ limit ∷ limits_of rest
]

unfoldable pub deserialize_limits : Text → List AirtimeQueueLimit
unfolding limits_of lines
deserialize_limits raw = limits_of (lines raw)
