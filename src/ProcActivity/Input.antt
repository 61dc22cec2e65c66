-- ===== src/ProcActivity/Input.antt =====
-- The time since the last input: the newest of the devices under /dev/input.
use betterconn.Prelude.{
  ℕ, ◌-◌, ◌||◌, ltb, Option, none, some, List, [], ◌∷◌, ◌++◌, Text, if◌then◌else◌,
}
use betterconn.Double.{Double, minus_one_real}
use betterconn.Os.{Os}
use betterconn.Text.{chars, starts_with}

module _ ⦃d : Double⦄ where
  open d use {Real, lt, neg, of_ℕ, milli}

  -- `now - st_mtime`
  abbrev seconds_since : ℕ → ℕ → Real
  seconds_since now mtime = if ltb now mtime then neg (of_ℕ (mtime - now)) else of_ℕ (now - mtime)

  abbrev newer : Real → Real → Real
  newer newest delta = if lt newest (milli 0) || lt delta newest then delta else newest

  abbrev newer_found : Real → ℕ → Option ℕ → Real
  newer_found newest now none = newest
  newer_found newest now (some mtime) = newer newest (seconds_since now mtime)

  module _ ⦃os : Os⦄ where
    open os use {World, exists, list_dir, time, mtime}

    -- The loop over the devices
    unfoldable pub newest_delta : Real → List Text → World → Real
    unfolding starts_with
    newest_delta newest [] w = newest
    newest_delta newest (name ∷ rest) w =
        newest_delta
          (if starts_with (chars "event") name
            then newer_found newest (time w) (mtime (chars "/dev/input/" ++ name) w)
            else newest)
          rest w

    unfoldable pub read_evdev_last_activity_seconds : World → Real
    unfolding newest_delta
    read_evdev_last_activity_seconds w =
        if exists (chars "/dev/input") w
        then newest_delta minus_one_real (list_dir (chars "/dev/input") w) w
        else minus_one_real

    unfoldable pub seconds_since_last_input : World → Real
    unfolding read_evdev_last_activity_seconds
    seconds_since_last_input w = read_evdev_last_activity_seconds w
