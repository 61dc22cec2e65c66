-- ===== src/Tests/Stored.antt =====
-- Runs of the storage (core/src/storage.cpp) and of what is saved for a radio
-- (core/src/wifi_airtime.cpp), on files in memory.
use betterconn.Prelude.{[], ◌∷◌, ◌≡◌, refl}
use betterconn.Os.Memory.{Memory, memory}
use betterconn.Storage.{saved, path_of}
use betterconn.Storage.Memory.{memory-IsStore}
use betterconn.Text.{chars}
use betterconn.WifiAirtime.{apply}
use betterconn.WifiAirtime.Baseline.{apply-keeps}
use betterconn.WifiAirtime.Limits.{queue_limits, serialize_limits, deserialize_limits}
use betterconn.WifiAirtime.RoundTrip.{deserialize_limits-queue_limits}

abbrev machine : Memory
machine = record {
  files =
      (chars "/var/lib/.betterconn/aql_saved_limits", chars "0 1500 5000\n")
      ∷ (chars "/sys/class/net/wlan0/phy80211/name", chars "phy0\n")
      ∷ (chars "/sys/kernel/debug/ieee80211/phy0/aql_txq_limit", chars "AC limits\nVO 1500 5000\n")
      ∷ (chars "/sys/kernel/debug/ieee80211", [])
      ∷ [];
  commands = [];
}

deserialize_limits-queue_limits_example :
    deserialize_limits (serialize_limits (queue_limits (chars "AC limits\nVO 1500 5000\n")))
    ≡ queue_limits (chars "AC limits\nVO 1500 5000\n")
deserialize_limits-queue_limits_example =
    deserialize_limits-queue_limits (chars "AC limits\nVO 1500 5000\n")

apply-keeps_example :
    memory.read_file (path_of (chars "aql_saved_limits")) (apply (chars "wlan0") machine).1
    ≡ memory.read_file (path_of (chars "aql_saved_limits")) machine
unfolding saved chars path_of
apply-keeps_example =
    apply-keeps memory-IsStore (chars "wlan0") (chars "aql_saved_limits") machine (λ v. refl)
      (λ v. refl) refl
