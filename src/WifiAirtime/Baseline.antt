-- ===== src/WifiAirtime/Baseline.antt =====
-- What `apply` of core/src/wifi_airtime.cpp does to the saved limits when there are some already.
use betterconn.Prelude.{
  ℕ, ◌<◌, true, ◌++◌, Text, ◌≡◌, ◌≢◌, refl, ap, ◌∙◌, Bool-cases, inl, inr, arith, get_or,
}
use betterconn.Io.{ok, ◌>>=◌, >>=-ok, for_each, when, Done}
use betterconn.Os.{Os, Act, ask}
use betterconn.Storage.{path_of, dir, saved}
use betterconn.Storage.Laws.{IsStore}
use betterconn.Text.{chars, is_empty}
use betterconn.WifiAirtime.Limits.{tightened_limits}
use betterconn.WifiAirtime.{
  apply, apply_to_phy, mount_debugfs, mount_command, save_baseline, tighten, write_queue_limit,
  write_line, phy_debugfs_path, limit_file, debugfs_available, phy_name_for,
}

<-≢ : (a b : ℕ) → a < b → a ≢ b
<-≢ a b less e = omega arith

-- No path of a radio is one of the storage: the two differ in their second byte.
phy_path_differs : (phy rest name : Text) → (phy_debugfs_path phy ++ rest) ≢ path_of name
unfolding phy_debugfs_path path_of dir chars
phy_path_differs phy rest name e = <-≢ b's' b'v' (omega arith) (ap (λ p. get_or p 1 0) e)

module _ ⦃os : Os⦄ where
  open os use {World, read_file, write_file, exists, system}

  write-keeps :
      (store : IsStore) (name phy rest value : Text) (w : World)
      → read_file (path_of name) (write_file (phy_debugfs_path phy ++ rest) value w).1
        ≡ read_file (path_of name) w
  write-keeps store name phy rest value w =
      store.read_other name (phy_debugfs_path phy ++ rest) value w (phy_path_differs phy rest name)

  tighten-keeps :
      (store : IsStore) (phy name : Text) (w : World)
      → read_file (path_of name) (tighten (phy_debugfs_path phy) w).1 ≡ read_file (path_of name) w
  unfolding tighten write_queue_limit write_line for_each tightened_limits
  tighten-keeps store phy name w =
      write-keeps store name phy _ _ _
      ∙ (write-keeps store name phy _ _ _
          ∙ (write-keeps store name phy _ _ _
              ∙ (write-keeps store name phy _ _ _ ∙ write-keeps store name phy _ _ w)))

  save_baseline-saved :
      (phy phy_path : Text) (w : World)
      → saved (chars "aql_saved_limits") w ≡ true
      → save_baseline phy phy_path w ≡ (ok true, w)
  unfolding save_baseline
  save_baseline-saved phy phy_path w h = ground arith

  apply_to_phy-keeps :
      (store : IsStore) (phy name : Text) (w : World)
      → saved (chars "aql_saved_limits") w ≡ true
      → read_file (path_of name) (apply_to_phy phy w).1 ≡ read_file (path_of name) w
  unfolding apply_to_phy
  apply_to_phy-keeps store phy name w h =
      elim (Bool-cases (exists (limit_file (phy_debugfs_path phy)) w)) [
        | inr unknown ↦ rw unknown refl
        | inl known ↦ rw known (
            ap (λ p. read_file (path_of name) p.1)
              (>>=-ok (save_baseline phy (phy_debugfs_path phy))
                (λ goes_on. when goes_on (tighten (phy_debugfs_path phy))) w w true
                (save_baseline-saved phy (phy_debugfs_path phy) w h))
            ∙ tighten-keeps store phy name w)
      ]

  abbrev apply_if_there : Text → Done → Act Done
  apply_if_there phy _ = do available ← ask debugfs_available; when available (apply_to_phy phy)

  after_mount :
      (store : IsStore) (phy name : Text) (w : World)
      → saved (chars "aql_saved_limits") w ≡ true
      → read_file (path_of name) (when (debugfs_available w) (apply_to_phy phy) w).1
        ≡ read_file (path_of name) w
  after_mount store phy name w h = elim (Bool-cases (debugfs_available w)) [
    | inl available ↦ rw available (apply_to_phy-keeps store phy name w h)
    | inr missing ↦ rw missing refl
  ]

  -- Applied again when the limits of the radio are saved already, `apply` changes no file of the
  -- storage, so the saved limits stay those from before the first time; mounting debugfs is taken
  -- to leave the storage alone, and what is there.
  pub apply-keeps :
      (store : IsStore) (iface name : Text) (w : World)
      → ((v : World)
          → read_file (path_of name) (system mount_command v).1 ≡ read_file (path_of name) v)
      → ((v : World)
          → saved (chars "aql_saved_limits") (system mount_command v).1
            ≡ saved (chars "aql_saved_limits") v)
      → saved (chars "aql_saved_limits") w ≡ true
      → read_file (path_of name) (apply iface w).1 ≡ read_file (path_of name) w
  unfolding apply mount_debugfs
  apply-keeps store iface name w kept there h =
      elim (Bool-cases (is_empty (phy_name_for iface w))) [
        | inl nothing ↦ rw nothing refl
        | inr phy ↦ elim (Bool-cases (debugfs_available w)) [
          | inl available ↦ rw phy (
              ap (λ p. read_file (path_of name) p.1)
                (>>=-ok mount_debugfs (apply_if_there (phy_name_for iface w)) w w tt
                  (rw available refl))
              ∙ after_mount store (phy_name_for iface w) name w h)
          | inr missing ↦ rw phy (
              ap (λ p. read_file (path_of name) p.1)
                (>>=-ok mount_debugfs (apply_if_there (phy_name_for iface w)) w
                  (system mount_command w).1 tt (rw missing refl))
              ∙ after_mount store (phy_name_for iface w) name (system mount_command w).1
                  (there w ∙ h)
              ∙ kept w)
        ]
      ]
