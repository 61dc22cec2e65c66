-- ===== src/Optimizer/Lifecycle/Boot/Writes.antt =====
-- What `revert` writes outside of /etc: the limits of the Wi-Fi queues and the masks of the
-- interrupts.
use betterconn.Prelude.{refl, [], ◌∷◌, ◌++◌, Text, Text_eq, Option, none, some}
use betterconn.Io.{Done, skip, ◌>>=◌, when}
use betterconn.Io.Keeps.{Keeps, keeps_rules, Keeps-pure, Keeps-bind, Keeps-when}
use betterconn.IrqAffinity as IrqAffinity
use betterconn.IrqAffinity.{
  put_back, revert_irq, revert_rps_xps_fallback, restore_irqbalance, affinity_file, queues_path,
  previous_key,
}
use betterconn.Optimizer.Lifecycle.Boot.{
  Gone, StaysGone, ask-Stays, run-Stays, write-Stays, write_quietly-Stays, load-Stays,
  remove_file-Stays,
}
use betterconn.Os.{Os, Act, ask, with_result, write_quietly}
use betterconn.Storage.{load}
use betterconn.Text.{chars, starts_with}
use betterconn.WifiAirtime as WifiAirtime
use betterconn.WifiAirtime.{
  write_queue_limit, write_line, revert_limits, revert_threshold, phy_debugfs_path, limit_file,
  threshold_file,
}
use betterconn.WifiAirtime.Limits.{AirtimeQueueLimit, limit_value}

module _ ⦃os : Os⦄ (path : Text) (stays : StaysGone path) where
  open os use {World, remove, remove_all, read_file, write_file}

  abbrev Stays : {A : Type 0} → Act A → Type 0
  Stays m = Keeps (Gone path) m

  write_queue_limit-Stays :
      (phy : Text) (limit : AirtimeQueueLimit)
      → Stays (write_queue_limit (phy_debugfs_path phy) limit)
  unfolding write_queue_limit write_line phy_debugfs_path chars starts_with
  write_queue_limit-Stays phy limit =
      Keeps-bind _ _
        (write-Stays path stays (limit_file (phy_debugfs_path phy)) (limit_value limit) refl)
        (λ written. Keeps-pure tt)

  revert_limits-Stays : (phy : Text) → Stays (revert_limits (phy_debugfs_path phy))
  unfolding revert_limits
  revert_limits-Stays phy =
      search
        (
          keeps_rules,
          ask-Stays path stays,
          load-Stays path stays,
          remove_file-Stays path stays,
          write_queue_limit-Stays phy,
        )
        depth 12

  threshold-Stays :
      (phy threshold : Text) → Stays (write_line (threshold_file (phy_debugfs_path phy)) threshold)
  unfolding write_line phy_debugfs_path chars starts_with
  threshold-Stays phy threshold =
      write-Stays path stays (threshold_file (phy_debugfs_path phy)) threshold refl

  revert_threshold-Stays : (phy : Text) → Stays (revert_threshold (phy_debugfs_path phy))
  unfolding revert_threshold
  revert_threshold-Stays phy =
      search
        (
          keeps_rules,
          ask-Stays path stays,
          load-Stays path stays,
          remove_file-Stays path stays,
          threshold-Stays phy,
        )
        depth 12

  pub airtime-Stays : Stays WifiAirtime.revert
  unfolding WifiAirtime.revert
  airtime-Stays =
      search
        (
          keeps_rules,
          ask-Stays path stays,
          load-Stays path stays,
          remove_file-Stays path stays,
          revert_limits-Stays,
          revert_threshold-Stays,
        )
        depth 12

  mask-Stays :
      (iface relative_path mask : Text)
      → Stays (write_quietly (queues_path iface ++ (b'/' ∷ relative_path)) mask)
  unfolding chars starts_with
  mask-Stays iface relative_path mask =
      write_quietly-Stays path stays (queues_path iface ++ (b'/' ∷ relative_path)) mask refl

  queues-Stays : (iface : Text) → Stays (revert_rps_xps_fallback iface)
  unfolding revert_rps_xps_fallback
  queues-Stays iface =
      search
        (
          keeps_rules,
          ask-Stays path stays,
          load-Stays path stays,
          remove_file-Stays path stays,
          mask-Stays iface,
        )
        depth 12

  irqbalance-Stays : Stays restore_irqbalance
  unfolding restore_irqbalance chars starts_with
  irqbalance-Stays =
      search (keeps_rules, ask-Stays path stays, run-Stays path stays, remove_file-Stays path stays)
        depth 12

  affinity-Stays : (token content : Text) → Stays (write_quietly (affinity_file token) content)
  unfolding chars starts_with
  affinity-Stays token content = write_quietly-Stays path stays (affinity_file token) content refl

  affinity_opens-Stays : (token : Text) → Stays (with_result (write_file (affinity_file token) []))
  unfolding chars starts_with
  affinity_opens-Stays token = write-Stays path stays (affinity_file token) [] refl

  found-Stays :
      (token : Text) (found : Option Text)
      → Stays (elim found as (λ _. Act Done) [
        | some content ↦ write_quietly (affinity_file token) content
        | none ↦ (do
          opened ← with_result (write_file (affinity_file token) [])
          when opened (do content ← load (previous_key token); skip))
      ])
  found-Stays token (some content) = affinity-Stays token content
  found-Stays token none =
      Keeps-bind (with_result (write_file (affinity_file token) [])) _ (affinity_opens-Stays token)
        (λ opened. Keeps-when opened _ (
          Keeps-bind (load (previous_key token)) _ (load-Stays path stays (previous_key token))
            (λ content. Keeps-pure tt)))

  put_back-Stays : (token : Text) → Stays (put_back token)
  unfolding put_back
  put_back-Stays token = Keeps-bind (ask _) _ (ask-Stays path stays _) (found-Stays token)

  revert_irq-Stays : (token : Text) → Stays (revert_irq token)
  unfolding revert_irq
  revert_irq-Stays token =
      search (keeps_rules, ask-Stays path stays, put_back-Stays, remove_file-Stays path stays) depth
        12

  pub irq-Stays : Stays IrqAffinity.revert
  unfolding IrqAffinity.revert
  irq-Stays =
      search
        (
          keeps_rules,
          ask-Stays path stays,
          load-Stays path stays,
          remove_file-Stays path stays,
          queues-Stays,
          revert_irq-Stays,
          irqbalance-Stays,
        )
        depth 14
