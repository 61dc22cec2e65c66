-- ===== src/Optimizer/Lifecycle/Errors.antt =====
-- What the guards of `apply` and `revert` do.
use betterconn.Prelude.{◌≡◌, ◌≢◌, true, false, Text, arith}
use betterconn.Io.{ok, throw}
use betterconn.Os.{Os}
use betterconn.Optimizer.Lifecycle.{apply, revert, is_active, tune}
use betterconn.Storage.{load, saved}
use betterconn.Text.{chars}

module _ ⦃os : Os⦄ where
  open os use {World, read_file}

  pub load-same : (name : Text) (w : World) → (load name w).1 ≡ w
  unfolding load
  load-same name w = ground (arith)

  -- Looking whether the program is active changes nothing.
  pub is_active-same : (w : World) → (is_active w).1 ≡ w
  unfolding is_active
  is_active-same w = ground (arith, load-same (chars "state") w)

  -- While the program is active, starting it throws and changes nothing.
  pub apply_refuses :
      (iface : Text) (w : World)
      → (is_active w).0 ≡ ok true
      → apply iface w ≡ (throw (chars "betterconn is already active, run stop first"), w)
  unfolding apply
  apply_refuses iface w h = ground (arith, is_active-same w)

  -- While it is not active, starting it goes on to the tuning, on the same machine.
  pub apply_goes_on :
      (iface : Text) (w : World) → (is_active w).0 ≡ ok false → apply iface w ≡ tune iface w
  unfolding apply
  apply_goes_on iface w h = ground (arith, is_active-same w)

  -- While it is not active, stopping it throws and changes nothing.
  pub revert_refuses :
      (w : World)
      → (is_active w).0 ≡ ok false
      → revert w ≡ (throw (chars "betterconn is not active"), w)
  unfolding revert
  revert_refuses w h = ground (arith, is_active-same w)

  -- Without a backup of the parameters of the kernel, stopping the program changes nothing and
  -- throws, whatever its state is.
  pub revert-no_backup :
      (w : World)
      → saved (chars "sysctl_backup") w ≡ false
      → ((revert w).1 ≡ w) × ((revert w).0 ≢ ok tt)
  unfolding revert
  revert-no_backup w h = ground (arith, is_active-same w)
