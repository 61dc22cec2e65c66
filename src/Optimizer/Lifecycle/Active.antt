-- ===== src/Optimizer/Lifecycle/Active.antt =====
-- How `apply` and `revert` leave the state that their guards read.
use betterconn.Prelude.{
  beq_refl, ◌≡◌, ◌≢◌, refl, ap, ◌∙◌, true, false, some, Text, text_eq, arith, Text_eq,
  if◌then◌else◌,
}
use betterconn.Io.{ok, throw, ◌>>◌, Done}
use betterconn.Io.Ensures.{Ensures, ensures_rules, Ensures-bind, Ensures-if, Ensures-raise}
use betterconn.Os.{Os, Act}
use betterconn.Optimizer.Lifecycle.{apply, revert, is_active, tune, untune}
use betterconn.Optimizer.Lifecycle.Errors.{apply_refuses, apply_goes_on, revert_refuses}
use betterconn.Storage.{save, load, saved, remove_file, path_of, dir}
use betterconn.Storage.Laws.{read-save, IsStore, is_some}
use betterconn.Text.{chars}

differ : (a b : Text) → text_eq a b ≡ false → a ≢ b
differ a b h = ground (arith, Text_eq.beq_iff a b)

module _ ⦃os : Os⦄ where
  open os use {World, read_file, write_file, exists, make_dirs, remove}

  module _ (store : IsStore) where
    is_active-state :
        (content : Text) (w : World)
        → read_file (path_of (chars "state")) w ≡ some content
        → (is_active w).0
          ≡ ok (if saved (chars "sysctl_backup") w then true else text_eq content (chars "active"))
    unfolding is_active saved load
    is_active-state content w h = ground (arith, store.exists_read (chars "state") w)

    save_active : Ensures (λ w. (is_active w).0 ≡ ok true) (save (chars "state") (chars "active"))
    save_active = record {
      at = λ w a h. ground (
        arith,
        is_active-state (chars "active") (save (chars "state") (chars "active") w).1
            (read-save store (chars "state") (chars "active") w h),
        beq_refl (chars "active"),
      );
    }

    tune-active : (iface : Text) → Ensures (λ w. (is_active w).0 ≡ ok true) (tune iface)
    unfolding tune
    tune-active iface = search (ensures_rules, save_active) depth 30

    -- The machine after the removals at the end of `revert`
    abbrev forgotten : World → World
    forgotten w =
        remove (path_of (chars "iface"))
          (remove (path_of (chars "profile")) (remove (path_of (chars "sysctl_backup")) w))

    read-forgotten :
        (w : World)
        → read_file (path_of (chars "state")) (forgotten w) ≡ read_file (path_of (chars "state")) w
    unfolding path_of chars dir
    read-forgotten w =
        store.read_kept (chars "state") _ _ (differ _ _ refl)
        ∙ (store.read_kept (chars "state") _ _ (differ _ _ refl)
            ∙ store.read_kept (chars "state") _ w (differ _ _ refl))

    saved-forgotten : (w : World) → saved (chars "sysctl_backup") (forgotten w) ≡ false
    unfolding saved path_of chars dir
    saved-forgotten w =
        store.exists_read (chars "sysctl_backup") (forgotten w)
        ∙ ap is_some (
            store.read_kept (chars "sysctl_backup") _ _ (differ _ _ refl)
            ∙ (store.read_kept (chars "sysctl_backup") _ _ (differ _ _ refl)
                ∙ store.read_removed (chars "sysctl_backup") w))

    forgotten-inactive :
        (w : World)
        → (save (chars "state") (chars "inactive") w).0 ≡ ok tt
        → (is_active (forgotten (save (chars "state") (chars "inactive") w).1)).0 ≡ ok false
    unfolding chars
    forgotten-inactive w h =
        let v : World = (save (chars "state") (chars "inactive") w).1 in
        ground (
          arith,
          is_active-state (chars "inactive") (forgotten v)
              (read-forgotten v ∙ read-save store (chars "state") (chars "inactive") w h),
          saved-forgotten v,
        )

    -- The end of `revert`
    abbrev forget : Act Done
    forget = do
      save (chars "state") (chars "inactive")
      remove_file (chars "sysctl_backup")
      remove_file (chars "profile")
      remove_file (chars "iface")

    forget_inactive : Ensures (λ w. (is_active w).0 ≡ ok false) forget
    unfolding remove_file
    forget_inactive = record { at = λ w a h. ground (arith, forgotten-inactive w) }

    untune-inactive : Ensures (λ w. (is_active w).0 ≡ ok false) untune
    unfolding untune
    untune-inactive = search (ensures_rules, forget_inactive) depth 30

    apply-active : (iface : Text) → Ensures (λ w. (is_active w).0 ≡ ok true) (apply iface)
    unfolding apply
    apply-active iface =
        Ensures-bind is_active _
          (λ active. Ensures-if active _ (tune iface) (Ensures-raise _) (tune-active iface))

    revert-inactive : Ensures (λ w. (is_active w).0 ≡ ok false) revert
    unfolding revert
    revert-inactive = search (ensures_rules, untune-inactive) depth 8

  -- Once the program was started without an exception it is active: starting it again, for any
  -- interface, throws and changes nothing.
  pub apply_once :
      (store : IsStore) (iface again : Text) (w : World)
      → (apply iface w).0 ≡ ok tt
      → ((is_active (apply iface w).1).0 ≡ ok true)
        × (apply again (apply iface w).1
            ≡ (throw (chars "betterconn is already active, run stop first"), (apply iface w).1))
  apply_once store iface again w h =
      let active : (is_active (apply iface w).1).0 ≡ ok true =
        (apply-active store iface).at w tt h in
      (active, apply_refuses again (apply iface w).1 active)

  -- Once the program was stopped without an exception it is not active: stopping it again throws
  -- and changes nothing, and starting it goes on to the tuning.
  pub revert_once :
      (store : IsStore) (again : Text) (w : World)
      → (revert w).0 ≡ ok tt
      → ((is_active (revert w).1).0 ≡ ok false)
        × (revert (revert w).1 ≡ (throw (chars "betterconn is not active"), (revert w).1))
        × (apply again (revert w).1 ≡ tune again (revert w).1)
  revert_once store again w h =
      let inactive : (is_active (revert w).1).0 ≡ ok false = (revert-inactive store).at w tt h in
      (inactive, revert_refuses (revert w).1 inactive, apply_goes_on again (revert w).1 inactive)
