-- ===== src/Optimizer/Restore.antt =====
-- What the backup of core/src/optimizer.cpp does to the parameters of the kernel when it is restored.
use betterconn.Prelude.{
  ◌≡◌, ◌≢◌, refl, ap, ◌∙◌, true, false, some, not, List, [], ◌∷◌, Text, Text_eq, text_eq, sym, inl,
  inr, Bool-cases, arith, keep, if◌then◌else◌,
}
use betterconn.Prelude.Dict.{Dict, keys, member}
use betterconn.Io.{ok, ◌>>=◌, Done, skip, for_each, >>=-ok}
use betterconn.Os.{Os, Act}
use betterconn.Optimizer.{
  base_params, backup_text, backup_entries, snapshot, read_sysctl, write_sysctl, save_backup,
  restore_backup,
}
use betterconn.Optimizer.Backup.{has_value, backup_entries-snapshot}
use betterconn.Storage.{load, path_of}
use betterconn.Storage.Laws.{IsStore, read-save, load-read}
use betterconn.SystemDefaults.{sysctl_path}
use betterconn.Text.{chars, is_empty}
use betterconn.Text.Lines.{lines}

abbrev paths : Dict Text Text → List Text
paths [] = []
paths ((key, value) ∷ rest) = sysctl_path key ∷ paths rest

-- No two entries of the table stand for the same file of the kernel.
abbrev DistinctPaths : Dict Text Text → Type 0
DistinctPaths [] = Unit {0}
DistinctPaths ((key, value) ∷ rest) =
    (member (sysctl_path key) (paths rest) ≡ false) × DistinctPaths rest

base_params-DistinctPaths : DistinctPaths base_params
unfolding base_params chars sysctl_path
base_params-DistinctPaths = ground arith

member-paths :
    (key : Text) (params : Dict Text Text)
    → member key (keys params) ≡ true
    → member (sysctl_path key) (paths params) ≡ true
member-paths key [] h = h
member-paths key ((k, value) ∷ rest) h = ground (
  arith,
  Text_eq.beq_iff k key,
  Text_eq.beq_iff (sysctl_path k) (sysctl_path key),
  member-paths key rest,
)

apart_path :
    (k key : Text) (params : Dict Text Text)
    → member (sysctl_path k) (paths params) ≡ false
    → member key (keys params) ≡ true
    → sysctl_path k ≢ sysctl_path key
apart_path k key params apart listed = ground (arith, member-paths key params listed)

-- The value of a parameter after the backup is restored, from the one in the backup and the one
-- before
abbrev pub overwritten : Text → Text → Text
overwritten old now = if is_empty old then now else old

module _ ⦃os : Os⦄ where
  open os use {World, read_file}

  -- The kernel takes the value that a parameter has on a machine for that parameter later on: behind
  -- the write of it, it is what is read.
  abbrev pub TakesBack : Text → World → Type 0
  TakesBack key w =
      (v : World) → read_sysctl key (write_sysctl key (read_sysctl key w) v).1 ≡ read_sysctl key w

  -- A write of another parameter of a table leaves a parameter alone.
  abbrev pub Independent : Text → Dict Text Text → Type 0
  Independent key params =
      (other value : Text) (v : World)
      → member other (keys params) ≡ true
      → sysctl_path other ≢ sysctl_path key
      → read_sysctl key (write_sysctl other value v).1 ≡ read_sysctl key v

  Independent-rest :
      (key k value : Text) (rest : Dict Text Text)
      → Independent key ((k, value) ∷ rest)
      → Independent key rest
  Independent-rest key k value rest alone other new v listed differs =
      alone other new v (ground arith) differs

  -- The loop of `restore_backup`
  abbrev write_back : Dict Text Text → Act Done
  write_back entries =
      for_each entries (λ (key, value). (do written ← write_sysctl key value; skip))

  abbrev written_back : Dict Text Text → World → World → World
  written_back params w v = (write_back (keep has_value (snapshot params w)) v).1

  head_kept :
      (key value : Text) (rest : Dict Text Text) (w v : World)
      → is_empty (read_sysctl key w) ≡ false
      → written_back ((key, value) ∷ rest) w v
        ≡ written_back rest w (write_sysctl key (read_sysctl key w) v).1
  unfolding snapshot for_each write_sysctl
  head_kept key value rest w v h =
      ap
        (λ t.
          (write_back
            (elim (not t) [
              | true ↦ (key, read_sysctl key w) ∷ keep has_value (snapshot rest w)
              | false ↦ keep has_value (snapshot rest w)
            ])
            v).1)
        h

  head_left :
      (key value : Text) (rest : Dict Text Text) (w v : World)
      → is_empty (read_sysctl key w) ≡ true
      → written_back ((key, value) ∷ rest) w v ≡ written_back rest w v
  unfolding snapshot
  head_left key value rest w v h =
      ap
        (λ t.
          (write_back
            (elim (not t) [
              | true ↦ (key, read_sysctl key w) ∷ keep has_value (snapshot rest w)
              | false ↦ keep has_value (snapshot rest w)
            ])
            v).1)
        h

  -- The head of a table changes no other parameter.
  head-other :
      (key k value : Text) (rest : Dict Text Text) (w v : World)
      → Independent key ((k, value) ∷ rest)
      → sysctl_path k ≢ sysctl_path key
      → (u : World) × (written_back ((k, value) ∷ rest) w v ≡ written_back rest w u)
        × (read_sysctl key u ≡ read_sysctl key v)
  head-other key k value rest w v alone differs = elim (Bool-cases (is_empty (read_sysctl k w))) [
    | inl empty ↦ (v, head_left k value rest w v empty, refl)
    | inr full ↦ (
      (write_sysctl k (read_sysctl k w) v).1,
      head_kept k value rest w v full,
      alone k (read_sysctl k w) v (ground (arith, Text_eq.beq_iff k k)) differs,
    )
  ]

  read-written_back_other :
      (key : Text) (params : Dict Text Text) (w v : World)
      → Independent key params
      → member (sysctl_path key) (paths params) ≡ false
      → read_sysctl key (written_back params w v) ≡ read_sysctl key v
  unfolding for_each snapshot
  read-written_back_other key [] w v alone h = refl
  read-written_back_other key ((k, value) ∷ rest) w v alone h =
      let (u, next, same) =
        head-other key k value rest w v alone
          (ground (arith, Text_eq.beq_iff (sysctl_path k) (sysctl_path key))) in
      ap (read_sysctl key) next
      ∙ (read-written_back_other key rest w u (Independent-rest key k value rest alone)
            (ground arith)
          ∙ same)

  read-written_back_head :
      (key value : Text) (rest : Dict Text Text) (w v : World)
      → TakesBack key w
      → Independent key rest
      → member (sysctl_path key) (paths rest) ≡ false
      → read_sysctl key (written_back ((key, value) ∷ rest) w v)
        ≡ overwritten (read_sysctl key w) (read_sysctl key v)
  read-written_back_head key value rest w v takes alone h =
      elim (Bool-cases (is_empty (read_sysctl key w))) [
        | inl empty ↦
            ap (read_sysctl key) (head_left key value rest w v empty)
            ∙ (read-written_back_other key rest w v alone h
                ∙ ap (λ b. if b then read_sysctl key v else read_sysctl key w) (sym empty))
        | inr full ↦
            ap (read_sysctl key) (head_kept key value rest w v full)
            ∙ (read-written_back_other key rest w _ alone h
                ∙ (takes v
                    ∙ ap (λ b. if b then read_sysctl key v else read_sysctl key w) (sym full)))
      ]

  read-written_back :
      (key : Text) (params : Dict Text Text) (w v : World)
      → DistinctPaths params
      → TakesBack key w
      → Independent key params
      → member key (keys params) ≡ true
      → read_sysctl key (written_back params w v)
        ≡ overwritten (read_sysctl key w) (read_sysctl key v)
  read-written_back key [] w v distinct takes alone h = ground arith
  read-written_back key ((k, value) ∷ rest) w v (apart, distinct) takes alone h =
      elim (Bool-cases (text_eq k key)) [
        | inl same ↦
            let equal : key ≡ k = sym ((Text_eq.beq_iff k key).0 same) in
            let apart' : member (sysctl_path key) (paths rest) ≡ false =
              ap (λ t. member (sysctl_path t) (paths rest)) equal ∙ apart in
            ap (λ t. read_sysctl key (written_back ((t, value) ∷ rest) w v)) (sym equal)
            ∙ read-written_back_head key value rest w v takes
                (Independent-rest key k value rest alone) apart'
        | inr differs ↦
            let listed : member key (keys rest) ≡ true = ground arith in
            let (u, next, same) =
              head-other key k value rest w v alone (apart_path k key rest apart listed) in
            ap (read_sysctl key) next
            ∙ (read-written_back key rest w u distinct takes
                  (Independent-rest key k value rest alone) listed
                ∙ ap (overwritten (read_sysctl key w)) same)
      ]

  write_back-ok : (entries : Dict Text Text) (w : World) → (write_back entries w).0 ≡ ok tt
  unfolding for_each write_sysctl
  write_back-ok [] w = refl
  write_back-ok ((key, value) ∷ rest) w = write_back-ok rest (write_sysctl key value w).1

  saved_text :
      (store : IsStore) (w : World)
      → (save_backup w).0 ≡ ok tt
      → read_file (path_of (chars "sysctl_backup")) (save_backup w).1
        ≡ some (backup_text (snapshot base_params w))
  unfolding save_backup
  saved_text store w done =
      read-save store (chars "sysctl_backup") (backup_text (snapshot base_params w)) w done

  restore_backup-written_back :
      (w v : World)
      → read_file (path_of (chars "sysctl_backup")) v ≡ some (backup_text (snapshot base_params w))
      → restore_backup v ≡ write_back (keep has_value (snapshot base_params w)) v
  unfolding restore_backup
  restore_backup-written_back w v holds =
      >>=-ok (load (chars "sysctl_backup")) (λ backup. write_back (backup_entries (lines backup))) v
        v (backup_text (snapshot base_params w)) (load-read (chars "sysctl_backup") _ v holds)
      ∙ ap (λ entries. write_back entries v) (backup_entries-snapshot w)

  -- Restoring a backup that was taken without an exception, and whose file is still the same, throws
  -- nothing. A parameter of the table gets the value that it had when the backup was taken, and is
  -- left alone if it had none, provided that the kernel takes that value back and that no write of
  -- another parameter of the table changes it.
  pub restore_backup-save_backup :
      (store : IsStore) (w v : World)
      → (save_backup w).0 ≡ ok tt
      → read_file (path_of (chars "sysctl_backup")) v
        ≡ read_file (path_of (chars "sysctl_backup")) (save_backup w).1
      → (key : Text) → member key (keys base_params) ≡ true
      → TakesBack key w
      → Independent key base_params
      → ((restore_backup v).0 ≡ ok tt)
        × (read_sysctl key (restore_backup v).1
            ≡ overwritten (read_sysctl key w) (read_sysctl key v))
  restore_backup-save_backup store w v done same key listed takes alone =
      let restored : restore_backup v ≡ write_back (keep has_value (snapshot base_params w)) v =
        restore_backup-written_back w v (same ∙ saved_text store w done) in
      (
        ap (λ r. r.0) restored ∙ write_back-ok (keep has_value (snapshot base_params w)) v,
        ap (λ r. read_sysctl key r.1) restored
            ∙ read-written_back key base_params w v base_params-DistinctPaths takes alone listed,
      )
