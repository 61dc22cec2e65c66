-- ===== src/Storage/Laws.antt =====
-- What the file system below the storage is taken to do, and what the storage then does.
use betterconn.Prelude.{
  Bool, true, false, Option, none, some, ap, ◌∙◌, ◌++◌, Text, ◌≡◌, ◌≢◌, refl, arith,
}
use betterconn.Io.{ok, throw}
use betterconn.Os.{Os}
use betterconn.Storage.{path_of, ensure_dir, save, load, saved, remove_file, dir}
use betterconn.Text.{chars}

abbrev pub is_some : {A : Type 0} → Option A → Bool
is_some none = false
is_some (some a) = true

module _ ⦃os : Os⦄ where
  open os use {World, read_file, write_file, exists, remove, make_dirs}

  -- A file of the storage holds what was last written to it until it is removed, neither writes to
  -- other paths nor their removal nor the making of directories change it, and it exists if it can
  -- be read.
  pub record IsStore : Type 0 where
    pub read_written :
        (name content : Text) (w : World)
        → (write_file (path_of name) content w).0 ≡ true
        → read_file (path_of name) (write_file (path_of name) content w).1 ≡ some content
    pub read_other :
        (name path content : Text) (w : World)
        → path ≢ path_of name
        → read_file (path_of name) (write_file path content w).1 ≡ read_file (path_of name) w
    pub read_made :
        (name path : Text) (w : World)
        → read_file (path_of name) (make_dirs path w).1 ≡ read_file (path_of name) w
    pub read_removed :
        (name : Text) (w : World) → read_file (path_of name) (remove (path_of name) w) ≡ none
    pub read_kept :
        (name path : Text) (w : World)
        → path ≢ path_of name
        → read_file (path_of name) (remove path w) ≡ read_file (path_of name) w
    pub exists_read :
        (name : Text) (w : World) → exists (path_of name) w ≡ is_some (read_file (path_of name) w)

  -- A name that was saved without an exception is loaded with the content it was saved with, and
  -- loading changes nothing.
  pub load-save :
      (store : IsStore) (name content : Text) (w : World)
      → (save name content w).0 ≡ ok tt
      → load name (save name content w).1 ≡ (ok content, (save name content w).1)
  unfolding save load ensure_dir
  load-save store name content w h =
      ground (arith, store.read_written name content (make_dirs dir w).1)

  exists_removed :
      (store : IsStore) (name : Text) (w : World)
      → exists (path_of name) (remove (path_of name) w) ≡ false
  exists_removed store name w =
      store.exists_read name (remove (path_of name) w) ∙ ap is_some (store.read_removed name w)

  -- A name that was removed is no longer there, and loading it throws.
  pub load-remove_file :
      (store : IsStore) (name : Text) (w : World)
      → (saved name (remove_file name w).1 ≡ false)
        × (load name (remove_file name w).1
            ≡ (throw (chars "[!!] cannot read storage file: " ++ name), (remove_file name w).1))
  unfolding load saved remove_file
  load-remove_file store name w = (exists_removed store name w, rw (store.read_removed name w) refl)

  -- What the file of a name holds once the name was saved without an exception.
  pub read-save :
      (store : IsStore) (name content : Text) (w : World)
      → (save name content w).0 ≡ ok tt
      → read_file (path_of name) (save name content w).1 ≡ some content
  unfolding save ensure_dir
  read-save store name content w h =
      ground (arith, store.read_written name content (make_dirs dir w).1)

  -- Loading gives the content of the file and changes nothing.
  pub load-read :
      (name content : Text) (w : World)
      → read_file (path_of name) w ≡ some content
      → load name w ≡ (ok content, w)
  unfolding load
  load-read name content w h = rw h refl
