-- ===== src/Storage.antt =====
-- core/src/storage.cpp: the files that the program keeps under /var/lib/.betterconn, by name.
pub mod Laws
pub mod Memory
use betterconn.Prelude.{
  ℕ, Bool, true, false, not, Option, none, some, List, [], ◌∷◌, ◌++◌, Text, if◌then◌else◌,
}
use betterconn.Io.{◌>>=◌, ◌>>◌, pure, raise, skip, Done, when}
use betterconn.Os.{Os, Act, ask, change, test_exists, with_result}
use betterconn.Text.{chars}

unfoldable pub dir : Text
dir = chars "/var/lib/.betterconn"

-- `dir() / name`, for a name that is no absolute path
unfoldable pub path_of : Text → Text
unfolding dir
path_of name = dir ++ (b'/' ∷ name)

module _ ⦃os : Os⦄ where
  open os use {World, read_file, write_file, exists, remove, make_dirs}

  -- `create_directories` throws the library's own message, which is left empty here.
  unfoldable pub ensure_dir : Act Done
  ensure_dir = do made ← with_result (make_dirs dir); if made then skip else raise []

  unfoldable pub save : Text → Text → Act Done
  unfolding ensure_dir
  save name content = do
    ensure_dir
    opened ← with_result (write_file (path_of name) content)
    if opened then skip else raise (chars "[!!] cannot write storage file: " ++ name)

  unfoldable pub load : Text → Act Text
  load name = do
    found ← ask (read_file (path_of name))
    elim found [
      | none ↦ raise (chars "[!!] cannot read storage file: " ++ name)
      | some content ↦ pure content
    ]

  unfoldable pub saved : Text → World → Bool
  saved name w = exists (path_of name) w

  -- `exists` with its exception
  unfoldable pub test_saved : Text → Act Bool
  test_saved name = test_exists (path_of name)

  unfoldable pub remove_file : Text → Act Done
  remove_file name = change (remove (path_of name))
