-- ===== src/Os/Memory.antt =====
-- A value for the parameter: files in memory that every write opens, commands that all succeed
-- and are kept in a list. It shows that the laws can be met, and lets the definitions run.
use betterconn.Prelude.{
  Text_eq, text_eq, not, ◌||◌, ◌++◌, Bool, true, false, Option, none, some, List, [], ◌∷◌, Text,
}
use betterconn.Prelude.Dict.{Dict, lookup, insert, erase, retain}
use betterconn.Os.{Os}
use betterconn.Text.{starts_with}

pub record Memory : Type 0 where
  pub files : Dict Text Text
  pub commands : List Text

abbrev pub is_found : Option Text → Bool
is_found none = false
is_found (some content) = true

-- A path itself, or one below it
abbrev pub is_within : Text → Text → Bool
is_within path other = text_eq path other || starts_with (path ++ b'/' ∷ []) other

instance abbrev pub memory : Os
memory = record {
  World = Memory;
  read_file = λ path w. lookup path w.files;
  write_file = λ path content w. (true, record w { files = insert path content w.files });
  exists = λ path w. is_found (lookup path w.files);
  stat_fails = λ path w. false;
  remove = λ path w. record w { files = erase path w.files };
  remove_all =
      λ path w. record w { files = retain (λ other content. not (is_within path other)) w.files };
  make_dirs = λ path w. (true, w);
  remove_dir = λ path w. w;
  list_dir = λ path w. [];
  read_link = λ path w. none;
  now = λ w. 0;
  time = λ w. 0;
  mtime = λ path w. none;
  system = λ command w. (0, record w { commands = command ∷ w.commands });
  popen = λ command w. (some [], record w { commands = command ∷ w.commands });
  cpus = λ w. 4;
}
