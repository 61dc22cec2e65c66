-- ===== src/Storage/Memory.antt =====
-- The files in memory are a store.
use betterconn.Prelude.{◌≡◌, refl, arith, Text_eq, Option, none, some, Text}
use betterconn.Prelude.Dict.{lookup, lookup-insert, lookup-insert_self, lookup-erase}
use betterconn.Os.Memory.{memory, is_found}
use betterconn.Storage.{path_of}
use betterconn.Storage.Laws.{IsStore, is_some}

found_same : (found : Option Text) → is_found found ≡ is_some found
found_same none = refl
found_same (some content) = refl

pub memory-IsStore : IsStore
memory-IsStore = record {
  read_written = λ name content w h. lookup-insert_self (path_of name) content w.files;
  read_other = λ name path content w h. ground (
    arith,
    lookup-insert path (path_of name) content w.files,
    Text_eq.beq_iff path (path_of name),
  );
  read_made = λ name path w. refl;
  read_removed = λ name w. ground (
    arith,
    lookup-erase (path_of name) (path_of name) w.files,
    Text_eq.beq_iff (path_of name) (path_of name),
  );
  read_kept = λ name path w h.
      ground (arith, lookup-erase path (path_of name) w.files, Text_eq.beq_iff path (path_of name));
  exists_read = λ name w. found_same (lookup (path_of name) w.files);
}
