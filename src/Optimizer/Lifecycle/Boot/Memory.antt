-- ===== src/Optimizer/Lifecycle/Boot/Memory.antt =====
-- Files in memory: what is removed is back only by a write.
use betterconn.Prelude.{◌≡◌, ◌≢◌, refl, not, true, false, [], ◌∷◌, Text, Text_eq, arith}
use betterconn.Prelude.Dict.{Dict, retain, lookup, lookup-insert, lookup-erase, insert, erase}
use betterconn.Optimizer.Lifecycle.Boot.{is_outside, StaysGone}
use betterconn.Os.Memory.{memory, is_found, is_within}

erased : (path : Text) (files : Dict Text Text) → is_found (lookup path (erase path files)) ≡ false
erased path files = ground (arith, lookup-erase path path files, Text_eq.beq_iff path path)

still_erased :
    (path other : Text) (files : Dict Text Text)
    → is_found (lookup path files) ≡ false
    → is_found (lookup path (erase other files)) ≡ false
still_erased path other files h = ground (arith, lookup-erase other path files)

unwritten :
    (path other content : Text) (files : Dict Text Text)
    → other ≢ path
    → is_found (lookup path files) ≡ false
    → is_found (lookup path (insert other content files)) ≡ false
unwritten path other content files d h =
    ground (arith, lookup-insert other path content files, Text_eq.beq_iff other path)

within_gone :
    (path directory : Text) (files : Dict Text Text)
    → is_within directory path ≡ true
    → is_found (lookup path (retain (λ other content. not (is_within directory other)) files))
      ≡ false
within_gone path directory [] h = refl
within_gone path directory ((other, content) ∷ files) h =
    ground (arith, Text_eq.beq_iff other path, within_gone path directory files)

still_gone :
    (path directory : Text) (files : Dict Text Text)
    → is_found (lookup path files) ≡ false
    → is_found (lookup path (retain (λ other content. not (is_within directory other)) files))
      ≡ false
still_gone path directory [] h = refl
still_gone path directory ((other, content) ∷ files) h =
    ground (arith, still_gone path directory files)

apart : (path other : Text) → is_outside path ≡ false → is_outside other ≡ true → other ≢ path
apart path other inside outside same = let both : true ≡ false = cc in absurd (ground arith)

pub memory-StaysGone : (path : Text) → is_outside path ≡ false → StaysGone path
memory-StaysGone path inside = record {
  removed = λ w. erased path w.files;
  removed_below = λ directory w below. within_gone path directory w.files (ground arith);
  by_command = λ command w tool h. h;
  by_remove = λ other w h. still_erased path other w.files h;
  by_remove_all = λ other w h. still_gone path other w.files h;
  by_remove_dir = λ other w h. h;
  by_make_dirs = λ other w o h. h;
  by_write =
      λ other content w o h. unwritten path other content w.files (apart path other inside o) h;
}
