-- ===== src/Os.antt =====
-- The machine below the program: files (those of /proc and /sys too), directories and shell
-- commands. None of it is code of the repository, so its operations are parameters.
pub mod Memory
use betterconn.Prelude.{
  if◌then◌else◌, ℕ, Bool, true, false, not, Option, none, some, List, [], ◌≡◌, ◌==◌, Text,
}
use betterconn.Io.{Io, Done, ok, throw}

pub record Os : Type 1 where
  pub World : Type 0
  -- `ifstream`: the content, or `none` if the file does not open
  pub read_file : Text → World → Option Text
  -- `ofstream` on a path, with all that is written to it: whether it opened
  pub write_file : Text → Text → World → Bool × World
  -- `std::filesystem`; `stat_fails` is whether `exists` throws, since the system cannot tell
  pub exists : Text → World → Bool
  pub stat_fails : Text → World → Bool
  pub remove : Text → World → World
  pub remove_all : Text → World → World
  pub make_dirs : Text → World → Bool × World
  pub remove_dir : Text → World → World
  pub list_dir : Text → World → List Text
  -- `readlink`, with `none` for an error or an empty target
  pub read_link : Text → World → Option Text
  -- `steady_clock::now`, in nanoseconds
  pub now : World → ℕ
  -- `time`, and the `st_mtime` of `stat` where it succeeds, in seconds
  pub time : World → ℕ
  pub mtime : Text → World → Option ℕ
  -- `system`: the exit status
  pub system : Text → World → ℕ × World
  -- `popen` read to its end: the output, or `none` if the pipe does not open
  pub popen : Text → World → Option Text × World
  -- `hardware_concurrency`
  pub cpus : World → ℕ

module _ ⦃os : Os⦄ where
  open os use {World, exists, stat_fails, write_file, system}

  abbrev pub Act : Type 0 → Type 0
  Act A = Io World A

  abbrev pub ask : {A : Type 0} → (World → A) → Act A
  ask f w = (ok (f w), w)

  abbrev pub change : (World → World) → Act Done
  change f w = (ok tt, f w)

  abbrev pub with_result : {A : Type 0} → (World → A × World) → Act A
  with_result f w = let (a, w') = f w in (ok a, w')

  -- `std::filesystem::exists(path)` with its exception, whose message is left empty
  abbrev pub test_exists : Text → Act Bool
  test_exists path w = (if stat_fails path w then throw [] else ok (exists path w), w)

  -- `system(command)` whose status is not looked at
  abbrev pub run : Text → Act Done
  run command w = (ok tt, (system command w).1)

  -- `system(command) == 0`
  abbrev pub succeeds : Text → Act Bool
  succeeds command w = let (status, w') = system command w in (ok (status == 0), w')

  -- `std::ofstream f(path); if (f) f << content;`
  abbrev pub write : Text → Text → Act Bool
  write path content = with_result (write_file path content)

  abbrev pub write_quietly : Text → Text → Act Done
  write_quietly path content w = (ok tt, (write_file path content w).1)
