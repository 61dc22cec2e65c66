-- ===== src/CommandLine/Guards.antt =====
-- What the commands of cli/src/main.cpp do to the machine before they may change it, and how they end.
use betterconn.Prelude.{◌≡◌, refl, true, false, none, some, List, [], ◌∷◌, Text, arith, ◌⊎◌}
use betterconn.Arguments.{StartOptions, parse_start, no_start_options}
use betterconn.CommandLine.{
  Host, consents, status, list, confirm, start_with, start, stop, clean_up, daemon, network,
  command, main,
}
use betterconn.Double.{Double}
use betterconn.Io.{ok, throw}
use betterconn.Optimizer.Lifecycle.{is_active}
use betterconn.Optimizer.Lifecycle.Errors.{is_active-same}
use betterconn.Os.{Os}

module _ ⦃d : Double⦄ ⦃os : Os⦄ (host : Host os) where
  open os use {World}
  open host use {is_root, read_line}

  pub start-unprivileged :
      (args : List Text) (w : World) → is_root w ≡ false → (start host args w).1 ≡ w
  unfolding start
  start-unprivileged args w h = rw h refl

  pub stop-unprivileged : (w : World) → is_root w ≡ false → (stop host w).1 ≡ w
  unfolding stop
  stop-unprivileged w h = rw h refl

  status-unprivileged : (w : World) → is_root w ≡ false → (status host w).1 ≡ w
  unfolding status
  status-unprivileged w h = rw h refl

  list-same : (w : World) → (list host w).1 ≡ w
  unfolding list
  list-same w = refl

  clean_up-unprivileged : (w : World) → is_root w ≡ false → (clean_up host w).1 ≡ w
  unfolding clean_up
  clean_up-unprivileged w h = rw h refl

  daemon-unprivileged : (w : World) → is_root w ≡ false → (daemon host w).1 ≡ w
  unfolding daemon
  daemon-unprivileged w h = rw h refl

  network-unprivileged :
      (args : List Text) (w : World) → is_root w ≡ false → (network host args w).1 ≡ w
  unfolding network
  network-unprivileged args w h = ground arith

  command-unprivileged :
      (cmd : Text) (args : List Text) (w : World)
      → is_root w ≡ false
      → (command host cmd args w).1 ≡ w
  unfolding command
  command-unprivileged cmd args w h = ground (
    arith,
    start-unprivileged args w,
    stop-unprivileged w,
    clean_up-unprivileged w,
    daemon-unprivileged w,
    status-unprivileged w,
    list-same w,
    network-unprivileged args w,
  )

  -- Without root privileges no command and no options change the machine.
  pub main-unprivileged :
      (args : List Text) (w : World) → is_root w ≡ false → (main host args w).1 ≡ w
  unfolding main
  main-unprivileged [] w h = refl
  main-unprivileged (cmd ∷ []) w h = ground (arith, command-unprivileged cmd [] w)
  main-unprivileged (cmd ∷ arg ∷ rest) w h = command-unprivileged cmd (arg ∷ rest) w h

  -- An active program is not started again, and wrong options start nothing: the machine does not
  -- change and the status is 1.
  pub start_refused :
      (args : List Text) (w : World)
      → is_root w ≡ true
      → ((is_active w).0 ≡ ok true)
        ⊎ (((is_active w).0 ≡ ok false) × (parse_start args no_start_options ≡ none))
      → start host args w ≡ (ok 1, w)
  unfolding start
  start_refused args w root reason = ground (arith, is_active-same w)

  start_with-declined :
      (o : StartOptions) (w : World)
      → o.skip_warning ≡ false
      → consents (read_line w).0 ≡ false
      → start_with host o w ≡ (ok 0, (read_line w).1)
  unfolding start_with confirm
  start_with-declined o w h no_answer = ground arith

  -- Where the options do not skip the warning, and without consent, reading the answer is all that
  -- happens.
  pub start-asked :
      (args : List Text) (o : StartOptions) (w : World)
      → is_root w ≡ true
      → (is_active w).0 ≡ ok false
      → parse_start args no_start_options ≡ some o
      → o.skip_warning ≡ false
      → consents (read_line w).0 ≡ false
      → start host args w ≡ (ok 0, (read_line w).1)
  unfolding start
  start-asked args o w root inactive parsed asks no_answer =
      ground (arith, is_active-same w, start_with-declined o w)

  pub start-failed :
      (args : List Text) (message : Text) (w : World)
      → is_root w ≡ true
      → (is_active w).0 ≡ throw message
      → start host args w ≡ (throw message, w)
  unfolding start
  start-failed args message w root failed = ground (arith, is_active-same w)

  pub stop-asked :
      (w : World)
      → is_root w ≡ true
      → (is_active w).0 ≡ ok true
      → consents (read_line w).0 ≡ false
      → stop host w ≡ (ok 0, (read_line w).1)
  unfolding stop confirm
  stop-asked w root active no_answer = ground (arith, is_active-same w)

  pub stop-inactive :
      (w : World) → is_root w ≡ true → (is_active w).0 ≡ ok false → stop host w ≡ (ok 1, w)
  unfolding stop
  stop-inactive w root inactive = ground (arith, is_active-same w)

  pub stop-failed :
      (message : Text) (w : World)
      → is_root w ≡ true
      → (is_active w).0 ≡ throw message
      → stop host w ≡ (throw message, w)
  unfolding stop
  stop-failed message w root failed = ground (arith, is_active-same w)
