-- ===== src/CommandLine/Daemon.antt =====
-- How the process of cli/src/main.cpp ends, with the loop of `daemon` and the joins behind it.
use betterconn.Prelude.{
  ℕ, zero, suc, ◌≤◌, ◌<◌, ◌≡◌, Bool, true, List, [], ◌∷◌, Text, length, if◌then◌else◌,
}
use betterconn.CommandLine.{Host, Exit, exited, still_running, stop_tuner}
use betterconn.Double.{Double}
use betterconn.Io.{Io, pure}
use betterconn.Io.Gives.{Gives}
use betterconn.Os.{Os, Act}
use betterconn.SurveyMonitor as SurveyMonitor
use betterconn.Tuner.Flag as Flag
use betterconn.Tuner.Flag.{
  Fleet, Tuner, Turn, Owner, tuner, survey_monitor, priority_scheduler, fleet_of, launch,
  first_place, at_flag,
}
use betterconn.Tuner.Flag.Ends.{turns_of}
use betterconn.Tuner.Flag.Turns.{turns}
use betterconn.WifiAirtime as WifiAirtime

-- How many threads an owner has
abbrev threads : Owner → ℕ
threads tuner = 5
threads survey_monitor = 1
threads priority_scheduler = 1

-- Each thread of an owner has two turns.
abbrev pub TakesTurns : Owner → List Turn → Type 0
TakesTurns owner taken = (i : ℕ) → i < threads owner → 2 ≤ turns i (turns_of owner taken)

abbrev HasThreads : Tuner → Type 0
HasThreads t = (owner : Owner) → length (fleet_of owner t).places ≡ threads owner

abbrev HasExited : Exit → Type 0
HasExited exit = (status : ℕ) × (exit ≡ exited status)

-- A machine some seconds later
abbrev pub times : {W : Type 0} → ℕ → (W → W) → W → W
times zero f w = w
times (suc n) f w = times n f (f w)

module _ ⦃d : Double⦄ ⦃os : Os⦄ (host : Host os) where
  open os use {World}
  open host use {
    is_root, pause, g_stop, seconds, turns_before, own_turns, monitor_turns, scheduler_turns,
  }

  abbrev started : Bool → Fleet → Fleet → Tuner
  started wifi monitor scheduler = record {
    own = launch (at_flag ∷ at_flag ∷ at_flag ∷ first_place wifi ∷ at_flag ∷ []);
    survey_monitor_ = monitor;
    priority_scheduler_ = scheduler;
  }

  -- From every state of the machine, the signal comes within the seconds that are looked at.
  abbrev pub SignalComes : Type 0
  SignalComes = (w : World) → (k : ℕ) × (k ≤ seconds) × (g_stop (times k pause w) ≡ true)

  -- While a flag is waited for, each of its threads has two turns.
  abbrev pub ThreadsRun : Type 0
  ThreadsRun =
      TakesTurns tuner own_turns
      × TakesTurns survey_monitor monitor_turns
      × TakesTurns priority_scheduler scheduler_turns

  module _ (comes : SignalComes) (run : ThreadsRun) where
    abbrev stop_if : Tuner → Bool → Act Exit
    stop_if t stopped = if stopped then stop_tuner host t else pure still_running
