-- ===== src/Tuner/Flag.antt =====
-- The flags that end the threads, and the places of the threads in their loops: the flag of
-- core/src/tuner.cpp with its five threads, and those of core/src/survey_monitor.cpp and
-- core/src/priority_scheduler.cpp with one thread each, which the tuner starts and stops too.
pub mod Ends
pub mod Turns
use betterconn.Prelude.{
  ℕ, zero, suc, Bool, true, false, Option, none, some, List, [], ◌∷◌, Text, if◌then◌else◌,
}
use betterconn.Double.{Double}
use betterconn.Io.{◌>>=◌, ◌>>◌, pure}
use betterconn.Os.{Os, Act, ask}
use betterconn.PriorityScheduler.Groups.{cgroup_v2_mounted}
use betterconn.SurveyMonitor as SurveyMonitor
use betterconn.Tuner.Counters.{is_wifi}
use betterconn.WifiAirtime as WifiAirtime

-- A thread is about to read the flag, in its round, or over.
pub data Place : Type 0 where
  at_flag : Place
  in_round : Place
  over : Place

-- A flag with its threads
pub record Fleet : Type 0 where
  pub running : Bool
  pub places : List Place

-- `while (running) round()`
unfoldable pub advance : Bool → Place → Place
advance running at_flag = if running then in_round else over
advance running in_round = at_flag
advance running over = over

-- One step of the thread with a number
unfoldable pub advance_at : ℕ → Bool → List Place → List Place
unfolding advance
advance_at n running [] = []
advance_at zero running (place ∷ rest) = advance running place ∷ rest
advance_at (suc n) running (place ∷ rest) = place ∷ advance_at n running rest

-- Steps of the threads of one flag, in any order
unfoldable pub run_steps : List ℕ → Fleet → Fleet
unfolding advance_at
run_steps [] fleet = fleet
run_steps (n ∷ steps) fleet =
    run_steps steps (record fleet { places = advance_at n fleet.running fleet.places })

unfoldable pub launch : List Place → Fleet
launch places = record { running = true; places = places }

unfoldable pub lower_flag : Fleet → Fleet
lower_flag fleet = record fleet { running = false }

-- Whether every join returns
abbrev pub all_over : List Place → Bool
all_over [] = true
all_over (over ∷ rest) = all_over rest
all_over (at_flag ∷ rest) = false
all_over (in_round ∷ rest) = false

pub data Owner : Type 0 where
  tuner : Owner
  survey_monitor : Owner
  priority_scheduler : Owner

pub record Tuner : Type 0 where
  pub own : Fleet
  pub survey_monitor_ : Fleet
  pub priority_scheduler_ : Fleet

abbrev pub fleet_of : Owner → Tuner → Fleet
fleet_of tuner t = t.own
fleet_of survey_monitor t = t.survey_monitor_
fleet_of priority_scheduler t = t.priority_scheduler_

abbrev pub update : Owner → (Fleet → Fleet) → Tuner → Tuner
update tuner f t = record t { own = f t.own }
update survey_monitor f t = record t { survey_monitor_ = f t.survey_monitor_ }
update priority_scheduler f t = record t { priority_scheduler_ = f t.priority_scheduler_ }

-- A turn of the thread with a number among those of an owner
abbrev pub Turn : Type 0
Turn = Owner × ℕ

-- Turns of all threads, in any order
unfoldable pub run_turns : List Turn → Tuner → Tuner
unfolding run_steps
run_turns [] t = t
run_turns ((owner, n) ∷ turns) t = run_turns turns (update owner (run_steps (n ∷ [])) t)

-- The flag goes down, and the joins wait while the threads take turns; `none` is a join that still
-- waits after them.
unfoldable pub halt : Owner → List Turn → Tuner → Option Tuner
unfolding lower_flag run_turns
halt owner turns t =
    let t' = run_turns turns (update owner lower_flag t) in
    if all_over (fleet_of owner t').places then some t' else none

abbrev then_halt : Owner → List Turn → Option Tuner → Option Tuner
then_halt owner turns none = none
then_halt owner turns (some t) = halt owner turns t

-- `stop`, with the turns that are taken while each of the three flags is waited for
unfoldable pub stop : List Turn → List Turn → List Turn → Tuner → Option Tuner
unfolding halt
stop own monitors schedulers t =
    then_halt priority_scheduler schedulers (then_halt survey_monitor monitors (halt tuner own t))

-- The place of a thread that looks at the machine first, and returns if it is not for it
abbrev pub first_place : Bool → Place
first_place needed = if needed then at_flag else over

module _ ⦃d : Double⦄ ⦃os : Os⦄ where
  -- What the monitor's thread looks at first is read as it starts.
  unfoldable pub start_monitor : Text → Act Fleet
  unfolding launch SurveyMonitor.is_wifi
  start_monitor iface = do
    wifi ← ask (SurveyMonitor.is_wifi iface)
    pure (launch (first_place wifi ∷ []))

  -- So is what the scheduler's thread looks at first
  unfoldable pub start_scheduler : Act Fleet
  unfolding launch cgroup_v2_mounted
  start_scheduler = do mounted ← ask cgroup_v2_mounted; pure (launch (first_place mounted ∷ []))

  -- and what the tuner's thread for Wi-Fi looks at first.
  unfoldable pub start : Text → Act Tuner
  unfolding WifiAirtime.apply launch start_monitor start_scheduler is_wifi
  start iface = do
    WifiAirtime.apply iface
    wifi ← ask (is_wifi iface)
    monitor ← start_monitor iface
    scheduler ← start_scheduler
    pure (record {
      own = launch (at_flag ∷ at_flag ∷ at_flag ∷ first_place wifi ∷ at_flag ∷ []);
      survey_monitor_ = monitor;
      priority_scheduler_ = scheduler;
    })
