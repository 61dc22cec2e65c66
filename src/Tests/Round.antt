-- ===== src/Tests/Round.antt =====
-- Runs of a round of core/src/priority_scheduler.cpp, with files in memory.
use betterconn.Prelude.{◌≡◌, true, false, none, List, [], ◌∷◌, if◌then◌else◌}
use betterconn.ContextPersistence.{new_context}
use betterconn.Double.Fixed.{fixed}
use betterconn.FocusDecayTracker.{new_tracker, tracked_pids}
use betterconn.FocusDecayTracker.Laws.{Call, perform_all}
use betterconn.Os.Memory.{Memory, memory}
use betterconn.Prelude.Dict.{lookup, member}
use betterconn.Prelude.Int.{pos, ℤ_eq}
use betterconn.PriorityScheduler.Round.{LoopState, prune}
use betterconn.PriorityScheduler.Tracking.{prune_lem}
use betterconn.PriorityTier.{cool}
use betterconn.WindowFocus.{WindowFocusBackend}

abbrev calls : List Call
calls = Call.focus 0 (pos 7) ∷ Call.recent 10 (pos 8) ∷ Call.network (pos 8) true ∷ []

abbrev state : LoopState
state = record {
  env_prefix = [];
  backend = WindowFocusBackend.no_backend;
  focus_tracker = perform_all calls new_tracker;
  context_persistence = new_context;
  flow_classifier = [];
  audio_available = false;
  current_tier = (pos 8, cool) ∷ (pos 9, cool) ∷ [];
  ticks_in_tier = (pos 8, 2) ∷ [];
  audio_active_pids = [];
  tick_count = 40;
  ticks_without_focus = 0;
}

abbrev machine : Memory
machine = record { files = []; commands = [] }

prune_lem_example : lookup (pos 9) (prune 50 state).current_tier ≡ (
    if member (pos 9) (tracked_pids (prune 50 state).focus_tracker)
    then lookup (pos 9) state.current_tier
    else none)
prune_lem_example = prune_lem 50 state (pos 9)
