-- ===== src/PriorityScheduler/Round.antt =====
-- One round of `poll_loop` over the loop's variables.
use betterconn.Prelude.{
  ℕ, ◌+◌, ◌%◌, Bool, true, false, not, ◌&&◌, ◌||◌, Option, none, some, List, [], ◌∷◌, Text, ltb,
  leb, ◌==◌, if◌then◌else◌,
}
use betterconn.AudioActivityMonitor
use betterconn.AudioActivityMonitor.{pids_playing_audio}
use betterconn.ContextPersistence.{
  ContextPersistence, new_context, record_focus_change, companion_pid, has_companion,
}
use betterconn.Double.{Double}
use betterconn.FocusDecayTracker.{
  FocusDecayTracker, new_tracker, mark_focused, mark_recently_used, update_network_activity,
  is_currently_focused, decay_factor_for, has_network_activity, tracked_pids, forget_stale_entries,
}
use betterconn.Io.{◌>>=◌, ◌>>◌, pure, when}
use betterconn.NetworkFlowClassifier.{Samples, sample, forget, looks_interactive}
use betterconn.Os.{Os, Act, ask}
use betterconn.Prelude.Dict.{Dict, lookup, insert, erase, member}
use betterconn.Prelude.Int.{ℤ, is_pos, minus_one, ℤ_eq}
use betterconn.PriorityScheduler.Groups.{cgroup_v2_mounted, move_pid_to_tier}
use betterconn.PriorityScheduler.Tier.{Decision, corrected_decay, retier}
use betterconn.PriorityTier.{PriorityTier}
use betterconn.ProcActivity.{
  SocketStateSnapshot, capture_socket_state, collect_socket_inodes_for, summarize,
}
use betterconn.SessionEnvironment.{detect, command_prefix}
use betterconn.WindowFocus.{
  WindowFocusBackend, no_backend, x11_xdotool, wayland_sway, wayland_hyprland,
  detect_available_backend, get_focused_pid, get_pid_under_cursor,
}

abbrev pub network_rescan_every_ticks : ℕ
network_rescan_every_ticks = 6

abbrev pub stale_entry_prune_every_ticks : ℕ
stale_entry_prune_every_ticks = 40

abbrev pub session_retry_every_ticks : ℕ
session_retry_every_ticks = 20

abbrev pub missing_focus_ticks_before_redetect : ℕ
missing_focus_ticks_before_redetect = 20

module _ ⦃d : Double⦄ where
  -- The variables that `poll_loop` keeps between two rounds. `tick_count` is an `int` that grows
  -- by one each half second and is taken as unbounded.
  pub record LoopState : Type 0 where
    pub env_prefix : Text
    pub backend : WindowFocusBackend
    pub focus_tracker : FocusDecayTracker
    pub context_persistence : ContextPersistence
    pub flow_classifier : Samples
    pub audio_available : Bool
    pub current_tier : Dict ℤ PriorityTier
    pub ticks_in_tier : Dict ℤ ℕ
    pub audio_active_pids : List ℤ
    pub tick_count : ℕ
    pub ticks_without_focus : ℕ

  abbrev is_missing : WindowFocusBackend → Bool
  is_missing no_backend = true
  is_missing x11_xdotool = false
  is_missing wayland_sway = false
  is_missing wayland_hyprland = false

  abbrev ticks_held : Option ℕ → ℕ
  ticks_held none = 0
  ticks_held (some n) = n

  -- The tables after a decision on one process.
  unfoldable pub store_decision : ℤ → Decision → LoopState → LoopState
  store_decision pid decision s = record s {
    current_tier = insert pid decision.effective_tier s.current_tier;
    ticks_in_tier = insert pid decision.ticks_in_tier s.ticks_in_tier;
  }

  -- The decision on one process, at the clock's reading.
  unfoldable pub decide : ℕ → ℤ → LoopState → Decision
  unfolding retier corrected_decay is_currently_focused decay_factor_for looks_interactive
      has_network_activity
  decide now pid s =
      let focused = is_currently_focused pid s.focus_tracker in
      let rescued =
        has_network_activity pid s.focus_tracker && looks_interactive pid s.flow_classifier in
      let noisy =
        not focused && s.audio_available && member pid s.audio_active_pids && not rescued in
      retier focused (corrected_decay rescued noisy (decay_factor_for now pid s.focus_tracker))
        (lookup pid s.current_tier) (ticks_held (lookup pid s.ticks_in_tier))

  -- Whether the body goes beyond its `continue`.
  unfoldable pub is_scored : ℤ → LoopState → Bool
  unfolding is_currently_focused has_network_activity
  is_scored pid s =
      is_currently_focused pid s.focus_tracker || has_network_activity pid s.focus_tracker

  -- The focus part of a round, once the active process is known.
  unfoldable pub observe_focus : ℕ → ℤ → LoopState → LoopState
  unfolding mark_focused record_focus_change has_companion companion_pid mark_recently_used
  observe_focus now active_pid s =
      if is_pos active_pid
      then (let context = record_focus_change active_pid s.context_persistence in
          let focused = mark_focused now active_pid s.focus_tracker in
          let companion = companion_pid active_pid context in
          record s {
            ticks_without_focus = 0;
            context_persistence = context;
            focus_tracker =
                (if has_companion active_pid context && is_pos companion
                  then mark_recently_used now companion focused
                  else focused);
          })
      else record s { ticks_without_focus = s.ticks_without_focus + 1 }

  -- The walk over `current_tier` that drops processes which are no longer tracked.
  unfoldable pub drop_untracked : List ℤ → Dict ℤ PriorityTier → LoopState → LoopState
  unfolding forget
  drop_untracked live [] s = s
  drop_untracked live ((pid, tier) ∷ rest) s = drop_untracked live rest (
      if member pid live then s else record s {
        ticks_in_tier = erase pid s.ticks_in_tier;
        flow_classifier = forget pid s.flow_classifier;
        current_tier = erase pid s.current_tier;
      })

  unfoldable pub prune : ℕ → LoopState → LoopState
  unfolding forget_stale_entries tracked_pids drop_untracked
  prune now s =
      let tracker = forget_stale_entries now (d.milli 300000) s.focus_tracker in
      drop_untracked (tracked_pids tracker) s.current_tier (record s { focus_tracker = tracker })

  module _ ⦃os : Os⦄ where
    open os use {World, now}

    -- Lines 170 to 177: the session is looked for again.
    unfoldable pub redetect : LoopState → Act LoopState
    unfolding detect command_prefix detect_available_backend
    redetect s =
        if (is_missing s.backend || leb missing_focus_ticks_before_redetect s.ticks_without_focus)
          && s.tick_count % session_retry_every_ticks == 0
        then (do
          session ← ask detect
          let prefix = command_prefix session
          found ← detect_available_backend prefix
          pure (record s { env_prefix = prefix; backend = found; ticks_without_focus = 0 }))
        else pure s

    unfoldable pub find_active_pid : LoopState → Act ℤ
    unfolding get_focused_pid get_pid_under_cursor
    find_active_pid s = if is_missing s.backend then pure minus_one else (do
      keyboard ← get_focused_pid s.backend s.env_prefix
      if is_pos keyboard then pure keyboard else get_pid_under_cursor s.backend s.env_prefix)

    -- The loop over the tracked processes in a network rescan.
    unfoldable pub rescan_pids : List ℤ → SocketStateSnapshot → LoopState → World → LoopState
    unfolding collect_socket_inodes_for summarize update_network_activity sample forget
    rescan_pids [] snapshot s w = s
    rescan_pids (pid ∷ rest) snapshot s w =
        let inodes = collect_socket_inodes_for pid w in
        let activity = summarize inodes snapshot in
        let active = activity.has_established_tcp || ltb 0 activity.udp_socket_count in
        rescan_pids rest snapshot
          (record s {
            focus_tracker = update_network_activity pid active s.focus_tracker;
            flow_classifier =
                (if active
                  then sample pid inodes snapshot s.flow_classifier
                  else forget pid s.flow_classifier);
          })
          w

    unfoldable pub rescan_network : LoopState → Act LoopState
    unfolding rescan_pids capture_socket_state pids_playing_audio tracked_pids
    rescan_network s =
        if s.tick_count % network_rescan_every_ticks == 0
        then (do
          pids ← (if s.audio_available then pids_playing_audio else pure s.audio_active_pids)
          snapshot ← ask capture_socket_state
          ask (
              rescan_pids (tracked_pids s.focus_tracker) snapshot
                (record s { audio_active_pids = pids })))
        else pure s

    unfoldable pub score_pid : ℤ → LoopState → Act LoopState
    unfolding decide store_decision is_scored move_pid_to_tier
    score_pid pid s =
        if is_scored pid s
        then (do
          t ← ask now
          let decision = decide t pid s
          when decision.tier_changed (move_pid_to_tier pid decision.effective_tier)
          pure (store_decision pid decision s))
        else pure s

    unfoldable pub score_pids : List ℤ → LoopState → Act LoopState
    unfolding score_pid
    score_pids [] s = pure s
    score_pids (pid ∷ rest) s = do s' ← score_pid pid s; score_pids rest s'

    unfoldable pub prune_if_due : LoopState → Act LoopState
    unfolding prune
    prune_if_due s =
        if s.tick_count % stale_entry_prune_every_ticks == 0
        then (do t ← ask now; pure (prune t s))
        else pure s

    -- The body of the `while` loop.
    unfoldable pub tick : LoopState → Act LoopState
    unfolding redetect find_active_pid observe_focus rescan_network score_pids prune_if_due
    tick s = do
      s1 ← redetect s
      active_pid ← find_active_pid s1
      t ← ask now
      let s2 = observe_focus t active_pid s1
      s3 ← rescan_network s2
      s4 ← score_pids (tracked_pids s3.focus_tracker) s3
      s5 ← prune_if_due s4
      pure (record s5 { tick_count = s5.tick_count + 1 })

    -- The variables before the first round; `none` if there is no cgroup v2 and the thread ends.
    unfoldable pub poll_start : Act (Option LoopState)
    unfolding detect command_prefix detect_available_backend cgroup_v2_mounted
    poll_start = do
      mounted ← ask cgroup_v2_mounted
      if not mounted then pure none else (do
        session ← ask detect
        let prefix = command_prefix session
        found ← detect_available_backend prefix
        audio ← AudioActivityMonitor.available
        pure (
            some (record {
              env_prefix = prefix;
              backend = found;
              focus_tracker = new_tracker;
              context_persistence = new_context;
              flow_classifier = [];
              audio_available = audio;
              current_tier = [];
              ticks_in_tier = [];
              audio_active_pids = [];
              tick_count = 0;
              ticks_without_focus = 0;
            })))
