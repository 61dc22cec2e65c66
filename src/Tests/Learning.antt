-- ===== src/Tests/Learning.antt =====
-- Runs of the learning from the user's focus changes (core/src/context_persistence.cpp) and of the
-- counting of sockets (core/src/proc_activity.cpp).
use betterconn.Prelude.{◌&&◌, [], ◌∷◌, ◌≡◌, arith, any, ℕ_eq}
use betterconn.Prelude.Int.{ℤ, pos, int_eq, ℤ_eq}
use betterconn.Prelude.Dict.{Dict, lookup, member}
use betterconn.ContextPersistence.{
  ContextPersistence, TransitionStat, new_context, record_focus_change, record_transition,
  companion_pid,
}
use betterconn.ContextPersistence.Companion.{IsCompanion, companion_pid_lem}
use betterconn.ContextPersistence.Transitions.{
  IsValid, stat_after, record_transition_lem, record_focus_change-IsValid, new_context-IsValid,
}
use betterconn.ProcActivity.{SocketStateSnapshot, summarize}
use betterconn.ProcActivity.Summary.{count_in, summarize_lem}

abbrev context : ContextPersistence
context = record {
  recent_focus_history = pos 3 ∷ pos 4 ∷ pos 3 ∷ pos 4 ∷ pos 3 ∷ pos 9 ∷ [];
  history_size = 32;
  transitions = [];
  last_recorded_pid = pos 9;
}

companion_pid_lem_example :
    IsCompanion
      (pos 3)
      (pos 3 ∷ pos 4 ∷ pos 3 ∷ pos 4 ∷ pos 3 ∷ pos 9 ∷ [])
      (companion_pid (pos 3) context)
companion_pid_lem_example = companion_pid_lem (pos 3) context

abbrev targets : Dict ℤ TransitionStat
targets = (pos 4, record { occurrences = 3; total_from_occurrences = 3 }) ∷ []

record_transition_lem_example :
    lookup (pos 5) (record_transition (pos 5) targets)
    ≡ stat_after (int_eq (pos 5) (pos 5)) (lookup (pos 5) targets)
record_transition_lem_example = record_transition_lem (pos 5) (pos 5) targets

record_focus_change-IsValid_example : IsValid 1 (record_focus_change (pos 3) new_context)
record_focus_change-IsValid_example =
    record_focus_change-IsValid 0 (pos 3) new_context (omega arith) new_context-IsValid

abbrev snapshot : SocketStateSnapshot
snapshot = record {
  tcp_inodes = 11 ∷ 12 ∷ [];
  established_tcp_inodes = 12 ∷ [];
  udp_inodes = 13 ∷ [];
  queued_bytes_by_inode = [];
}

summarize_lem_example :
    let r = summarize (12 ∷ 13 ∷ 14 ∷ []) snapshot in
    (r.tcp_socket_count ≡ count_in snapshot.tcp_inodes (12 ∷ 13 ∷ 14 ∷ []))
    × (r.udp_socket_count ≡ count_in snapshot.udp_inodes (12 ∷ 13 ∷ 14 ∷ []))
    × (r.has_established_tcp
        ≡ any
            (λ i. member i snapshot.tcp_inodes && member i snapshot.established_tcp_inodes)
            (12 ∷ 13 ∷ 14 ∷ []))
summarize_lem_example = summarize_lem (12 ∷ 13 ∷ 14 ∷ []) snapshot (omega arith)
