-- ===== src/PriorityScheduler.antt =====
-- core/src/priority_scheduler.cpp: the control groups of the tiers, and the thread that scores
-- every tracked process each half second and moves it between them. `poll_loop` is the round
-- `tick` on the loop's variables; the pause between two rounds and the messages on stderr are
-- left out.
pub mod Tier
pub mod Groups
pub mod Round
pub mod Hysteresis
pub mod Tracking
