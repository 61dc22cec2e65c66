-- ===== src/Lib.antt =====
-- betterconn is a daemon and a command line that tune the network stack of a Linux desktop: a
-- set of kernel parameters and firewall rules applied at once, and threads that watch the user's
-- focus and the processes' traffic and move the processes between four control groups, whose
-- packets are marked with four priorities. This library models the parts below and proves what
-- makes each of them correct. Paths are those of the repository.
--
-- How the parts interact. The round of the scheduler (core/src/priority_scheduler.cpp) asks the
-- focus backend which process is active, tells the focus tracker and the learner of focus
-- changes, rescans the sockets of every tracked process into the flow classifier every sixth
-- round, decides a tier for every process that has the focus or uses the network, moves those
-- whose tier changed, and prunes what it no longer tracks every fortieth round. Packet marking
-- names the same control groups in firewall rules. The parts that change the machine keep what
-- they replace in the storage, and put it back from there: the optimizer
-- (core/src/optimizer.cpp) calls them one after the other when the program starts and again when it
-- stops, and its guards read the storage. The command line (cli/src/main.cpp) calls the optimizer
-- and the cleaner; the daemon runs the threads of the tuner (core/src/tuner.cpp), which share one
-- sample of measurements and the state of the survey monitor.
--
--   Prelude        shared names: Boolean tests, lists, signed integers, dictionaries, chains of
--                  optional results
--   Text           the operations of `std::string`, `getline`, `>>`, `stoi` and `to_string`
--   Double         `double`, a parameter with the order laws that the proofs use, and whole
--                  thousandths that satisfy them
--   Io             code that changes the machine and may throw, with rules for what an act keeps,
--                  ensures and gives
--   Os             the machine: files, directories, commands, a parameter; files in memory
--   PriorityTier   core/src/priority_tier.cpp and its header
--   FocusDecayTracker      core/src/focus_decay_tracker.cpp
--   ContextPersistence     core/src/context_persistence.cpp
--   ProcActivity           core/src/proc_activity.cpp
--   NetworkFlowClassifier  core/src/network_flow_classifier.cpp
--   AudioActivityMonitor   core/src/audio_activity_monitor.cpp
--   WindowFocus            core/src/window_focus_backend.cpp
--   SessionEnvironment     core/src/session_environment.cpp
--   PriorityScheduler      core/src/priority_scheduler.cpp: Tier (the decision), Groups (the
--                          control groups), Round (the body of `poll_loop`)
--   Storage                core/src/storage.cpp
--   SystemDefaults         core/src/system_defaults.cpp
--   ProfileSelector        core/src/profile_selector.cpp
--   WifiAirtime            core/src/wifi_airtime.cpp
--   PacketMarking          core/src/packet_marking.cpp
--   IrqAffinity            core/src/irq_affinity.cpp
--   SurveyMonitor          core/src/survey_monitor.cpp: Block (the search for the channel), Ratio
--                          (what is published)
--   Tuner                  core/src/tuner.cpp: Rtt and Counters (the measurements), Loops (a round
--                          of each thread), Threads (their interleaving), Flag (the start and
--                          the end of the threads, with those of core/src/survey_monitor.cpp
--                          and core/src/priority_scheduler.cpp)
--   Optimizer              core/src/optimizer.cpp: Backup and Restore (the kernel's parameters),
--                          Nic, Interface, Persistence, Lifecycle (`apply` and `revert`; Boot
--                          is about the files that are read at the next boot)
--   Cleaner                core/src/cleaner.cpp
--   Status                 core/src/status.cpp
--   NetworkInfo            core/src/network_info.cpp
--   Arguments              cli/src/main.cpp: the options of `start` and `network`
--   CommandLine            cli/src/main.cpp: the commands, Guards (root privileges), Consent (the
--                          question), Daemon (the loop that waits for a signal, and the joins)
--   Tests                  runs on concrete inputs
--
-- How the code is rendered. A function of the source has a definition of the same name; a method
-- that changes its object takes the object as its last argument and returns it. Code that calls
-- the system takes the state of the machine and returns it with a value or an exception. Texts
-- are lists of byte values. `uint64_t` counters keep their wrap-around (`% 2 ^ 64`); an `int`
-- that only counts rounds, or holds a process number, is unbounded, but for a `long` that is cast
-- to it, with the ranges of `stoi` and `>>` kept where a number is read. A set is a list without
-- duplicates, a map is a dictionary, and the order in which an `unordered_map` is walked is the
-- order of the dictionary. Clocks are readings in nanoseconds that the caller passes; one round
-- of the scheduler uses one reading for the two marks it makes. Texts that are read from a pipe
-- or a file are read whole. Errors of the file system other than a file that does not open or a
-- directory that cannot be made are left out, except that `test_exists` throws where
-- `std::filesystem::exists` cannot tell whether there is a file, as it may in the removal
-- (core/src/cleaner.cpp), in the test for files of an earlier run and before a control group is
-- removed.
--
-- Loops that search a text run on fuel of one unit more than the bytes of the text: each pass
-- moves forward by a byte at least, so there are fewer passes than units of fuel.
-- The printing of numbers runs on fuel of one unit more than the number, which is more than its
-- digits.
--
-- The threads of the tuner are steps of a relation: each step is a round of one thread, and any
-- change of the machine may come between two steps. A round reads the shared sample at once, where
-- the program reads one atomic variable after the other.
--
-- The three flags that end the threads are modelled apart from what the threads do, with the
-- places of the threads in their loops. `stop` takes the turns of the threads as arguments, and a
-- join that still waits behind them is `none`. The daemon's loop reads the flag of the signal for
-- a number of seconds that is a parameter; `still_running` is a process that is not over behind
-- them. What a thread looks at before its loop is read as it starts.
--
-- Not modelled: the pauses of the threads; the messages, help texts and colours
-- (core/include/betterconn/colors.hpp), and the digits of the numbers that core/src/status.cpp
-- prints; the build files and scripts.
pub mod Arguments
pub mod Status
pub mod NetworkInfo
pub mod CommandLine
pub mod Cleaner
pub mod SurveyMonitor
pub mod Prelude
pub mod Text
pub mod Double
pub mod Io
pub mod Os
pub mod PriorityTier
pub mod FocusDecayTracker
pub mod ContextPersistence
pub mod ProcActivity
pub mod NetworkFlowClassifier
pub mod AudioActivityMonitor
pub mod WindowFocus
pub mod SessionEnvironment
pub mod PriorityScheduler
pub mod Storage
pub mod SystemDefaults
pub mod ProfileSelector
pub mod WifiAirtime
pub mod PacketMarking
pub mod IrqAffinity
pub mod Tuner
pub mod Optimizer
mod Tests
