-- ===== src/Tuner/Flag/Ends.antt =====
-- `stop` of the tuner against the turns of all threads.
use betterconn.Prelude.{
  ℕ, zero, suc, ◌≤◌, ◌<◌, ◌≡◌, refl, ap, ◌∙◌, some, Bool, true, false, List, [], ◌∷◌, arith,
  if◌then◌else◌, length,
}
use betterconn.Tuner.Flag.{
  Place, at_flag, in_round, over, Fleet, advance, advance_at, run_steps, all_over, Owner, tuner,
  survey_monitor, priority_scheduler, Tuner, fleet_of, update, Turn, run_turns, lower_flag, halt,
  then_halt, stop,
}
use betterconn.Tuner.Flag.Turns.{turns, Enough-run_steps, Enough-two}

abbrev same_owner : Owner → Owner → Bool
same_owner tuner tuner = true
same_owner tuner survey_monitor = false
same_owner tuner priority_scheduler = false
same_owner survey_monitor tuner = false
same_owner survey_monitor survey_monitor = true
same_owner survey_monitor priority_scheduler = false
same_owner priority_scheduler tuner = false
same_owner priority_scheduler survey_monitor = false
same_owner priority_scheduler priority_scheduler = true

-- The turns of an owner's threads
unfoldable pub turns_of : Owner → List Turn → List ℕ
turns_of owner [] = []
turns_of owner ((other, n) ∷ turns) =
    let later = turns_of owner turns in if same_owner owner other then n ∷ later else later

fleet_of-update :
    (owner other : Owner) (n : ℕ) (later : List ℕ) (t : Tuner)
    → run_steps later (fleet_of owner (update other (run_steps (n ∷ [])) t))
      ≡ run_steps (if same_owner owner other then n ∷ later else later) (fleet_of owner t)
unfolding run_steps
fleet_of-update tuner tuner n later t = refl
fleet_of-update tuner survey_monitor n later t = refl
fleet_of-update tuner priority_scheduler n later t = refl
fleet_of-update survey_monitor tuner n later t = refl
fleet_of-update survey_monitor survey_monitor n later t = refl
fleet_of-update survey_monitor priority_scheduler n later t = refl
fleet_of-update priority_scheduler tuner n later t = refl
fleet_of-update priority_scheduler survey_monitor n later t = refl
fleet_of-update priority_scheduler priority_scheduler n later t = refl

-- An owner's threads see only the turns of their own.
fleet_of-run_turns :
    (owner : Owner) (turns : List Turn) (t : Tuner)
    → fleet_of owner (run_turns turns t) ≡ run_steps (turns_of owner turns) (fleet_of owner t)
unfolding run_turns turns_of run_steps
fleet_of-run_turns owner [] t = refl
fleet_of-run_turns owner ((other, n) ∷ turns) t =
    fleet_of-run_turns owner turns (update other (run_steps (n ∷ [])) t)
    ∙ fleet_of-update owner other n (turns_of owner turns) t

fleet_of-lowered :
    (owner : Owner) (t : Tuner)
    → fleet_of owner (update owner lower_flag t) ≡ lower_flag (fleet_of owner t)
fleet_of-lowered tuner t = refl
fleet_of-lowered survey_monitor t = refl
fleet_of-lowered priority_scheduler t = refl

-- Each thread of the owner has two turns.
abbrev pub TwoTurns : Owner → List Turn → Tuner → Type 0
TwoTurns owner taken t =
    (i : ℕ) → i < length (fleet_of owner t).places → 2 ≤ turns i (turns_of owner taken)

abbrev pub is_over : Owner → Tuner → Bool
is_over owner t = all_over (fleet_of owner t).places

halt_over :
    (owner : Owner) (taken : List Turn) (t : Tuner)
    → TwoTurns owner taken t
    → is_over owner (run_turns taken (update owner lower_flag t)) ≡ true
unfolding lower_flag
halt_over owner taken t h =
    ap (λ fleet. all_over fleet.places)
      (fleet_of-run_turns owner taken (update owner lower_flag t)
        ∙ ap (run_steps (turns_of owner taken)) (fleet_of-lowered owner t))
    ∙ Enough-run_steps (turns_of owner taken) (fleet_of owner t).places
        (Enough-two (λ i. turns i (turns_of owner taken)) (fleet_of owner t).places h)

halt_lem :
    (owner : Owner) (taken : List Turn) (t : Tuner)
    → TwoTurns owner taken t
    → halt owner taken t ≡ some (run_turns taken (update owner lower_flag t))
unfolding halt
halt_lem owner taken t h = rw (halt_over owner taken t h) refl

-- The machine's threads once an owner is told to stop and turns are taken
abbrev told : Owner → List Turn → Tuner → Tuner
told owner taken t = run_turns taken (update owner lower_flag t)

places-lowered :
    (owner other : Owner) (t : Tuner)
    → (fleet_of owner (update other lower_flag t)).places ≡ (fleet_of owner t).places
unfolding lower_flag
places-lowered tuner tuner t = refl
places-lowered tuner survey_monitor t = refl
places-lowered tuner priority_scheduler t = refl
places-lowered survey_monitor tuner t = refl
places-lowered survey_monitor survey_monitor t = refl
places-lowered survey_monitor priority_scheduler t = refl
places-lowered priority_scheduler tuner t = refl
places-lowered priority_scheduler survey_monitor t = refl
places-lowered priority_scheduler priority_scheduler t = refl

length-advance_at :
    (n : ℕ) (running : Bool) (places : List Place)
    → length (advance_at n running places) ≡ length places
unfolding advance_at
length-advance_at n running [] = refl
length-advance_at zero running (place ∷ rest) = refl
length-advance_at (suc n) running (place ∷ rest) = ap suc (length-advance_at n running rest)

length-run_steps :
    (steps : List ℕ) (fleet : Fleet) → length (run_steps steps fleet).places ≡ length fleet.places
unfolding run_steps
length-run_steps [] fleet = refl
length-run_steps (n ∷ steps) fleet =
    length-run_steps steps (record fleet { places = advance_at n fleet.running fleet.places })
    ∙ length-advance_at n fleet.running fleet.places

-- No turn adds or removes a thread.
pub length-run_turns :
    (owner : Owner) (taken : List Turn) (t : Tuner)
    → length (fleet_of owner (run_turns taken t)).places ≡ length (fleet_of owner t).places
length-run_turns owner taken t =
    ap (λ fleet. length fleet.places) (fleet_of-run_turns owner taken t)
    ∙ length-run_steps (turns_of owner taken) (fleet_of owner t)

length-told :
    (owner other : Owner) (taken : List Turn) (t : Tuner)
    → length (fleet_of owner (told other taken t)).places ≡ length (fleet_of owner t).places
length-told owner other taken t =
    ap (λ fleet. length fleet.places) (fleet_of-run_turns owner taken (update other lower_flag t))
    ∙ length-run_steps (turns_of owner taken) (fleet_of owner (update other lower_flag t))
    ∙ ap length (places-lowered owner other t)

TwoTurns-told :
    (owner other : Owner) (taken before : List Turn) (t : Tuner)
    → TwoTurns owner taken t
    → TwoTurns owner taken (told other before t)
TwoTurns-told owner other taken before t h i inside =
    let same : length (fleet_of owner (told other before t)).places
        ≡ length (fleet_of owner t).places =
      length-told owner other before t in
    h i (omega arith)

advance_at-over :
    (n : ℕ) (running : Bool) (places : List Place)
    → all_over places ≡ true
    → all_over (advance_at n running places) ≡ true
unfolding advance_at advance
advance_at-over n running [] h = refl
advance_at-over zero running (over ∷ rest) h = h
advance_at-over (suc n) running (over ∷ rest) h = advance_at-over n running rest h
advance_at-over zero running (at_flag ∷ rest) h = absurd (ground arith)
advance_at-over (suc n) running (at_flag ∷ rest) h = absurd (ground arith)
advance_at-over zero running (in_round ∷ rest) h = absurd (ground arith)
advance_at-over (suc n) running (in_round ∷ rest) h = absurd (ground arith)

run_steps-over :
    (steps : List ℕ) (fleet : Fleet)
    → all_over fleet.places ≡ true
    → all_over (run_steps steps fleet).places ≡ true
unfolding run_steps
run_steps-over [] fleet h = h
run_steps-over (n ∷ steps) fleet h =
    run_steps-over steps (record fleet { places = advance_at n fleet.running fleet.places })
      (advance_at-over n fleet.running fleet.places h)

told-over :
    (owner other : Owner) (taken : List Turn) (t : Tuner)
    → is_over owner t ≡ true
    → is_over owner (told other taken t) ≡ true
told-over owner other taken t h =
    ap (λ fleet. all_over fleet.places) (fleet_of-run_turns owner taken (update other lower_flag t))
    ∙ run_steps-over (turns_of owner taken) (fleet_of owner (update other lower_flag t))
        (ap all_over (places-lowered owner other t) ∙ h)

-- Stopping the tuner returns, and then no thread is left: it is enough that while a flag is waited
-- for, each thread of that flag has two turns, in whatever order the threads take turns.
pub stop_ends :
    (t : Tuner) (own monitors schedulers : List Turn)
    → TwoTurns tuner own t
    → TwoTurns survey_monitor monitors t
    → TwoTurns priority_scheduler schedulers t
    → (t' : Tuner) × (stop own monitors schedulers t ≡ some t')
      × ((owner : Owner) → is_over owner t' ≡ true)
unfolding stop
stop_ends t own monitors schedulers h1 h2 h3 =
    let t1 : Tuner = told tuner own t in
    let t2 : Tuner = told survey_monitor monitors t1 in
    let t3 : Tuner = told priority_scheduler schedulers t2 in
    let k2 : TwoTurns survey_monitor monitors t1 =
      TwoTurns-told survey_monitor tuner monitors own t h2 in
    let k3 : TwoTurns priority_scheduler schedulers t2 =
      TwoTurns-told priority_scheduler survey_monitor schedulers monitors t1
        (TwoTurns-told priority_scheduler tuner schedulers own t h3) in
    (
      t3,
      ap (λ r. then_halt priority_scheduler schedulers (then_halt survey_monitor monitors r))
            (halt_lem tuner own t h1)
          ∙ ap (then_halt priority_scheduler schedulers) (halt_lem survey_monitor monitors t1 k2)
          ∙ halt_lem priority_scheduler schedulers t2 k3,
      λ owner. elim owner as (λ o. is_over o t3 ≡ true) [
        | tuner ↦
            told-over tuner priority_scheduler schedulers t2
              (told-over tuner survey_monitor monitors t1 (halt_over tuner own t h1))
        | survey_monitor ↦
            told-over survey_monitor priority_scheduler schedulers t2
              (halt_over survey_monitor monitors t1 k2)
        | priority_scheduler ↦ halt_over priority_scheduler schedulers t2 k3
      ],
    )
