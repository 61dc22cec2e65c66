-- ===== src/Tuner/Flag/Turns.antt =====
-- Runs of the threads of one flag, with the flag up and with the flag down.
use betterconn.Prelude.{
  ℕ, zero, suc, ◌≤◌, ◌<◌, ◌≡◌, refl, All, Bool, true, false, List, [], ◌∷◌, ◌==◌, arith,
  if◌then◌else◌, length,
}
use betterconn.Tuner.Flag.{Place, at_flag, in_round, over, advance, advance_at, run_steps, all_over}

-- How often a thread has its turn
unfoldable pub turns : ℕ → List ℕ → ℕ
turns i [] = 0
turns i (n ∷ steps) = let later = turns i steps in if i == n then suc later else later

-- The steps that a thread still has once the flag is down
abbrev remaining : Place → ℕ
remaining in_round = 2
remaining at_flag = 1
remaining over = 0

-- Each thread has at least as many turns as it has steps.
abbrev pub Enough : (ℕ → ℕ) → List Place → Type 0
Enough c [] = Unit {0}
Enough c (place ∷ rest) = (remaining place ≤ c 0) × Enough (λ i. c (suc i)) rest

Enough-less :
    (c d : ℕ → ℕ) (places : List Place) → ((i : ℕ) → c i ≤ d i) → Enough c places → Enough d places
Enough-less c d [] h enough = tt
Enough-less c d (place ∷ rest) h (here, later) =
    let first : c 0 ≤ d 0 = h 0 in
    (omega arith, Enough-less (λ i. c (suc i)) (λ i. d (suc i)) rest (λ i. h (suc i)) later)

remaining-advance :
    (place : Place) (n : ℕ) → remaining place ≤ suc n → remaining (advance false place) ≤ n
unfolding advance
remaining-advance at_flag n h = omega arith
remaining-advance in_round n h = omega arith
remaining-advance over n h = omega arith

Enough-advance_at :
    (n : ℕ) (c d : ℕ → ℕ) (places : List Place)
    → ((i : ℕ) → c i ≤ (if i == n then suc (d i) else d i))
    → Enough c places
    → Enough d (advance_at n false places)
unfolding advance_at
Enough-advance_at n c d [] h enough = tt
Enough-advance_at zero c d (place ∷ rest) h (here, later) =
    let first : c 0 ≤ suc (d 0) = ground (arith, h 0) in
    (
      remaining-advance place (d 0) (omega arith),
      Enough-less (λ i. c (suc i)) (λ i. d (suc i)) rest (λ i. ground (arith, h (suc i))) later,
    )
Enough-advance_at (suc n) c d (place ∷ rest) h (here, later) =
    let first : c 0 ≤ d 0 = ground (arith, h 0) in
    (
      omega arith,
      Enough-advance_at n (λ i. c (suc i)) (λ i. d (suc i)) rest (λ i. ground (arith, h (suc i)))
          later,
    )

Enough-none : (places : List Place) → Enough (λ i. 0) places → all_over places ≡ true
Enough-none [] enough = refl
Enough-none (at_flag ∷ rest) (here, later) = absurd (omega arith)
Enough-none (in_round ∷ rest) (here, later) = absurd (omega arith)
Enough-none (over ∷ rest) (here, later) = Enough-none rest later

pub Enough-run_steps :
    (steps : List ℕ) (places : List Place)
    → Enough (λ i. turns i steps) places
    → all_over (run_steps steps (record { running = false; places = places })).places ≡ true
unfolding run_steps turns
Enough-run_steps [] places enough = Enough-none places enough
Enough-run_steps (n ∷ steps) places enough = Enough-run_steps steps (advance_at n false places) (
    Enough-advance_at n (λ i. turns i (n ∷ steps)) (λ i. turns i steps) places (λ i. ground arith)
      enough)

two_steps : (place : Place) (n : ℕ) → 2 ≤ n → remaining place ≤ n
two_steps at_flag n h = omega arith
two_steps in_round n h = omega arith
two_steps over n h = omega arith

-- Two turns are enough wherever a thread is.
pub Enough-two :
    (c : ℕ → ℕ) (places : List Place) → ((i : ℕ) → i < length places → 2 ≤ c i) → Enough c places
Enough-two c [] h = tt
Enough-two c (place ∷ rest) h =
    let here : 2 ≤ c 0 = h 0 (omega arith) in
    (
      two_steps place (c 0) here,
      Enough-two (λ i. c (suc i)) rest (λ i inside. h (suc i) (omega arith)),
    )

abbrev pub goes_on : Place → Bool
goes_on over = false
goes_on at_flag = true
goes_on in_round = true

advance-goes_on : (place : Place) → goes_on place ≡ true → goes_on (advance true place) ≡ true
unfolding advance
advance-goes_on at_flag h = refl
advance-goes_on in_round h = refl
advance-goes_on over h = h

advance_at-goes_on :
    (n : ℕ) (places : List Place)
    → All (λ place. goes_on place ≡ true) places
    → All (λ place. goes_on place ≡ true) (advance_at n true places)
unfolding advance_at
advance_at-goes_on n [] all = tt
advance_at-goes_on zero (place ∷ rest) (here, later) = (advance-goes_on place here, later)
advance_at-goes_on (suc n) (place ∷ rest) (here, later) = (here, advance_at-goes_on n rest later)

-- While their flag is up, threads that are not over do not end, whatever turns they have.
pub run_steps-goes_on :
    (steps : List ℕ) (places : List Place)
    → All (λ place. goes_on place ≡ true) places
    → All
        (λ place. goes_on place ≡ true)
        (run_steps steps (record { running = true; places = places })).places
unfolding run_steps
run_steps-goes_on [] places all = all
run_steps-goes_on (n ∷ steps) places all =
    run_steps-goes_on steps (advance_at n true places) (advance_at-goes_on n places all)
