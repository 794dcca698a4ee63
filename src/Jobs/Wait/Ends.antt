-- ===== src/Jobs/Wait/Ends.antt =====
-- The end of the loop of http/wait-for-job.ts.
use teamem_server.Prelude.{
  ℕ, zero, suc, ◌+◌, ◌*◌, ◌≤◌, ◌≡◌, refl, ap, subst, ◌∙◌, inl, inr, Option, none, some, String,
  Option-cases, arith,
}
use teamem_server.Auth.Scope.{ScopeContext}
use teamem_server.Jobs.Wait.{WaitOutcome, timed_out, Moment, turn, wait_loop, wait_for_job}

-- The clock does not run backwards, and `setTimeout` waits at least its interval.
pub record IsClock (start interval : ℕ) (moment : ℕ → Moment) : Type 0 where
  pub after_start : start ≤ (moment 0).now
  pub waits : (i : ℕ) → (moment i).now + interval ≤ (moment (suc i)).now

module _ (scope : ScopeContext) (id : String) (start timeout interval : ℕ)
    (moment : ℕ → Moment) where
  abbrev decides : ℕ → Option WaitOutcome
  decides i = turn scope id (start + timeout) (moment i)

  -- The turns from `i` on, `count` of them, do not return.
  abbrev pub Undecided : ℕ → ℕ → Type 0
  Undecided i zero = Unit
  Undecided i (suc count) =
      (turn scope id (start + timeout) (moment i) ≡ none) × Undecided (suc i) count

  clock_bound : IsClock start interval moment → (i : ℕ) → start + i * interval ≤ (moment i).now
  clock_bound c zero = let first = c.after_start in omega arith
  clock_bound c (suc i) = let before = clock_bound c i in let next = c.waits i in grind arith

  late :
      IsClock start interval moment → (i : ℕ) → timeout ≤ i * interval → decides i ≡ some timed_out
  unfolding turn
  late c i h = let bound = clock_bound c i in ground arith

  -- The loop from turn `i` returns what its turn `i + count` decides, the first one that decides anything.
  abbrev EndsAfter : ℕ → ℕ → ℕ → WaitOutcome → Type 0
  EndsAfter fuel i count outcome =
      (count ≤ fuel)
      × (Undecided i count
          × ((decides (i + count) ≡ some outcome)
              × (wait_loop scope id (start + timeout) moment (suc fuel) i ≡ some outcome)))

  decided-EndsAfter :
      (fuel i : ℕ) (outcome : WaitOutcome) → decides i ≡ some outcome → EndsAfter fuel i 0 outcome
  unfolding wait_loop
  decided-EndsAfter fuel i outcome e =
      let here : i + 0 ≡ i = omega arith in
      (omega arith, (tt, (ap decides here ∙ e, rw (e, wait_loop) refl)))

  next-EndsAfter :
      (fuel i count : ℕ) (outcome : WaitOutcome)
      → decides i ≡ none
      → EndsAfter fuel (suc i) count outcome
      → EndsAfter (suc fuel) i (suc count) outcome
  unfolding wait_loop
  next-EndsAfter fuel i count outcome e (few, (before, (decided, ended))) =
      let there : i + suc count ≡ suc i + count = omega arith in
      (omega arith, ((e, before), (ap decides there ∙ decided, rw (e, wait_loop) ended)))

  loop-EndsAfter :
      IsClock start interval moment
      → (fuel i : ℕ) → timeout ≤ (i + fuel) * interval
      → (count : ℕ) × ((outcome : WaitOutcome) × EndsAfter fuel i count outcome)
  loop-EndsAfter c zero i h =
      let here : i + 0 ≡ i = omega arith in
      let e = late c i (subst (λ n. timeout ≤ n * interval) here h) in
      (0, (timed_out, decided-EndsAfter 0 i timed_out e))
  loop-EndsAfter c (suc fuel) i h = elim (Option-cases (decides i)) [
    | inr (outcome, e) ↦ (0, (outcome, decided-EndsAfter (suc fuel) i outcome e))
    | inl e ↦
        let there : i + suc fuel ≡ suc i + fuel = omega arith in
        let (count, (outcome, ends)) =
          loop-EndsAfter c fuel (suc i) (subst (λ n. timeout ≤ n * interval) there h) in
        (suc count, (outcome, next-EndsAfter fuel i count outcome e ends))
  ]

  -- With a clock that does not run backwards and a timer that waits its interval, whatever the queries and the signal
  -- do: waitForJob returns, within one turn more than cover the timeout, and what it returns is what the first turn says
  -- that says anything: that the time is over, that the client is gone, or how the job ended.
  pub wait_for_job_ends :
      IsClock start interval moment
      → (turns : ℕ) → timeout ≤ turns * interval
      → (count : ℕ) × ((outcome : WaitOutcome) × ((count ≤ turns)
            × (Undecided 0 count
                × ((turn scope id (start + timeout) (moment count) ≡ some outcome)
                    × (wait_for_job scope id start timeout moment (suc turns) ≡ some outcome)))))
  unfolding wait_for_job
  wait_for_job_ends c turns h =
      let (count, (outcome, (few, (before, (decided, ended))))) =
        loop-EndsAfter c turns 0 (subst (λ n. timeout ≤ n * interval) (omega arith) h) in
      let from_start : 0 + count ≡ count = omega arith in
      (
        count,
        (
          outcome,
          (few, (before, (subst (λ n. decides n ≡ some outcome) from_start decided, ended))),
        ),
      )
