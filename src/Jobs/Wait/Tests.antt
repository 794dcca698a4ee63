-- ===== src/Jobs/Wait/Tests.antt =====
-- Runs of http/wait-for-job.ts.
use teamem_server.Prelude.{
  ℕ, zero, suc, ◌+◌, ◌*◌, ◌≤◌, ◌≡◌, refl, none, some, [], ◌∷◌, false, arith,
}
use teamem_server.Auth.Scope.{project}
use teamem_server.Jobs.Rows.{JobStatus, JobStore}
use teamem_server.Jobs.Tests.{job_1, compiled_event, failed_store}
use teamem_server.Jobs.Wait.{WaitOutcome, timed_out, Moment, turn, wait_for_job}
use teamem_server.Jobs.Wait.Ends.{IsClock, Undecided, wait_for_job_ends}

abbrev done_store : JobStore
done_store = record {
  jobs = record job_1 { status = JobStatus.completed } ∷ [];
  job_events = record compiled_event { concept_uuids = some ("c1" ∷ "c2" ∷ []) } ∷ [];
}

-- The first query fails; at the second turn the job is done.
abbrev moment : ℕ → Moment
moment zero = record { now = 100; is_aborted = false; at_job = none; at_events = none }
moment (suc i) = record {
  now = 100 + suc i * 10;
  is_aborted = false;
  at_job = some done_store;
  at_events = some done_store;
}

done_test :
    wait_for_job (project "t1" "p1") "j1" 100 30 moment 4
    ≡ some (WaitOutcome.completed ("c1" ∷ "c2" ∷ []))
unfolding wait_for_job
done_test = refl

failed_test :
    wait_for_job
      (project "t1" "p1")
      "j1"
      100
      30
      (λ i. record {
        now = 100 + i * 10;
        is_aborted = false;
        at_job = some failed_store;
        at_events = none;
      })
      4
    ≡ some WaitOutcome.failed
unfolding wait_for_job
failed_test = refl

-- A caller of another team waits until the time is over.
other_team_test : wait_for_job (project "t2" "p1") "j1" 100 30 moment 4 ≡ some timed_out
unfolding wait_for_job
other_team_test = refl

even-IsClock : IsClock 100 10 moment
even-IsClock = record { after_start = ground arith; waits = next }
  where
    next : (i : ℕ) → (moment i).now + 10 ≤ (moment (suc i)).now
    next zero = omega arith
    next (suc i) = omega arith

wait_for_job_ends_example :
    (count : ℕ) × ((outcome : WaitOutcome) × ((count ≤ 3)
        × (Undecided (project "t1" "p1") "j1" 100 30 10 moment 0 count
            × ((turn (project "t1" "p1") "j1" 130 (moment count) ≡ some outcome)
                × (wait_for_job (project "t1" "p1") "j1" 100 30 moment 4 ≡ some outcome)))))
wait_for_job_ends_example =
    wait_for_job_ends (project "t1" "p1") "j1" 100 30 10 moment even-IsClock 3 (omega arith)
