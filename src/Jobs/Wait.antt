-- ===== src/Jobs/Wait.antt =====
-- `waitForJob`, http/wait-for-job.ts. A moment is one turn of the loop: the clock, the signal, and the tables at the two
-- queries, where none is a query that fails.
pub mod Ends
mod Tests
use teamem_server.Prelude.{
  ℕ, zero, suc, ◌+◌, Bool, true, false, ◌||◌, Option, none, some, String, List, [], ◌∷◌, ◌++◌, ltb,
  if◌then◌else◌,
}
use teamem_server.Auth.Scope.{ScopeContext}
use teamem_server.Jobs.Rows.{JobStatus, JobRow, JobEventRow, JobStore, status_eq}
use teamem_server.Jobs.Lifecycle.{get_job, get_job_events}

pub data WaitOutcome : Type 0 where
  completed : List String → WaitOutcome
  failed timed_out aborted : WaitOutcome

pub record Moment : Type 0 where
  pub now : ℕ
  pub is_aborted : Bool
  pub at_job : Option JobStore
  pub at_events : Option JobStore

abbrev pub uuids_of : JobEventRow → List String
uuids_of e = elim e.concept_uuids [ none ↦ [] | some uuids ↦ uuids ]

-- The filter and the `flatMap` over the events.
unfoldable pub concept_ids : List JobEventRow → List String
concept_ids [] = []
concept_ids (e ∷ es) = uuids_of e ++ concept_ids es

unfoldable pub completed_with : JobRow → String → Option JobStore → Option WaitOutcome
unfolding concept_ids get_job_events
completed_with job id none = none
completed_with job id (some db) =
    some (completed (concept_ids (get_job_events db job.team_id job.project_id id)))

-- The `try` block, with its empty `catch`.
unfoldable pub poll : ScopeContext → String → Moment → Option WaitOutcome
unfolding get_job completed_with
poll scope id m = elim m.at_job [
  | none ↦ none
  | some db ↦ elim (get_job db scope id) [
    | none ↦ none
    | some job ↦
        if status_eq job.status JobStatus.completed
        then completed_with job id m.at_events
        else if status_eq job.status JobStatus.failed || status_eq job.status JobStatus.cancelled
        then some failed
        else none
  ]
]

-- One turn of the loop, if it returns; the turn after the deadline leaves the loop.
unfoldable pub turn : ScopeContext → String → ℕ → Moment → Option WaitOutcome
unfolding poll
turn scope id deadline m =
    if ltb m.now deadline
    then (if m.is_aborted then some aborted else poll scope id m)
    else some timed_out

-- The loop from its turn `i` on; none where the bound on the turns is reached.
unfoldable pub wait_loop : ScopeContext → String → ℕ → (ℕ → Moment) → ℕ → ℕ → Option WaitOutcome
unfolding turn
wait_loop scope id deadline moment zero i = none
wait_loop scope id deadline moment (suc fuel) i =
    let rest = wait_loop scope id deadline moment fuel (suc i) in
    elim (turn scope id deadline (moment i)) [ none ↦ rest | some outcome ↦ some outcome ]

unfoldable pub wait_for_job : ScopeContext → String → ℕ → ℕ → (ℕ → Moment) → ℕ → Option WaitOutcome
unfolding wait_loop
wait_for_job scope id start timeout moment fuel = wait_loop scope id (start + timeout) moment fuel 0
