-- ===== src/Compile/Tests.antt =====
-- A delivery of a job of two events, and the theorems at it: the first event is extracted into a new
-- page, and the model throws at the second.
use teamem_server.Prelude.{
  ◌+◌, inl, inr, List, Result, ◌≡◌, refl, true, none, some, String, [], ◌∷◌, ok, err, str_eq, All,
  length, if◌then◌else◌,
}
use teamem_server.Table.{filter}
use teamem_server.Jobs.Rows.{
  compilation, credential, queued, JobStatus, JobEventStatus, JobRow, JobEventRow,
}
use teamem_server.Jobs.Lifecycle.{claim_job, same_event}
use teamem_server.Concepts.Rows.{
  service, active, high, EvidenceKind, credential_bound, ConceptStore, CreateConceptInput,
}
use teamem_server.Concepts.Contract.{is_evidence_list}
use teamem_server.Compile.ToConcept.Accepted.{to_concept-accepted}
use teamem_server.Concepts.Evidence.{HasEvidence}
use teamem_server.Compile.Events.{mcp_write, EventRow}
use teamem_server.Compile.ToConcept.{Extract, to_concept}
use teamem_server.Compile.Services.{
  Thrown, llm_error, error, extract, Llm, Clients, HandlerDeps, Services,
}
use teamem_server.Compile.Run.{Database, JobRef, run_events}
use teamem_server.Compile.Run.Count.{
  pages_in, skips_in, failures_in, run_results, run_events-Reports, ReportsAll,
}
use teamem_server.Compile.Page.{Outcome}
use teamem_server.Compile.Run.Outcomes.{run_events-IsDone, HasOutcome}
use teamem_server.Compile.Worker.{Message, job_of, deliver}
use teamem_server.Compile.Worker.Settles.{IsSettled, deliver-settles}
use teamem_server.Compile.Worker.Redelivery.{deliver-taken, deliver-twice, deliver-untouched}
use teamem_server.Compile.Worker.Evidence.{deliver-HasEvidence}

abbrev event_1 : EventRow
event_1 = record {
  id = "e1";
  team_id = "t1";
  project_id = "p1";
  channel = "mcp";
  kind = mcp_write;
  external_id = "x1";
  url = none;
  occurred_at = 1000;
  actor_provenance = credential_bound;
  actor_principal_id = some "u1";
  ingested_by_principal_id = some "u1";
  payload = [];
}

abbrev event_2 : EventRow
event_2 = record event_1 { id = "e2" }

abbrev extraction : Extract
extraction = record {
  type = service;
  title = "Queue";
  body = "A queue.";
  path = "queue";
  tags = [];
  confidence = high;
}

abbrev llm : Llm
llm = record {
  structured =
      λ e. if str_eq e.id "e1" then ok (extract extraction) else err (llm_error "timeout" "late");
  decide_merge = λ e input cands. err (error "unused");
}

abbrev clients : Clients
clients = record { llm = llm; embedding_client = none }

abbrev deps : HandlerDeps
deps = record { llm = some llm; embedding_client = none; resolve_llm = none }

abbrev services : Services
services = record {
  now = 9;
  is_url = λ s. true;
  prefilter_noise = λ e. none;
  recall_candidates = λ store team proj title body embedding. ok [];
  new_uuid = λ store. "c1";
  outage = λ call. none;
  thrown_by = λ e. error "refused";
  redact = λ s. s;
}

abbrev queued_job : JobRow
queued_job = record {
  id = "j1";
  team_id = "t1";
  project_id = "p1";
  kind = compilation;
  status = queued;
  attempts = 0;
  initiated_by_kind = credential;
  initiated_by_credential_id = none;
  initiated_by_principal_id = none;
  initiated_by_connector = none;
  idempotency_key = none;
  idempotency_request_hash = none;
  result_snapshot = none;
  event_count = 2;
  error = none;
  created_at = 5;
  started_at = none;
  finished_at = none;
}

abbrev pending_row : String → JobEventRow
pending_row id = record {
  team_id = "t1";
  project_id = "p1";
  job_id = "j1";
  event_id = id;
  status = JobEventStatus.pending;
  reason = none;
  error = none;
  concept_uuids = none;
  updated_at = 5;
}

abbrev done_row : JobEventRow
done_row = record (pending_row "e3") { status = JobEventStatus.compiled }

abbrev no_pages : ConceptStore
no_pages = record { concepts = []; paths = []; evidence = []; contributors = [] }

abbrev database : Database
database = record {
  job_store = record {
    jobs = queued_job ∷ [];
    job_events = pending_row "e1" ∷ pending_row "e2" ∷ done_row ∷ [];
  };
  concept_store = no_pages;
  events = event_1 ∷ event_2 ∷ [];
}

abbrev message : Message
message = record { job_id = some "j1"; team_id = some "t1"; project_id = some "p1" }

abbrev job : JobRef
job = job_of message

deliver-settles_example : IsSettled job (deliver services deps message database).0
unfolding claim_job filter
deliver-settles_example =
    deliver-settles services deps message database
      (record queued_job { status = JobStatus.processing; attempts = 1; started_at = some 9 }) refl
      refl refl refl

deliver-twice_example :
    deliver services deps message (deliver services deps message database).0
    ≡ ((deliver services deps message database).0, ok tt)
deliver-twice_example = deliver-twice services services deps message database refl refl

abbrev empty_database : Database
empty_database = record database { job_store = record { jobs = []; job_events = [] } }

taken_test : deliver services deps message empty_database ≡ (empty_database, ok tt)
unfolding filter
taken_test = deliver-taken services deps message empty_database (inr (refl, refl))

abbrev nameless_job : JobRow
nameless_job = record queued_job { project_id = "" }

abbrev nameless : Message
nameless = record message { project_id = none }

-- A job that a claim by the message would get.
abbrev nameless_database : Database
nameless_database = record database {
  job_store = record { jobs = nameless_job ∷ []; job_events = [] };
}

deliver-taken_example :
    deliver services deps nameless nameless_database ≡ (nameless_database, ok tt)
deliver-taken_example =
    deliver-taken services deps nameless nameless_database (inl (inr (inr (inl refl))))

deliver-untouched_example :
    filter (same_event "j1" "e3") (deliver services deps message database).0.job_store.job_events
    ≡ done_row ∷ []
unfolding filter
deliver-untouched_example =
    deliver-untouched services deps message database "j1" "e3"
      (λ same. ((λ h. cc), ((λ h. cc), ((λ h. refl), tt))))

abbrev two_results : List (Result Thrown Outcome)
two_results = run_results services job clients (event_1 ∷ event_2 ∷ []) database

run_events-Reports_example :
    (length (pages_in two_results) + (skips_in two_results + failures_in two_results) ≡ 2)
    × ReportsAll services job two_results
        (run_events services job clients (event_1 ∷ event_2 ∷ []) database).0
unfolding run_events
run_events-Reports_example =
    run_events-Reports services job clients event_1 (event_2 ∷ []) database refl

run_events-IsDone_example :
    All
      (HasOutcome services job
        (run_events services job clients (event_1 ∷ event_2 ∷ []) database).0)
      (event_1 ∷ event_2 ∷ [])
unfolding run_events
run_events-IsDone_example =
    run_events-IsDone services job clients (event_1 ∷ event_2 ∷ []) database refl

deliver-HasEvidence_example : HasEvidence (deliver services deps message database).0.concept_store
deliver-HasEvidence_example = deliver-HasEvidence services deps message database tt

abbrev page_of_event_1 : CreateConceptInput
page_of_event_1 = record {
  team_id = "t1";
  project_id = "p1";
  schema_version = 1;
  type = service;
  status = active;
  confidence = high;
  title = "Queue";
  body = "A queue.";
  tags = [];
  first_seen = 1000;
  last_confirmed = 1000;
  supersedes_uuid = none;
  path = "queue";
  evidence =
      record {
        kind = EvidenceKind.mcp_write;
        ref = some "e1";
        repo = none;
        commit_sha = none;
        path = none;
        at = 1000;
      }
      ∷ [];
  contributors = record { principal_id = "u1"; provenance = credential_bound } ∷ [];
  embedding = none;
}

to_concept-accepted_example :
    (is_evidence_list (λ s. true) page_of_event_1.evidence ≡ true)
    × (page_of_event_1.team_id ≡ "t1")
    × (page_of_event_1.project_id ≡ "p1")
    × (page_of_event_1.status ≡ active)
    × (page_of_event_1.first_seen ≡ 1000)
    × (page_of_event_1.last_confirmed ≡ 1000)
unfolding to_concept
to_concept-accepted_example =
    to_concept-accepted (λ s. true) extraction event_1 page_of_event_1 refl refl refl
