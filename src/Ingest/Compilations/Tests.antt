-- ===== src/Ingest/Compilations/Tests.antt =====
-- Runs of ingest/create-compilation.ts.
use teamem_server.Prelude.{◌≡◌, refl, Bool, true, false, Option, none, String, List, [], ◌∷◌, ok}
use teamem_server.Table.{filter}
use teamem_server.Auth.Scope.{project}
use teamem_server.Jobs.Rows.{EventStatus}
use teamem_server.Jobs.Create.{
  Constraint, create_job, find_existing, find_job_by_idempotency_key, truthy, insert_or_recover,
  insert_job,
}
use teamem_server.Jobs.Lifecycle.{get_event_compilation_status}
use teamem_server.Compile.Events.{get_events_by_ids}
use teamem_server.Jobs.RetryRoute.{Sent}
use teamem_server.Ingest.Compilations.{
  Server, AuthContext, CompilationRequest, CompilationResponse, post_compilations_handler,
  scope_error, compile_new, classify_events, classify_event, place, create_all_settled,
}
use teamem_server.Ingest.Compilations.Replay.{post, post-post}

abbrev take : Sent → List Sent → List Sent × Option String
take m q = (m ∷ q, none)

abbrev no_conflict : String → Bool
no_conflict e = false

abbrev any_name : Constraint → Bool
any_name c = true

abbrev hash_of : CompilationRequest → String
hash_of req = req.idempotency_key

abbrev auth : AuthContext
auth = record { scope = project "t1" "p1"; credential_id = "c1"; principal_id = none }

abbrev two_events : CompilationRequest
two_events = record {
  project_id = "p1";
  event_ids = "evt_1" ∷ "evt_2" ∷ [];
  idempotency_key = "key_0001";
}

abbrev empty_server : Server
empty_server = record {
  projects = [];
  events = [];
  backend = record { job_store = record { jobs = []; job_events = [] }; sent = [] };
}

abbrev nothing_found : CompilationResponse
nothing_found = record {
  compilation_job_id = "j1";
  duplicate = false;
  results =
      record { event_id = "evt_1"; status = EventStatus.not_found }
      ∷ record { event_id = "evt_2"; status = EventStatus.not_found }
      ∷ [];
}

post-post_example :
    post take no_conflict any_name true hash_of "j2" 9 auth two_events
      (post take no_conflict any_name true hash_of "j1" 5 auth two_events empty_server).0
    ≡ (
      (post take no_conflict any_name true hash_of "j1" 5 auth two_events empty_server).0,
      ok (record nothing_found { duplicate = true }),
    )
unfolding post_compilations_handler scope_error compile_new find_job_by_idempotency_key
    get_events_by_ids get_event_compilation_status classify_events classify_event place
    create_all_settled create_job find_existing truthy insert_or_recover insert_job filter
post-post_example =
    post-post take no_conflict any_name true hash_of auth two_events empty_server "j1" "j2" 5 9
      nothing_found refl refl
