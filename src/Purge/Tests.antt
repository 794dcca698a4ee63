-- ===== src/Purge/Tests.antt =====
-- A run of the purge of db/repositories/purge.ts.
use teamem_server.Prelude.{◌≡◌, refl, [], ◌∷◌, ok}
use teamem_server.Jobs.Tests.{job_1, compiled_event}
use teamem_server.Purge.{ProjectStore, purge_project_data}
use teamem_server.Purge.Complete.{without_project, counted, purge_project_data_lem}

-- Two projects of a team: the outcome of a job of the first one names the job.
abbrev two_projects : ProjectStore
two_projects = record {
  concept_store = record { concepts = []; paths = []; evidence = []; contributors = [] };
  job_store = record {
    jobs = job_1 ∷ record job_1 { id = "j2"; project_id = "p2" } ∷ [];
    job_events = compiled_event ∷ record compiled_event { job_id = "j2"; project_id = "p2" } ∷ [];
  };
  events = [];
}

purge_project_data_lem_example :
    purge_project_data "t1" "p1" two_projects
    ≡ (without_project "t1" "p1" two_projects, ok (counted "t1" "p1" two_projects))
purge_project_data_lem_example = purge_project_data_lem "t1" "p1" two_projects

purged_test : (purge_project_data "t1" "p1" two_projects).0.job_store ≡ record {
  jobs = record job_1 { id = "j2"; project_id = "p2" } ∷ [];
  job_events = record compiled_event { job_id = "j2"; project_id = "p2" } ∷ [];
}
unfolding purge_project_data
purged_test = refl
