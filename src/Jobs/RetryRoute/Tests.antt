-- ===== src/Jobs/RetryRoute/Tests.antt =====
-- Runs of the retry route of http/routes/job-retry.ts.
use teamem_server.Prelude.{◌≡◌, refl, true, none, some, [], arith}
use teamem_server.Table.{filter}
use teamem_server.Auth.Scope.{project}
use teamem_server.Team.Roles.{admin, viewer, forbidden}
use teamem_server.Jobs.Rows.{queued}
use teamem_server.Jobs.Lifecycle.{only_failed, get_job, reset_job_for_retry}
use teamem_server.Jobs.RetryRoute.{
  Backend, Caller, has_nothing_failed, reset_and_send, retry_row, retry_job,
}
use teamem_server.Jobs.RetryRoute.Requeued.{
  IsHandedOver, undisturbed, retry_job-IsHandedOver, retry_job_refused,
}
use teamem_server.Jobs.Tests.{failed_store}

abbrev backend : Backend
backend = record { job_store = failed_store; sent = [] }

abbrev an_admin : Caller
an_admin = record { team_role = some admin; scope = project "t1" "p1" }

abbrev a_viewer : Caller
a_viewer = record an_admin { team_role = some viewer }

retry_job-IsHandedOver_example :
    IsHandedOver undisturbed "m1" 8 9 backend
      (retry_job true undisturbed "m1" 8 an_admin "j1" none backend).0
      (record { id = "j1"; status = queued; mode = only_failed })
unfolding filter retry_job retry_row reset_and_send has_nothing_failed get_job reset_job_for_retry
retry_job-IsHandedOver_example =
    retry_job-IsHandedOver undisturbed "m1" 8 9 an_admin "j1" none backend
      (record { id = "j1"; status = queued; mode = only_failed }) (omega arith) refl

retry_job_refused_example :
    (retry_job true undisturbed "m1" 8 a_viewer "j1" none backend).0 ≡ backend
unfolding retry_job
retry_job_refused_example = retry_job_refused true "m1" 8 a_viewer "j1" none backend forbidden refl
