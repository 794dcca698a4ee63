-- ===== src/Jobs/Listing/Pages.antt =====
-- About the pages of `listJobs`, db/repositories/jobs.ts.
use teamem_server.Prelude.{
  ℕ, ◌≤◌, ◌<◌, ◌≡◌, refl, ap, Bool, false, ◌&&◌, Option, none, some, String, List, arith, str_eq,
  length, All,
}
use teamem_server.Table.{filter, filter-cong}
use teamem_server.Table.Order.{order_by, IsSorted}
use teamem_server.Table.Pages.{walk, serve}
use teamem_server.Table.Cursor.{jobs, Position, Tokens, IsCollation}
use teamem_server.Table.Newest.{walk-newest, newest-IsSorted, read_cursor-encode}
use teamem_server.Jobs.Rows.{JobStatus, JobRow, JobStore}
use teamem_server.Jobs.Create.Unique.{IsUnique}
use teamem_server.Jobs.Listing.{
  is_listed, is_past, is_newer_job, job_cursor, filter_hash_for_status, list_jobs,
}

abbrev place_of : JobRow → Position
place_of r = record { sort_value = some r.created_at; id = r.id }

is_past-place_of :
    (lt : String → String → Bool) (c r : JobRow)
    → str_eq c.id "" ≡ false
    → is_past lt (some (place_of c)) r ≡ is_newer_job lt c r
unfolding is_past
is_past-place_of lt c r named = rw named refl

module _ (k : Tokens) (lt : String → String → Bool) (collation : IsCollation lt)
    (sha_prefix : String → String) (team proj : String) (status : Option JobStatus) (limit : ℕ)
    (db : JobStore) where
  abbrev list : Option k.Token → List JobRow × Option k.Token
  list = list_jobs k lt sha_prefix team proj status limit db

  -- The jobs of a project with a status, the newest first.
  abbrev pub listing : List JobRow
  listing = order_by (is_newer_job lt) (filter (is_listed team proj status) db.jobs)

  list_jobs-first : list none ≡ serve limit (job_cursor k lt sha_prefix proj status) listing
  unfolding list_jobs serve
  list_jobs-first =
      ap
        (λ rows.
          serve limit (job_cursor k lt sha_prefix proj status) (order_by (is_newer_job lt) rows))
        (filter-cong (λ r. is_listed team proj status r && is_past lt none r)
          (is_listed team proj status) (λ r. ground arith) db.jobs)

  list_jobs-next :
      (c : JobRow)
      → str_eq c.id "" ≡ false
      → list (some (job_cursor k lt sha_prefix proj status c))
        ≡ serve limit (job_cursor k lt sha_prefix proj status) (
            order_by
              (is_newer_job lt)
              (filter (λ r. is_listed team proj status r && is_newer_job lt c r) db.jobs))
  unfolding list_jobs serve
  list_jobs-next c named =
      rw
        (
          read_cursor-encode k jobs proj (filter_hash_for_status k lt sha_prefix status)
              (place_of c),
          list_jobs,
        )
        (ap
          (λ rows.
            serve limit (job_cursor k lt sha_prefix proj status) (order_by (is_newer_job lt) rows))
          (filter-cong (λ r. is_listed team proj status r && is_past lt (some (place_of c)) r)
            (λ r. is_listed team proj status r && is_newer_job lt c r)
            (λ r. ap (λ b. is_listed team proj status r && b) (is_past-place_of lt c r named))
            db.jobs))

  -- Where the primary key holds and no job has an empty id: a client that asks for the first page and
  -- follows each cursor that `listJobs` returns, with one project, status and limit above 0 and no
  -- change in between, gets every job of that project and status just once, the newest first, and it
  -- comes to the end within one page more than there are such jobs.
  pub walk-list_jobs :
      IsUnique db
      → All (λ (r : JobRow). str_eq r.id "" ≡ false) db.jobs
      → 1 ≤ limit
      → (fuel : ℕ) → length listing < fuel
      → (walk fuel list none ≡ listing) × IsSorted (is_newer_job lt) listing
  walk-list_jobs unique named positive fuel enough = (
    walk-newest lt collation (λ (r : JobRow). r.created_at) (λ r. r.id) db.jobs unique.ids
        (is_listed team proj status) limit (job_cursor k lt sha_prefix proj status) list positive
        (λ r. str_eq r.id "" ≡ false) named list_jobs-first list_jobs-next fuel enough,
    newest-IsSorted lt collation (λ (r : JobRow). r.created_at) (λ r. r.id) db.jobs unique.ids
        (is_listed team proj status) limit (job_cursor k lt sha_prefix proj status) list,
  )
