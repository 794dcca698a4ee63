-- ===== src/Jobs/Listing.antt =====
-- `listJobs` and `validateJobsCursor` of db/repositories/jobs.ts. `lt` is the order of the database
-- on ids and `sha_prefix` the first 16 hex digits of a SHA-256; a status is one of the column's.
pub mod Pages
mod Tests
use Prim.Native.String.{◌++◌}
use teamem_server.Prelude.{
  ℕ, ◌+◌, ◌==◌, Bool, true, false, ◌&&◌, Option, none, some, String, List, [], str_eq, take, last,
  if◌then◌else◌,
}
use teamem_server.Table.{filter}
use teamem_server.Table.Order.{order_by}
use teamem_server.Table.Pages.{cut_page, map_option}
use teamem_server.Table.Cursor.{
  jobs, resource_index, Position, CursorPayload, Tokens, read_cursor, is_after, is_newer,
}
use teamem_server.Jobs.Rows.{JobStatus, JobRow, JobStore, status_eq}
use teamem_server.Jobs.RetryRoute.{status_text}

abbrev pub is_listed : String → String → Option JobStatus → JobRow → Bool
is_listed team proj none r = str_eq r.team_id team && str_eq r.project_id proj
is_listed team proj (some s) r =
    str_eq r.team_id team && (str_eq r.project_id proj && status_eq r.status s)

abbrev pub is_job_after : (String → String → Bool) → ℕ → String → JobRow → Bool
is_job_after lt t i = is_after lt (λ (r : JobRow). r.created_at) (λ r. r.id) t i

-- ORDER BY created_at DESC, id DESC
abbrev pub is_newer_job : (String → String → Bool) → JobRow → JobRow → Bool
is_newer_job lt = is_newer lt (λ (r : JobRow). r.created_at) (λ r. r.id)

-- The condition of a cursor's position, which is left out where a part of it is the empty text.
unfoldable pub is_past : (String → String → Bool) → Option Position → JobRow → Bool
is_past lt none r = true
is_past lt (some p) r = elim p.sort_value [
  | none ↦ true
  | some t ↦ if str_eq p.id "" then true else is_job_after lt t p.id r
]

module _ (k : Tokens) (lt : String → String → Bool) (sha_prefix : String → String) where
  open k use {Token, encode_cursor, decode_cursor}

  abbrev pub filter_hash_for_status : Option JobStatus → String
  filter_hash_for_status none = sha_prefix "jobs:status:none"
  filter_hash_for_status (some s) = sha_prefix ("jobs:status:" ++ status_text s)

  abbrev pub job_cursor : String → Option JobStatus → JobRow → Token
  job_cursor proj status r = encode_cursor (record {
    resource = jobs;
    project_id = proj;
    position = record { sort_value = some r.created_at; id = r.id };
    filter_hash = filter_hash_for_status status;
  })

  unfoldable pub list_jobs :
      String → String → Option JobStatus → ℕ → JobStore → Option Token → List JobRow × Option Token
  unfolding read_cursor filter order_by cut_page is_past
  list_jobs team proj status limit db cursor =
      elim (read_cursor k jobs proj (filter_hash_for_status status) cursor) [
        | none ↦ ([], none)
        | some start ↦
            let rows = take (limit + 1) (
              order_by (is_newer_job lt)
                (filter (λ r. is_listed team proj status r && is_past lt start r) db.jobs)) in
            let (kept, more) = cut_page limit rows in
            (kept, if more then map_option (job_cursor proj status) (last kept) else none)
      ]

  unfoldable pub validate_jobs_cursor : Token → String → Option JobStatus → Option CursorPayload
  validate_jobs_cursor token proj status = elim (decode_cursor token) [
    | none ↦ none
    | some p ↦
        if resource_index p.resource == resource_index jobs
          && (str_eq p.project_id proj && str_eq p.filter_hash (filter_hash_for_status status))
        then some p
        else none
  ]
