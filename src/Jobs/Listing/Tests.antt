-- ===== src/Jobs/Listing/Tests.antt =====
-- Runs of `listJobs`, db/repositories/jobs.ts, on tokens that are their payloads.
use teamem_server.Prelude.{◌≡◌, refl, false, none, some, String, [], ◌∷◌, map, arith, str_eq_via}
use teamem_server.Table.{filter}
use teamem_server.Table.Order.{order_by, IsSorted}
use teamem_server.Table.Pages.{walk, cut_page}
use teamem_server.Table.Cursor.{Tokens, CursorPayload, read_cursor}
use teamem_server.Table.Collation.{text_lt, text_lt-IsCollation}
use teamem_server.Jobs.Rows.{JobRow, JobStore}
use teamem_server.Jobs.Create.Unique.{IsUnique}
use teamem_server.Jobs.Listing.{list_jobs, is_newer_job, is_past}
use teamem_server.Jobs.Listing.Pages.{listing, walk-list_jobs}
use teamem_server.Jobs.Tests.{job_1}

abbrev pub plain_tokens : Tokens
plain_tokens = record {
  Token = CursorPayload;
  encode_cursor = λ p. p;
  decode_cursor = λ p. some p;
  is_empty = λ p. false;
  decode-encode = λ p. refl;
  encode_not_empty = λ p. refl;
}

abbrev pub same_text : String → String
same_text s = s

abbrev job_2 : JobRow
job_2 = record job_1 { id = "j2"; idempotency_key = none }

abbrev job_3 : JobRow
job_3 = record job_1 { id = "j3"; idempotency_key = none; created_at = 4 }

abbrev three_jobs : JobStore
three_jobs = record { jobs = job_3 ∷ job_1 ∷ job_2 ∷ []; job_events = [] }

two_pages_test :
    map
      (λ (r : JobRow). r.id)
      (walk 4 (list_jobs plain_tokens text_lt same_text "t1" "p1" none 2 three_jobs) none)
    ≡ "j2" ∷ "j1" ∷ "j3" ∷ []
unfolding walk list_jobs read_cursor is_past filter order_by cut_page text_lt
two_pages_test = refl

three_jobs-IsUnique : IsUnique three_jobs
unfolding filter
three_jobs-IsUnique = record {
  ids = λ id.
      ground (arith, str_eq_via "j1" "j2" id, str_eq_via "j1" "j3" id, str_eq_via "j2" "j3" id);
  keys = λ project kind key. ground arith;
}

walk-list_jobs_example :
    (walk 4 (list_jobs plain_tokens text_lt same_text "t1" "p1" none 2 three_jobs) none
      ≡ listing plain_tokens text_lt text_lt-IsCollation same_text "t1" "p1" none 2 three_jobs)
    × IsSorted
        (is_newer_job text_lt)
        (listing plain_tokens text_lt text_lt-IsCollation same_text "t1" "p1" none 2 three_jobs)
unfolding filter order_by text_lt
walk-list_jobs_example =
    walk-list_jobs plain_tokens text_lt text_lt-IsCollation same_text "t1" "p1" none 2 three_jobs
      three_jobs-IsUnique (refl, (refl, (refl, tt))) (omega arith) 4 (omega arith)
