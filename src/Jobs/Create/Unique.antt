-- ===== src/Jobs/Create/Unique.antt =====
-- About the unique indexes of the table `jobs` under `createJob`.
use teamem_server.Prelude.{
  ℕ, ◌≤◌, ◌≡◌, subst, inl, inr, Bool, true, false, ◌&&◌, String, List, [], ◌∷◌, ok, arith, str_eq,
  str_eq_iff, str_eq_via, err-ne-ok, ok-injective, Result-cases, col_eq, length, any, Bool-cases,
  ltb, Option-cases,
}
use teamem_server.Table.{filter, length-filter_mono}
use teamem_server.Jobs.Rows.{JobKind, JobRow, JobStore, CreateJobRequest, kind_eq}
use teamem_server.Jobs.Create.{
  Constraint, insert_job, same_index_entry, new_row, insert_or_recover, create_job, find_existing,
}

abbrev pub has_key : String → JobKind → String → JobRow → Bool
has_key project kind key r =
    str_eq r.project_id project && (kind_eq r.kind kind && col_eq r.idempotency_key key)

-- At most one row for each id, and at most one for each (project, kind, key).
pub record IsUnique (db : JobStore) : Type 0 where
  pub ids : (id : String) → length (filter (λ r. str_eq r.id id) db.jobs) ≤ 1
  pub keys :
      (project : String) (kind : JobKind) (key : String)
      → length (filter (has_key project kind key) db.jobs) ≤ 1

any-eq-false {ℓ} :
    {A : Type ℓ} (p : A → Bool) (rs : List A) → any p rs ≡ false → length (filter p rs) ≤ 0
unfolding filter
any-eq-false p [] h = omega arith
any-eq-false p (r ∷ rs) h = ground (arith, any-eq-false p rs)

has_key-same_index_entry :
    (project : String) (kind : JobKind) (key : String) (new r : JobRow)
    → has_key project kind key new ≡ true
    → has_key project kind key r ≡ true
    → same_index_entry new r ≡ true
has_key-same_index_entry project kind key new r h k = elim (Option-cases new.idempotency_key) [
  | inl none_key ↦ ground arith
  | inr (new_key, new_e) ↦ elim (Option-cases r.idempotency_key) [
    | inl none_key ↦ ground arith
    | inr (r_key, r_e) ↦ ground (
      arith,
      new_e,
      r_e,
      str_eq_via r.project_id new.project_id project,
      str_eq_via r_key new_key key,
      str_eq_iff new_key key,
    )
  ]
]

pub insert_job-eq-ok :
    (row : JobRow) (db db' : JobStore)
    → insert_job row db ≡ ok db'
    → (any (λ r. str_eq r.id row.id) db.jobs ≡ false)
      × (any (same_index_entry row) db.jobs ≡ false)
      × (record db { jobs = row ∷ db.jobs } ≡ db')
unfolding insert_job
insert_job-eq-ok row db db' h = elim (Bool-cases (any (λ r. str_eq r.id row.id) db.jobs)) [
  | inl taken ↦ absurd (err-ne-ok (rw taken at h))
  | inr fresh ↦ elim (Bool-cases (any (same_index_entry row) db.jobs)) [
    | inl taken ↦ absurd (err-ne-ok (rw (fresh, taken) at h))
    | inr open_key ↦ (fresh, open_key, ok-injective (rw (fresh, open_key) at h))
  ]
]

-- A row put at the head of at most one match of `q`, where no row that it rules out is there.
length-filter-cons :
    (q p : JobRow → Bool) (row : JobRow) (rs : List JobRow)
    → ((r : JobRow) → q row ≡ true → q r ≡ true → p r ≡ true)
    → any p rs ≡ false
    → length (filter q rs) ≤ 1
    → length (filter q (row ∷ rs)) ≤ 1
unfolding filter
length-filter-cons q p row rs h none_p le = elim (Bool-cases (q row)) [
  | inl hit ↦
      rw hit (omega (arith, length-filter_mono q p (λ r. h r hit) rs, any-eq-false p rs none_p))
  | inr miss ↦ rw miss le
]

insert_job-IsUnique :
    (row : JobRow) (db db' : JobStore) → insert_job row db ≡ ok db' → IsUnique db → IsUnique db'
insert_job-IsUnique row db db' h u =
    let (fresh, open_key, same) = insert_job-eq-ok row db db' h in
    subst IsUnique same (record {
      ids = λ id.
          length-filter-cons (λ r. str_eq r.id id) (λ r. str_eq r.id row.id) row db.jobs
            (λ r a b. str_eq_via r.id row.id id b a) fresh (u.ids id);
      keys = λ project kind key.
          length-filter-cons (has_key project kind key) (same_index_entry row) row db.jobs
            (has_key-same_index_entry project kind key row) open_key (u.keys project kind key);
    })

module _ (names_constraint : Constraint → Bool) (before_insert before_requery : JobStore → JobStore)
    (insert_keeps : (db : JobStore) → IsUnique db → IsUnique (before_insert db))
    (requery_keeps : (db : JobStore) → IsUnique db → IsUnique (before_requery db)) where
  insert_or_recover-IsUnique :
      (id : String) (now : ℕ) (req : CreateJobRequest) (db : JobStore)
      → IsUnique db
      → IsUnique (insert_or_recover names_constraint before_insert before_requery id now req db).0
  unfolding insert_or_recover
  insert_or_recover-IsUnique id now req db u =
      elim (Result-cases (insert_job (new_row id now req) db)) [
        | inl (db', e) ↦
            rw (e, insert_or_recover) (insert_job-IsUnique (new_row id now req) db db' e u)
        | inr (violated, e) ↦ rw (e, insert_or_recover) (requery_keeps db u)
      ]

  -- If the store has at most one job for each id and for each (project, kind, key), and whatever
  -- other callers commit keeps that, then it still does after `createJob`, on every path.
  pub create_job-IsUnique :
      (id : String) (now : ℕ) (req : CreateJobRequest) (db : JobStore)
      → IsUnique db
      → IsUnique (create_job names_constraint before_insert before_requery id now req db).0
  unfolding create_job
  create_job-IsUnique id now req db u = elim (Bool-cases (ltb req.event_count 1)) [
    | inl small ↦ rw small u
    | inr enough ↦ elim (Option-cases (find_existing req db)) [
      | inl missing ↦
          rw (enough, missing)
            (insert_or_recover-IsUnique id now req (before_insert db) (insert_keeps db u))
      | inr (existing, found) ↦ rw (enough, found) u
    ]
  ]
