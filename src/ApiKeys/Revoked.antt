-- ===== src/ApiKeys/Revoked.antt =====
-- About revoked keys, http/routes/keys.ts and db/repositories/api-keys.ts.
use teamem_server.Prelude.{
  ℕ, ◌≡◌, refl, sym, subst, ◌∙◌, inl, inr, Bool, true, false, ◌&&◌, ◌||◌, some, String, List, [],
  ◌∷◌, err, str_eq, str_eq_self, first, any, All, Bool-cases, Option-cases, Result-cases,
  true-ne-false, none-ne-some, some-injective, str_eq_via, arith,
}
use teamem_server.Table.{filter, update_where, returning}
use teamem_server.ApiKeys.{
  ApiKeyRow, TeamRow, is_least_privilege, KeyStore, authentication, MintKeyRequest, is_active_key,
  is_null, is_revocable, revoked_row, used_row, minted_row, insert_key, project_for,
  validate_api_key_scopes, mint_key, revoke_key, has_key_id, rotated_row, replace_key, rotate_key,
  touch_key_last_used, resolve_token_hash,
}

-- What the routes and the authentication do to the table.
pub data KeyCall : Type 0 where
  mint : String → ℕ → String → String → MintKeyRequest → KeyCall
  revoke : ℕ → String → String → KeyCall
  rotate : Bool → String → ℕ → String → String → String → KeyCall
  touch : ℕ → String → KeyCall

unfoldable pub serve_key : KeyCall → KeyStore → KeyStore
unfolding mint_key revoke_key rotate_key touch_key_last_used
serve_key (mint id now hash team req) db = (mint_key id now hash team req db).0
serve_key (revoke now id team) db = (revoke_key now id team db).0
serve_key (rotate rolls_back id now hash old_id team) db =
    (rotate_key rolls_back id now hash old_id team db).0
serve_key (touch now id) db = touch_key_last_used now id db

unfoldable pub serve_keys : List KeyCall → KeyStore → KeyStore
unfolding serve_key
serve_keys [] db = db
serve_keys (c ∷ cs) db = serve_keys cs (serve_key c db)

abbrev pub has_hash : String → ApiKeyRow → Bool
has_hash hash r = str_eq r.token_hash hash

abbrev Dead : String → ApiKeyRow → Type 0
Dead hash r = has_hash hash r ≡ true → is_null r.revoked_at ≡ false

-- A key with the hash is in the table, and every one is revoked.
record IsSpent (hash : String) (keys : List ApiKeyRow) : Type 0 where
  there : any (has_hash hash) keys ≡ true
  dead : All (Dead hash) keys

any-update :
    (hash : String) (q : ApiKeyRow → Bool) (f : ApiKeyRow → ApiKeyRow)
    → ((r : ApiKeyRow) → has_hash hash (f r) ≡ has_hash hash r)
    → (keys : List ApiKeyRow)
    → any (has_hash hash) (update_where q f keys) ≡ any (has_hash hash) keys
unfolding update_where
any-update hash q f keeps [] = refl
any-update hash q f keeps (r ∷ keys) = ground (arith, keeps r, any-update hash q f keeps keys)

-- An update after which the rows of the hash that it reaches are revoked, and the others were before.
Dead-update :
    (hash : String) (q : ApiKeyRow → Bool) (f : ApiKeyRow → ApiKeyRow) (keys : List ApiKeyRow)
    → All (λ r. (q r ≡ true → Dead hash (f r)) × (q r ≡ false → Dead hash r)) keys
    → All (Dead hash) (update_where q f keys)
unfolding update_where
Dead-update hash q f [] h = tt
Dead-update hash q f (r ∷ keys) h = elim (Bool-cases (q r)) [
  | inl hit ↦ rw hit (h.0.0 hit, Dead-update hash q f keys h.1)
  | inr miss ↦ rw miss (h.0.1 miss, Dead-update hash q f keys h.1)
]

-- No active key has a spent hash.
none_active :
    (hash : String) (keys : List ApiKeyRow)
    → All (Dead hash) keys
    → filter (is_active_key hash) keys ≡ []
unfolding filter
none_active hash [] h = refl
none_active hash (r ∷ keys) h = elim (Bool-cases (has_hash hash r)) [
  | inl mine ↦ rw (mine, h.0 mine) (none_active hash keys h.1)
  | inr other ↦ rw other (none_active hash keys h.1)
]

resolve-IsSpent :
    (hash : String) (db : KeyStore)
    → IsSpent hash db.keys
    → resolve_token_hash hash db ≡ err authentication
unfolding resolve_token_hash
resolve-IsSpent hash db h = rw (none_active hash db.keys h.dead, resolve_token_hash) refl

update-IsSpent :
    (hash : String) (q : ApiKeyRow → Bool) (f : ApiKeyRow → ApiKeyRow) (keys : List ApiKeyRow)
    → ((r : ApiKeyRow) → has_hash hash (f r) ≡ has_hash hash r)
    → ((r : ApiKeyRow) → Dead hash r → Dead hash (f r))
    → IsSpent hash keys
    → IsSpent hash (update_where q f keys)
update-IsSpent hash q f keys keeps stays h = record {
  there = any-update hash q f keeps keys ∙ h.there;
  dead = Dead-update hash q f keys (both keys h.dead);
}
  where
    both :
        (keys : List ApiKeyRow)
        → All (Dead hash) keys
        → All (λ r. (q r ≡ true → Dead hash (f r)) × (q r ≡ false → Dead hash r)) keys
    both [] k = tt
    both (r ∷ keys) k = (((λ e. stays r k.0), (λ e. k.0)), both keys k.1)

clash :
    (hash : String) (row : ApiKeyRow) (keys : List ApiKeyRow)
    → has_hash hash row ≡ true
    → any (has_hash hash) keys ≡ true
    → any (λ (r : ApiKeyRow). str_eq r.id row.id || str_eq r.token_hash row.token_hash) keys ≡ true
clash hash row [] mine h = absurd (true-ne-false (sym h))
clash hash row (r ∷ keys) mine h = elim (Bool-cases (has_hash hash r)) [
  | inl here ↦
      let same : str_eq r.token_hash row.token_hash ≡ true =
        str_eq_via r.token_hash row.token_hash hash here mine in
      ground (arith, same)
  | inr other ↦
      let later : any (has_hash hash) keys ≡ true = (rw other at h) in
      ground (arith, clash hash row keys mine later)
]

-- A key with a spent hash is not inserted, and another one does not matter.
insert_key-IsSpent :
    (hash : String) (row : ApiKeyRow) (db db' : KeyStore)
    → insert_key row db ≡ some db'
    → IsSpent hash db.keys
    → IsSpent hash db'.keys
unfolding insert_key
insert_key-IsSpent hash row db db' h spent =
    elim (Bool-cases
      (any (λ (r : ApiKeyRow). str_eq r.id row.id || str_eq r.token_hash row.token_hash) db.keys)) [
        | inl taken ↦ absurd (none-ne-some (rw taken at h))
        | inr free ↦
            elim (Bool-cases
              (is_least_privilege row && any (λ (t : TeamRow). str_eq t.id row.team_id) db.teams)) [
                | inr refused ↦ absurd (none-ne-some (rw (free, refused) at h))
                | inl allowed ↦
                    subst (λ (d : KeyStore). IsSpent hash d.keys)
                      (some-injective (rw (free, allowed) at h))
                      (record {
                        there = ground (arith, spent.there);
                        dead = (
                          (λ mine. absurd (
                              true-ne-false
                                (sym (clash hash row db.keys mine spent.there) ∙ free))),
                          spent.dead,
                        );
                      })
              ]
      ]

mint-IsSpent :
    (hash id own team : String) (now : ℕ) (req : MintKeyRequest) (db : KeyStore)
    → IsSpent hash db.keys
    → IsSpent hash (mint_key id now own team req db).0.keys
unfolding mint_key
mint-IsSpent hash id own team now req db spent =
    elim (Result-cases (validate_api_key_scopes req.scopes)) [
      | inr (e, refused) ↦ rw (refused, mint_key) spent
      | inl (scopes, valid) ↦ elim (Result-cases (project_for team req db)) [
        | inr (e, refused) ↦ rw (valid, refused, mint_key) spent
        | inl (project_id, allowed) ↦
            elim (Option-cases (insert_key (minted_row id now own team req project_id) db)) [
              | inl refused ↦ rw (valid, allowed, refused, mint_key) spent
              | inr (db', added) ↦
                  rw (valid, allowed, added, mint_key)
                    (insert_key-IsSpent hash (minted_row id now own team req project_id) db db'
                      added spent)
            ]
      ]
    ]

revoke_key-keys :
    (now : ℕ) (id team : String) (db : KeyStore)
    → str_eq id "" ≡ false
    → (revoke_key now id team db).0.keys
      ≡ update_where (is_revocable id team) (revoked_row now) db.keys
unfolding revoke_key
revoke_key-keys now id team db named =
    rw (named, revoke_key)
      (elim (Option-cases (first (returning (is_revocable id team) (revoked_row now) db.keys))) [
        | inl missing ↦ rw missing refl
        | inr (row, found) ↦ rw found refl
      ])

revoke-IsSpent :
    (hash id team : String) (now : ℕ) (db : KeyStore)
    → IsSpent hash db.keys
    → IsSpent hash (revoke_key now id team db).0.keys
unfolding revoke_key
revoke-IsSpent hash id team now db spent = elim (Bool-cases (str_eq id "")) [
  | inl empty ↦ rw (empty, revoke_key) spent
  | inr named ↦
      subst (λ keys. IsSpent hash keys) (sym (revoke_key-keys now id team db named))
        (update-IsSpent hash (is_revocable id team) (revoked_row now) db.keys (λ r. refl)
          (λ r k mine. refl) spent)
]

replace-IsSpent :
    (rolls_back : Bool) (hash id own team : String) (now : ℕ) (old : ApiKeyRow) (db : KeyStore)
    → IsSpent hash db.keys
    → IsSpent hash (replace_key rolls_back id now own team old db).0.keys
unfolding replace_key
replace-IsSpent rolls_back hash id own team now old db spent =
    let updated : KeyStore = record db {
      keys = update_where (has_key_id old.id team) (revoked_row now) db.keys;
    } in
    let still : IsSpent hash updated.keys =
      update-IsSpent hash (has_key_id old.id team) (revoked_row now) db.keys (λ r. refl)
        (λ r k mine. refl) spent in
    elim (Option-cases (insert_key (rotated_row id now own team old) updated)) [
      | inl refused ↦
          rw (refused, replace_key)
            (elim (Bool-cases rolls_back) [ inl back ↦ rw back spent | inr kept ↦ rw kept still ])
      | inr (db', added) ↦
          rw (added, replace_key)
            (insert_key-IsSpent hash (rotated_row id now own team old) updated db' added still)
    ]

rotate-IsSpent :
    (rolls_back : Bool) (hash id own old_id team : String) (now : ℕ) (db : KeyStore)
    → IsSpent hash db.keys
    → IsSpent hash (rotate_key rolls_back id now own old_id team db).0.keys
unfolding rotate_key
rotate-IsSpent rolls_back hash id own old_id team now db spent =
    elim (Bool-cases (str_eq old_id "")) [
      | inl empty ↦ rw (empty, rotate_key) spent
      | inr named ↦ elim (Option-cases (first (filter (has_key_id old_id team) db.keys))) [
        | inl missing ↦ rw (named, missing, rotate_key) spent
        | inr (old, found) ↦ elim (Bool-cases (is_null old.revoked_at)) [
          | inl active ↦
              rw (named, found, active, rotate_key)
                (replace-IsSpent rolls_back hash id own team now old db spent)
          | inr revoked ↦ rw (named, found, revoked, rotate_key) spent
        ]
      ]
    ]

serve_key-IsSpent :
    (hash : String) (c : KeyCall) (db : KeyStore)
    → IsSpent hash db.keys
    → IsSpent hash (serve_key c db).keys
unfolding serve_key touch_key_last_used
serve_key-IsSpent hash (mint id now own team req) db spent =
    mint-IsSpent hash id own team now req db spent
serve_key-IsSpent hash (revoke now id team) db spent = revoke-IsSpent hash id team now db spent
serve_key-IsSpent hash (rotate rolls_back id now own old_id team) db spent =
    rotate-IsSpent rolls_back hash id own old_id team now db spent
serve_key-IsSpent hash (touch now id) db spent =
    update-IsSpent hash (λ (r : ApiKeyRow). str_eq r.id id) (used_row now) db.keys (λ r. refl)
      (λ r k. k) spent

serve_keys-IsSpent :
    (hash : String) (cs : List KeyCall) (db : KeyStore)
    → IsSpent hash db.keys
    → IsSpent hash (serve_keys cs db).keys
unfolding serve_keys
serve_keys-IsSpent hash [] db spent = spent
serve_keys-IsSpent hash (c ∷ cs) db spent =
    serve_keys-IsSpent hash cs (serve_key c db) (serve_key-IsSpent hash c db spent)

cons_parts :
    (r key : ApiKeyRow) (l : List ApiKeyRow)
    → ◌≡◌ {A = List ApiKeyRow} (r ∷ l) (key ∷ [])
    → (r ≡ key) × (l ≡ [])
cons_parts r key l h = (cc, cc)

absent :
    (hash : String) (keys : List ApiKeyRow) (key : ApiKeyRow)
    → filter (has_hash hash) keys ≡ []
    → All (λ r. has_hash hash r ≡ true → r ≡ key) keys
unfolding filter
absent hash [] key h = tt
absent hash (r ∷ keys) key h = elim (Bool-cases (has_hash hash r)) [
  | inl mine ↦ absurd (cons_not_nil r (filter (has_hash hash) keys) (rw mine at h))
  | inr other ↦
      ((λ mine. absurd (true-ne-false (sym mine ∙ other))), absent hash keys key (rw other at h))
]
  where
    cons_not_nil : (r : ApiKeyRow) (l : List ApiKeyRow) → ◌≡◌ {A = List ApiKeyRow} (r ∷ l) [] → ⊥
    cons_not_nil r l e = cc

-- The only key with its hash: every row with the hash is this one, and there is one.
all_one :
    (hash : String) (keys : List ApiKeyRow) (key : ApiKeyRow)
    → filter (has_hash hash) keys ≡ key ∷ []
    → All (λ r. has_hash hash r ≡ true → r ≡ key) keys × (any (has_hash hash) keys ≡ true)
unfolding filter
all_one hash [] key h = absurd (cc)
all_one hash (r ∷ keys) key h = elim (Bool-cases (has_hash hash r)) [
  | inl mine ↦
      let parts = cons_parts r key (filter (has_hash hash) keys) (rw mine at h) in
      (((λ e. parts.0), absent hash keys key parts.1), rw mine refl)
  | inr other ↦
      let rest = all_one hash keys key (rw other at h) in
      (((λ mine. absurd (true-ne-false (sym mine ∙ other))), rest.0), rw other rest.1)
]

-- After a call that revokes it, every row with the hash is revoked.
revoked-IsSpent :
    (hash : String) (key : ApiKeyRow) (now : ℕ) (db : KeyStore)
    → str_eq key.id "" ≡ false
    → filter (has_hash hash) db.keys ≡ key ∷ []
    → IsSpent hash (revoke_key now key.id key.team_id db).0.keys
revoked-IsSpent hash key now db named only =
    let one = all_one hash db.keys key only in
    subst (λ keys. IsSpent hash keys) (sym (revoke_key-keys now key.id key.team_id db named))
      (record {
        there =
            any-update hash (is_revocable key.id key.team_id) (revoked_row now) (λ r. refl) db.keys
            ∙ one.1;
        dead =
            Dead-update hash (is_revocable key.id key.team_id) (revoked_row now) db.keys
              (both db.keys one.0);
      })
  where
    revocable :
        (r : ApiKeyRow)
        → r ≡ key
        → is_null r.revoked_at ≡ true
        → is_revocable key.id key.team_id r ≡ true
    revocable r same active =
        subst
          (λ (k : ApiKeyRow). is_null r.revoked_at ≡ true → is_revocable k.id k.team_id r ≡ true)
          same (λ e. rw (e, str_eq_self r.id, str_eq_self r.team_id) refl) active

    both :
        (keys : List ApiKeyRow)
        → All (λ r. has_hash hash r ≡ true → r ≡ key) keys
        → All
            (λ r.
              (is_revocable key.id key.team_id r ≡ true → Dead hash (revoked_row now r))
              × (is_revocable key.id key.team_id r ≡ false → Dead hash r))
            keys
    both [] h = tt
    both (r ∷ keys) h = (
      (
        (λ hit mine. refl),
        (λ miss mine. elim (Bool-cases (is_null r.revoked_at)) [
          | inr done ↦ done
          | inl active ↦ absurd (true-ne-false (sym (revocable r (h.0 mine) active) ∙ miss))
        ]),
      ),
      both keys h.1,
    )

-- If a key is the only one with its token's hash, then once its revocation was asked for, with whatever answer, the
-- token is refused for ever, whatever keys are minted, rotated, revoked and used afterwards, in any team.
pub revoke_key-resolve_token_hash :
    (hash : String) (key : ApiKeyRow) (now : ℕ) (db : KeyStore) (later : List KeyCall)
    → str_eq key.id "" ≡ false
    → filter (has_hash hash) db.keys ≡ key ∷ []
    → resolve_token_hash hash (serve_keys later (revoke_key now key.id key.team_id db).0)
      ≡ err authentication
revoke_key-resolve_token_hash hash key now db later named only =
    resolve-IsSpent hash (serve_keys later (revoke_key now key.id key.team_id db).0) (
      serve_keys-IsSpent hash later (revoke_key now key.id key.team_id db).0
        (revoked-IsSpent hash key now db named only))
