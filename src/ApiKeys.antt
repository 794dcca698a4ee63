-- ===== src/ApiKeys.antt =====
-- API keys: db/repositories/api-keys.ts, and the routes of http/routes/keys.ts that mint and revoke a key, after
-- `requireRole`. A key's token stands as its hash; the table has the constraints of db/schema.ts.
pub mod Revoked
mod Tests
use Prim.Native.String.{◌++◌}
use teamem_server.Prelude.{
  ℕ, Bool, true, false, not, ◌&&◌, ◌||◌, Option, none, some, String, List, [], ◌∷◌, Result, ok, err,
  str_eq, first, any, if◌then◌else◌,
}
use teamem_server.Table.{filter, update_where, returning}
use teamem_server.Auth.Scope.{ScopeContext, project, all_projects}
use teamem_server.Jobs.Create.{truthy}
use teamem_server.Ingest.Compilations.{ProjectRow}

pub data ApiScope : Type 0 where
  events_write read read_payload audit_read : ApiScope

pub record ApiKeyRow : Type 0 where
  pub id : String
  pub team_id : String
  pub project_id : Option String
  pub principal_id : Option String
  pub name : String
  pub token_hash : String
  pub scopes : List String
  pub all_projects : Bool
  pub created_at : ℕ
  pub revoked_at : Option ℕ
  pub last_used_at : Option ℕ

pub record TeamRow : Type 0 where
  pub id : String
  pub name : String

pub record PrincipalRow : Type 0 where
  pub id : String
  pub team_id : String
  pub kind : String
  pub provider : String
  pub provider_kind : String
  pub provider_user_id : String
  pub display_login : Option String

pub record KeyStore : Type 0 where
  pub keys : List ApiKeyRow
  pub teams : List TeamRow
  pub projects : List ProjectRow
  pub principals : List PrincipalRow

pub record AuthContext : Type 0 where
  pub credential_id : String
  pub key_name : String
  pub scopes : List ApiScope
  pub scope : ScopeContext
  pub principal : Option PrincipalRow
  pub team : TeamRow
  pub created_at : ℕ

pub data KeyError : Type 0 where
  authentication invalid_request not_found internal : KeyError

unfoldable pub parse_scope : String → Option ApiScope
parse_scope s =
    if str_eq s "events:write"
    then some events_write
    else if str_eq s "read"
    then some read
    else if str_eq s "read:payload"
    then some read_payload
    else if str_eq s "audit:read"
    then some audit_read
    else none

unfoldable pub parse_scopes : List String → Option (List ApiScope)
unfolding parse_scope
parse_scopes [] = some []
parse_scopes (s ∷ ss) = elim (parse_scope s) [
  | none ↦ none
  | some scope ↦ elim (parse_scopes ss) [ none ↦ none | some scopes ↦ some (scope ∷ scopes) ]
]

abbrev pub is_read : ApiScope → Bool
is_read events_write = false
is_read read = true
is_read read_payload = false
is_read audit_read = false

abbrev pub is_read_payload : ApiScope → Bool
is_read_payload events_write = false
is_read_payload read = false
is_read_payload read_payload = true
is_read_payload audit_read = false

unfoldable pub validate_api_key_scopes : List String → Result KeyError (List ApiScope)
unfolding parse_scopes
validate_api_key_scopes raw = elim (parse_scopes raw) [
  | none ↦ err authentication
  | some scopes ↦
      if any is_read_payload scopes && not (any is_read scopes)
      then err authentication
      else ok scopes
]

abbrev pub is_null : Option ℕ → Bool
is_null none = true
is_null (some t) = false

abbrev pub is_active_key : String → ApiKeyRow → Bool
is_active_key hash r = str_eq r.token_hash hash && is_null r.revoked_at

unfoldable pub principal_of : ApiKeyRow → List PrincipalRow → Option PrincipalRow
unfolding truthy filter
principal_of key principals = elim (truthy key.principal_id) [
  | none ↦ none
  | some id ↦
      first
        (filter (λ (p : PrincipalRow). str_eq p.team_id key.team_id && str_eq p.id id) principals)
]

unfoldable pub scope_of : ApiKeyRow → Option ScopeContext
unfolding truthy
scope_of key =
    if key.all_projects
    then some (all_projects key.team_id)
    else (elim (truthy key.project_id) [ none ↦ none | some id ↦ some (project key.team_id id) ])

-- From the key's row and its team's on.
unfoldable pub resolve_key : ApiKeyRow → TeamRow → KeyStore → Result KeyError AuthContext
unfolding principal_of scope_of validate_api_key_scopes
resolve_key key team db = elim (scope_of key) [
  | none ↦ err authentication
  | some scope ↦ elim (validate_api_key_scopes key.scopes) [
    | err e ↦ err e
    | ok scopes ↦ ok (record {
      credential_id = key.id;
      key_name = key.name;
      scopes = scopes;
      scope = scope;
      principal = principal_of key db.principals;
      team = team;
      created_at = key.created_at;
    })
  ]
]

unfoldable pub resolve_token_hash : String → KeyStore → Result KeyError AuthContext
unfolding filter resolve_key
resolve_token_hash hash db = elim (first (filter (is_active_key hash) db.keys)) [
  | none ↦ err authentication
  | some key ↦ elim (first (filter (λ (t : TeamRow). str_eq t.id key.team_id) db.teams)) [
    | none ↦ err authentication
    | some team ↦ resolve_key key team db
  ]
]

abbrev pub used_row : ℕ → ApiKeyRow → ApiKeyRow
used_row now r = record r { last_used_at = some now }

unfoldable pub touch_key_last_used : ℕ → String → KeyStore → KeyStore
unfolding update_where
touch_key_last_used now id db = record db {
  keys = update_where (λ (r : ApiKeyRow). str_eq r.id id) (used_row now) db.keys;
}

pub record MintKeyRequest : Type 0 where
  pub name : String
  pub scopes : List String
  pub project_id : Option String
  pub all_projects : Bool

abbrev pub minted_row : String → ℕ → String → String → MintKeyRequest → Option String → ApiKeyRow
minted_row id now hash team req project_id = record {
  id = id;
  team_id = team;
  project_id = project_id;
  principal_id = none;
  name = req.name;
  token_hash = hash;
  scopes = req.scopes;
  all_projects = req.all_projects;
  created_at = now;
  revoked_at = none;
  last_used_at = none;
}

abbrev pub is_some : Option String → Bool
is_some none = false
is_some (some s) = true

-- `api_keys_least_privilege_ck`
abbrev pub is_least_privilege : ApiKeyRow → Bool
is_least_privilege r = if r.all_projects then not (is_some r.project_id) else is_some r.project_id

unfoldable pub insert_key : ApiKeyRow → KeyStore → Option KeyStore
insert_key row db =
    if any (λ (r : ApiKeyRow). str_eq r.id row.id || str_eq r.token_hash row.token_hash) db.keys
    then none
    else if is_least_privilege row && any (λ (t : TeamRow). str_eq t.id row.team_id) db.teams
    then some (record db { keys = row ∷ db.keys })
    else none

abbrev pub Minted : Type 0
Minted = KeyStore × Result KeyError String

-- The project of a request, in the team.
unfoldable pub project_for : String → MintKeyRequest → KeyStore → Result KeyError (Option String)
unfolding truthy
project_for team req db = elim (truthy req.project_id) [
  | none ↦ ok none
  | some id ↦
      if any (λ (p : ProjectRow). str_eq p.id id && str_eq p.team_id team) db.projects
      then ok (some id)
      else err not_found
]

-- POST /v1/teams/:teamId/keys, which answers with the id of the key.
unfoldable pub mint_key : String → ℕ → String → String → MintKeyRequest → KeyStore → Minted
unfolding validate_api_key_scopes project_for insert_key
mint_key id now hash team req db = elim (validate_api_key_scopes req.scopes) [
  | err e ↦ (db, err invalid_request)
  | ok scopes ↦ elim (project_for team req db) [
    | err e ↦ (db, err e)
    | ok project_id ↦ elim (insert_key (minted_row id now hash team req project_id) db) [
      | none ↦ (db, err internal)
      | some db' ↦ (db', ok id)
    ]
  ]
]

abbrev pub is_revocable : String → String → ApiKeyRow → Bool
is_revocable id team r = str_eq r.id id && (str_eq r.team_id team && is_null r.revoked_at)

abbrev pub revoked_row : ℕ → ApiKeyRow → ApiKeyRow
revoked_row now r = record r { revoked_at = some now }

-- POST /v1/teams/:teamId/keys/:keyId/revoke
unfoldable pub revoke_key : ℕ → String → String → KeyStore → KeyStore × Result KeyError ApiKeyRow
unfolding update_where returning
revoke_key now id team db =
    let updated = record db {
      keys = update_where (is_revocable id team) (revoked_row now) db.keys;
    } in
    if str_eq id ""
    then (db, err invalid_request)
    else (elim (first (returning (is_revocable id team) (revoked_row now) db.keys)) [
      | none ↦ (updated, err not_found)
      | some row ↦ (updated, ok row)
    ])

abbrev pub has_key_id : String → String → ApiKeyRow → Bool
has_key_id id team r = str_eq r.id id && str_eq r.team_id team

-- The key that takes the place of an old one.
abbrev pub rotated_row : String → ℕ → String → String → ApiKeyRow → ApiKeyRow
rotated_row id now hash team old = record {
  id = id;
  team_id = team;
  project_id = old.project_id;
  principal_id = none;
  name = old.name ++ " (rotated)";
  token_hash = hash;
  scopes = old.scopes;
  all_projects = old.all_projects;
  created_at = now;
  revoked_at = none;
  last_used_at = none;
}

-- The two statements of a rotation. `db.$client` is a pool, so that BEGIN and ROLLBACK may go to other connections than the
-- statements: `rolls_back` says whether a refused INSERT takes the UPDATE back.
unfoldable pub replace_key : Bool → String → ℕ → String → String → ApiKeyRow → KeyStore → Minted
unfolding update_where insert_key
replace_key rolls_back id now hash team old db =
    let updated = record db {
      keys = update_where (has_key_id old.id team) (revoked_row now) db.keys;
    } in
    elim (insert_key (rotated_row id now hash team old) updated) [
      | none ↦ ((if rolls_back then db else updated), err internal)
      | some db' ↦ (db', ok id)
    ]

-- POST /v1/teams/:teamId/keys/:keyId/rotate, which answers with the id of the new key.
unfoldable pub rotate_key : Bool → String → ℕ → String → String → String → KeyStore → Minted
unfolding filter replace_key
rotate_key rolls_back id now hash old_id team db =
    if str_eq old_id ""
    then (db, err invalid_request)
    else (elim (first (filter (has_key_id old_id team) db.keys)) [
      | none ↦ (db, err not_found)
      | some old ↦
          if is_null old.revoked_at
          then replace_key rolls_back id now hash team old db
          else (db, err invalid_request)
    ])
