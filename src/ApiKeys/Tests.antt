-- ===== src/ApiKeys/Tests.antt =====
-- Runs of db/repositories/api-keys.ts and http/routes/keys.ts.
use teamem_server.Prelude.{◌≡◌, refl, false, none, some, List, [], ◌∷◌, ok, err}
use teamem_server.Table.{filter}
use teamem_server.Auth.Scope.{project}
use teamem_server.ApiKeys.{
  ApiScope, ApiKeyRow, KeyStore, KeyError, authentication, MintKeyRequest, minted_row, mint_key,
  revoke_key, rotate_key, resolve_token_hash,
}
use teamem_server.ApiKeys.Revoked.{
  KeyCall, mint, revoke, rotate, touch, serve_keys, revoke_key-resolve_token_hash,
}

abbrev reader : MintKeyRequest
reader = record {
  name = "ci";
  scopes = "read" ∷ "read:payload" ∷ [];
  project_id = some "p1";
  all_projects = false;
}

abbrev key : ApiKeyRow
key = minted_row "key_1" 5 "hash_1" "t1" reader (some "p1")

abbrev store : KeyStore
store = record {
  keys = key ∷ [];
  teams = record { id = "t1"; name = "Team" } ∷ [];
  projects = record { id = "p1"; team_id = "t1" } ∷ [];
  principals = [];
}

resolved_test :
    resolve_token_hash "hash_1" store
    ≡ ok (record {
      credential_id = "key_1";
      key_name = "ci";
      scopes = ApiScope.read ∷ ApiScope.read_payload ∷ [];
      scope = project "t1" "p1";
      principal = none;
      team = record { id = "t1"; name = "Team" };
      created_at = 5;
    })
unfolding resolve_token_hash
resolved_test = refl

payload_alone_test :
    (mint_key "key_2" 6 "hash_2" "t1" (record reader { scopes = "read:payload" ∷ [] }) store).1
    ≡ err KeyError.invalid_request
unfolding mint_key
payload_alone_test = refl

-- A later key with the same hash, a rotation, a second revocation, and a use.
abbrev later : List KeyCall
later =
    mint "key_2" 8 "hash_1" "t1" reader
    ∷ rotate false "key_3" 9 "hash_3" "key_1" "t1"
    ∷ revoke 9 "key_1" "t1"
    ∷ touch 10 "key_1"
    ∷ []

revoke_key-resolve_token_hash_example :
    resolve_token_hash "hash_1" (serve_keys later (revoke_key 7 "key_1" "t1" store).0)
    ≡ err authentication
unfolding filter
revoke_key-resolve_token_hash_example =
    revoke_key-resolve_token_hash "hash_1" key 7 store later refl refl

-- A rotation whose INSERT is refused, on two connections: the old key is gone and there is no new one.
lost_key_test :
    resolve_token_hash "hash_1" (rotate_key false "key_1" 9 "hash_3" "key_1" "t1" store).0
    ≡ err authentication
unfolding resolve_token_hash rotate_key
lost_key_test = refl
