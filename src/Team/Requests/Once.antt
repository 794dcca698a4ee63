-- ===== src/Team/Requests/Once.antt =====
-- About the use of an invitation among other requests.
use teamem_server.Prelude.{
  ℕ, suc, List-cases, ◌≤◌, ◌≡◌, ◌≢◌, refl, ap, inl, inr, leb, Bool, true, false, ◌&&◌, Option, none,
  some, String, List, [], ◌∷◌, Result-cases, ok, err, err-ne-ok, Option-cases, Bool-cases, arith,
  ltb, str_eq, str_eq_self, str_eq_iff, length, first, All,
}
use teamem_server.Table.{filter, update_where, filter-update_inside, All-update_where}
use teamem_server.Table.Unique.{filter_unique}
use teamem_server.Team.Roles.{TeamRole, owner, role_eq, InviteRow, TeamStore}
use teamem_server.Team.Members.{
  Session, route_scope, find_target, owner_count, apply_role, change_role, apply_removal,
  remove_member,
}
use teamem_server.Team.Members.Owners.{alone, undisturbed}
use teamem_server.Team.Invites.{
  invite_already_used, Accepted, has_token, has_id, mark_used, accept_valid, accept_invite,
  create_invite,
}
use teamem_server.Team.Requests.{Request, change, remove, invite, accept, serve, serve_all}

change_role-invites :
    (session : Session) (user : String) (body : Option TeamRole) (db : TeamStore)
    → (change_role alone alone session user body db).0.invites ≡ db.invites
unfolding change_role apply_role
change_role-invites session user body db = elim (Result-cases (route_scope session user)) [
  | inr (e, refused) ↦ rw (refused, change_role) refl
  | inl (team, scoped) ↦ elim (Option-cases body) [
    | inl invalid ↦ rw (scoped, change_role, invalid) refl
    | inr (role, parsed) ↦ elim (Option-cases (find_target user team db)) [
      | inl missing ↦ rw (scoped, change_role, parsed, missing) refl
      | inr (target, found) ↦ elim (Bool-cases (role_eq target.current_role role)) [
        | inl same ↦ rw (scoped, change_role, parsed, found, apply_role, same) refl
        | inr differs ↦
            elim (Bool-cases (role_eq target.current_role owner && leb (owner_count team db) 1)) [
              | inl last ↦ rw (scoped, change_role, parsed, found, apply_role, differs, last) refl
              | inr allowed ↦
                  rw (scoped, change_role, parsed, found, apply_role, differs, allowed)
                    (ap (λ (s : TeamStore). s.invites) (undisturbed target db))
            ]
      ]
    ]
  ]
]

remove_member-invites :
    (session : Session) (user : String) (db : TeamStore)
    → (remove_member alone alone session user db).0.invites ≡ db.invites
unfolding remove_member apply_removal
remove_member-invites session user db = elim (Result-cases (route_scope session user)) [
  | inr (e, refused) ↦ rw (refused, remove_member) refl
  | inl (team, scoped) ↦ elim (Option-cases (find_target user team db)) [
    | inl missing ↦ rw (scoped, remove_member, missing) refl
    | inr (target, found) ↦
        elim (Bool-cases (role_eq target.current_role owner && leb (owner_count team db) 1)) [
          | inl last ↦ rw (scoped, remove_member, found, apply_removal, last) refl
          | inr allowed ↦
              rw (scoped, remove_member, found, apply_removal, allowed)
                (ap (λ (s : TeamStore). s.invites) (undisturbed target db))
        ]
  ]
]

false-ne-true : false ≡ true → ⊥
false-ne-true h = cc

length-update_where {ℓ} :
    {A : Type ℓ} (p : A → Bool) (f : A → A) (rs : List A) → length (update_where p f rs) ≡ length rs
unfolding update_where
length-update_where p f [] = refl
length-update_where p f (r ∷ rs) = ap suc (length-update_where p f rs)

module _ (hash : String → String) (plaintext : String) where
  -- The request draws no token with the hash of this one.
  abbrev pub IsOtherToken : Request → Type 0
  IsOtherToken (invite id token now team role by ttl_ms) = hash token ≢ hash plaintext
  IsOtherToken _ = Unit

  abbrev is_used : InviteRow → Bool
  is_used i = elim i.used_at [ none ↦ false | some t ↦ true ]

  abbrev holds : List InviteRow → List InviteRow
  holds = filter (has_token hash plaintext)

  -- The rows of the token: there is one, and each is used.
  abbrev IsSpent : List InviteRow → Type 0
  IsSpent rows = (1 ≤ length (holds rows)) × All (λ i. is_used i ≡ true) (holds rows)

  mark-IsSpent :
      (id : String) (now : ℕ) (rows : List InviteRow)
      → IsSpent rows
      → IsSpent (update_where (has_id hash id) (mark_used hash now) rows)
  mark-IsSpent id now rows spent =
      let inside =
        filter-update_inside (has_id hash id) (mark_used hash now) (has_token hash plaintext)
          (λ i. refl) rows in
      rw inside (
        rw (length-update_where (has_id hash id) (mark_used hash now) (holds rows)) spent.0,
        All-update_where (has_id hash id) (mark_used hash now) (λ i. is_used i ≡ true)
            (λ i hit k. refl) (holds rows) spent.1,
      )

  -- An acceptance of any token by anyone, and a request of any other kind.
  accept-IsSpent :
      (now : ℕ) (token user : String) (db : TeamStore)
      → IsSpent db.invites
      → IsSpent (accept_invite hash now token user db).0.invites
  unfolding accept_invite accept_valid
  accept-IsSpent now token user db spent =
      elim (Option-cases (first (filter (has_token hash token) db.invites))) [
        | inl missing ↦ rw (missing, accept_invite) spent
        | inr (row, found) ↦ elim (Option-cases row.used_at) [
          | inr (at, taken) ↦ rw (found, accept_invite, taken) spent
          | inl unused ↦ elim (Bool-cases (ltb row.expires_at now)) [
            | inl late ↦ rw (found, accept_invite, unused, late) spent
            | inr on_time ↦
                rw (found, accept_invite, unused, on_time)
                  (mark-IsSpent row.id now db.invites spent)
          ]
        ]
      ]

  apart_token :
      (token : String) → hash token ≢ hash plaintext → str_eq (hash token) (hash plaintext) ≡ false
  apart_token token other = elim (Bool-cases (str_eq (hash token) (hash plaintext))) [
    | inl same ↦ absurd (other ((str_eq_iff (hash token) (hash plaintext)).0 same))
    | inr apart ↦ apart
  ]

  serve-IsSpent :
      (r : Request) (db : TeamStore)
      → IsOtherToken r
      → IsSpent db.invites
      → IsSpent (serve hash r db).invites
  unfolding serve create_invite
  serve-IsSpent (change session user body) db other spent =
      rw (change_role-invites session user body db) spent
  serve-IsSpent (remove session user) db other spent =
      rw (remove_member-invites session user db) spent
  serve-IsSpent (invite id token now team role by ttl_ms) db other spent =
      unfold filter in rw (apart_token token other) spent
  serve-IsSpent (accept now token user) db other spent = accept-IsSpent now token user db spent

  serve_all-IsSpent :
      (rs : List Request) (db : TeamStore)
      → All IsOtherToken rs
      → IsSpent db.invites
      → IsSpent (serve_all hash rs db).invites
  unfolding serve_all
  serve_all-IsSpent [] db other spent = spent
  serve_all-IsSpent (r ∷ rs) db other spent =
      serve_all-IsSpent rs (serve hash r db) other.1 (serve-IsSpent r db other.0 spent)

  accepted-IsSpent :
      (now : ℕ) (user : String) (db : TeamStore) (acc : Accepted)
      → length (holds db.invites) ≤ 1
      → (accept_invite hash now plaintext user db).1 ≡ ok acc
      → IsSpent (accept_invite hash now plaintext user db).0.invites
  unfolding accept_invite accept_valid update_where
  accepted-IsSpent now user db acc one h = elim (Option-cases (first (holds db.invites))) [
    | inl missing ↦ absurd (err-ne-ok (rw (missing, accept_invite) at h))
    | inr (row, found) ↦ elim (Option-cases row.used_at) [
      | inr (at, taken) ↦ absurd (err-ne-ok (rw (found, accept_invite, taken) at h))
      | inl unused ↦ elim (Bool-cases (ltb row.expires_at now)) [
        | inl late ↦ absurd (err-ne-ok (rw (found, accept_invite, unused, late) at h))
        | inr on_time ↦
            let only =
              filter_unique (has_token hash plaintext) (has_token hash plaintext) (λ i k. k)
                db.invites row one found in
            let inside =
              filter-update_inside (has_id hash row.id) (mark_used hash now)
                (has_token hash plaintext) (λ i. refl) db.invites in
            rw (found, accept_invite, unused, on_time)
              (rw inside (rw only (rw (str_eq_self row.id) (omega arith, (refl, tt)))))
      ]
    ]
  ]

  spent_refused :
      (now : ℕ) (user : String) (db : TeamStore)
      → IsSpent db.invites
      → accept_invite hash now plaintext user db ≡ (db, err invite_already_used)
  unfolding accept_invite
  spent_refused now user db spent = elim (List-cases (holds db.invites)) [
    | inl nothing ↦ absurd (omega (arith, rw nothing at (spent.0)))
    | inr (row, rest, some_row) ↦
        let taken : is_used row ≡ true = (rw some_row at (spent.1)).0 in
        elim (Option-cases row.used_at) [
          | inl unused ↦ absurd (false-ne-true (rw unused at taken))
          | inr (at, was_used) ↦ rw (some_row, accept_invite, was_used) refl
        ]
  ]

  -- Where at most one invitation has the token's hash: once it was accepted, every later acceptance
  -- of the token, by anyone and at any time, is refused as used and changes nothing, whatever other
  -- requests were served in between, as long as none of them draws a token with the same hash.
  pub accept_invite_once :
      (now later : ℕ) (user other_user : String) (rs : List Request) (db : TeamStore)
      (acc : Accepted)
      → length (filter (has_token hash plaintext) db.invites) ≤ 1
      → All IsOtherToken rs
      → (accept_invite hash now plaintext user db).1 ≡ ok acc
      → accept_invite hash later plaintext other_user
          (serve_all hash rs (accept_invite hash now plaintext user db).0)
        ≡ (serve_all hash rs (accept_invite hash now plaintext user db).0, err invite_already_used)
  accept_invite_once now later user other_user rs db acc one other h =
      spent_refused later other_user
        (serve_all hash rs (accept_invite hash now plaintext user db).0)
        (serve_all-IsSpent rs (accept_invite hash now plaintext user db).0 other
          (accepted-IsSpent now user db acc one h))
