-- ===== src/Team/Invites/Accept.antt =====
-- About `acceptInvite`, the team, and `lookupInviteByToken`.
use teamem_server.Prelude.{
  ℕ, ◌≤◌, ◌≡◌, ◌⊎◌, refl, sym, ap, subst, ◌∙◌, inl, inr, true, false, some, String, List, [], ◌∷◌,
  Result, ok, err, err-ne-ok, ok-injective, Option-cases, Bool-cases, arith, tests, ltb,
  str_eq_self, length, first, any,
}
use teamem_server.Table.{filter, filter-eq-nil, first-filter_holds}
use teamem_server.Table.Unique.{filter_unique}
use teamem_server.Team.Roles.{TeamRole, Membership, InviteRow, TeamStore, is_of}
use teamem_server.Team.Invites.{
  InviteLookup, valid, expired, used, not_found, InviteError, invite_not_found, invite_already_used,
  invite_expired, Accepted, has_token, insert_membership, membership_of, reported_role,
  accept_valid, accept_invite,
}

-- What the acceptance of an invitation that was judged so comes to.
abbrev pub answer :
    (String → String)
    → ℕ
    → String
    → TeamStore
    → InviteLookup
    → TeamStore × Result InviteError Accepted
answer hash now user db (valid invite) = accept_valid hash now user invite db
answer hash now user db (expired invite) = (db, err invite_expired)
answer hash now user db (used invite) = (db, err invite_already_used)
answer hash now user db not_found = (db, err invite_not_found)

module _ (hash : String → String) where
  abbrev rows_of : String → String → TeamStore → List Membership
  rows_of user team db = filter (is_of user team) db.memberships

  -- The membership that an acceptance reports is stored, and the only one of the user in the team.
  abbrev pub Stored : String → TeamStore → TeamStore → Accepted → Type 0
  Stored user db after acc =
      (rows_of user acc.membership.team_id after ≡ acc.membership ∷ [])
      × (((rows_of user acc.membership.team_id db ≡ []) × (acc.membership.role ≡ acc.target_role))
          ⊎ (rows_of user acc.membership.team_id db ≡ acc.membership ∷ []))

  any-none :
      (user team : String) (ms : List Membership)
      → filter (is_of user team) ms ≡ []
      → any (is_of user team) ms ≡ false
  unfolding filter
  any-none user team [] h = refl
  any-none user team (m ∷ ms) h = ground (arith, any-none user team ms)

  any-some :
      (user team : String) (ms : List Membership) (m : Membership)
      → first (filter (is_of user team) ms) ≡ some m
      → any (is_of user team) ms ≡ true
  unfolding filter
  any-some user team [] m h = absurd (cc)
  any-some user team (n ∷ ms) m h = ground (arith, any-some user team ms m)

  abbrev with_key : String → String → TeamRole → Membership
  with_key user team role = record { user_id = user; team_id = team; role = role }

  inserted_new :
      (user : String) (row : InviteRow) (ms : List Membership)
      → filter (is_of user row.team_id) ms ≡ []
      → filter (is_of user row.team_id) (insert_membership hash (membership_of hash user row) ms)
        ≡ membership_of hash user row ∷ []
  unfolding filter
  inserted_new user row ms nobody = rw (any-none user row.team_id ms nobody) (
      rw (str_eq_self user, str_eq_self row.team_id)
        (ap (λ (l : List Membership). membership_of hash user row ∷ l) nobody))

  kept_old :
      (user : String) (row : InviteRow) (ms : List Membership) (m : Membership)
      → first (filter (is_of user row.team_id) ms) ≡ some m
      → insert_membership hash (membership_of hash user row) ms ≡ ms
  kept_old user row ms m found = rw (any-some user row.team_id ms m found) refl

  keyed :
      (user team : String) (m : Membership) (ms : List Membership)
      → first (filter (is_of user team) ms) ≡ some m
      → m ≡ with_key user team m.role
  keyed user team m ms found =
      let hit = first-filter_holds (is_of user team) ms m found in
      let same_user : m.user_id ≡ user = grind (tests, hit) in
      let same_team : m.team_id ≡ team = grind (tests, hit) in
      λ i. with_key (same_user i) (same_team i) m.role

  abbrev accepted_by : ℕ → String → InviteRow → TeamStore → Accepted
  accepted_by now user row db = record {
    membership = record {
      user_id = user;
      team_id = row.team_id;
      role = reported_role hash user row db.memberships;
    };
    invite_id = row.id;
    target_role = row.target_role;
    invited_by_user_id = row.invited_by_user_id;
    used_at = now;
  }

  accept_valid-Stored :
      (now : ℕ) (user : String) (row : InviteRow) (db : TeamStore)
      → length (filter (is_of user row.team_id) db.memberships) ≤ 1
      → Stored user db (accept_valid hash now user row db).0 (accepted_by now user row db)
  unfolding accept_valid
  accept_valid-Stored now user row db one =
      elim (Option-cases (first (filter (is_of user row.team_id) db.memberships))) [
        | inl missing ↦
            let nobody = filter-eq-nil (is_of user row.team_id) db.memberships missing in
            let new_role : reported_role hash user row db.memberships ≡ row.target_role =
              rw (missing, reported_role) refl in
            (
              inserted_new user row db.memberships nobody
                  ∙ ap (λ (r : TeamRole). with_key user row.team_id r ∷ []) (sym new_role),
              inl (nobody, new_role),
            )
        | inr (m, found) ↦
            let only =
              filter_unique (is_of user row.team_id) (is_of user row.team_id) (λ n k. k)
                db.memberships m one found in
            let old_role : m.role ≡ reported_role hash user row db.memberships =
              rw (found, reported_role) refl in
            let same =
              keyed user row.team_id m db.memberships found
              ∙ ap (λ (r : TeamRole). with_key user row.team_id r) old_role in
            let stored = only ∙ ap (λ (n : Membership). n ∷ []) same in
            (
              ap (filter (is_of user row.team_id)) (kept_old user row db.memberships m found)
                  ∙ stored,
              inr stored,
            )
      ]

  -- Where the user has at most one membership in each team and an acceptance succeeds: the
  -- membership that it reports is then the only one of the user in that team, and before, either
  -- the user had none there and the reported role is the invitation's, or the user had this same
  -- one, its role neither raised nor lowered.
  pub accept_invite-Stored :
      (now : ℕ) (plaintext user : String) (db : TeamStore) (acc : Accepted)
      → ((team : String) → length (filter (is_of user team) db.memberships) ≤ 1)
      → (accept_invite hash now plaintext user db).1 ≡ ok acc
      → Stored user db (accept_invite hash now plaintext user db).0 acc
  unfolding accept_invite
  accept_invite-Stored now plaintext user db acc single h =
      elim (Option-cases (first (filter (has_token hash plaintext) db.invites))) [
        | inl missing ↦ absurd (err-ne-ok (rw (missing, accept_invite) at h))
        | inr (row, found) ↦ elim (Option-cases row.used_at) [
          | inr (at, taken) ↦ absurd (err-ne-ok (rw (found, accept_invite, taken) at h))
          | inl unused ↦ elim (Bool-cases (ltb row.expires_at now)) [
            | inl late ↦ absurd (err-ne-ok (rw (found, accept_invite, unused, late) at h))
            | inr on_time ↦
                let same : accepted_by now user row db ≡ acc =
                  unfold accept_valid in
                  ok-injective (rw (found, accept_invite, unused, on_time) at h) in
                rw (found, accept_invite, unused, on_time)
                  (subst (Stored user db (accept_valid hash now user row db).0) same
                    (accept_valid-Stored now user row db (single row.team_id)))
          ]
        ]
      ]
