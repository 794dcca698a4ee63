-- ===== src/Team/Invites.antt =====
-- auth/invites.ts. The hash of a token is the argument `hash`; a token and an id are drawn by the
-- caller's randomness.
pub mod Accept
use teamem_server.Prelude.{
  ℕ, ◌+◌, Bool, true, false, Option, none, some, String, List, [], ◌∷◌, Result, ok, err, ltb,
  str_eq, first, any, if◌then◌else◌,
}
use teamem_server.Table.{filter, update_where}
use teamem_server.Team.Roles.{TeamRole, Membership, InviteRow, TeamStore, is_of}

-- `CreatedInvite`
pub record CreatedInvite : Type 0 where
  pub id : String
  pub plaintext : String
  pub target_role : TeamRole
  pub expires_at : ℕ

-- `InviteLookupResult`
pub data InviteLookup : Type 0 where
  valid expired used : InviteRow → InviteLookup
  not_found : InviteLookup

-- The domain errors of the module.
pub data InviteError : Type 0 where
  invite_not_found invite_already_used invite_expired : InviteError

-- `AcceptInviteResult`
pub record Accepted : Type 0 where
  pub membership : Membership
  pub invite_id : String
  pub target_role : TeamRole
  pub invited_by_user_id : String
  pub used_at : ℕ

module _ (hash : String → String) where
  abbrev pub has_token : String → InviteRow → Bool
  has_token plaintext i = str_eq i.token_hash (hash plaintext)

  unfoldable pub create_invite :
      String → String → ℕ → String → TeamRole → String → ℕ → TeamStore → TeamStore × CreatedInvite
  create_invite id plaintext now team target_role by ttl_ms db = (
    record db {
      invites =
          record {
            id = id;
            team_id = team;
            token_hash = hash plaintext;
            target_role = target_role;
            invited_by_user_id = by;
            expires_at = now + ttl_ms;
            used_at = none;
            created_at = now;
          }
          ∷ db.invites;
    },
    record { id = id; plaintext = plaintext; target_role = target_role; expires_at = now + ttl_ms },
  )

  abbrev pub judged : ℕ → InviteRow → InviteLookup
  judged now invite = elim invite.used_at [
    | some t ↦ used invite
    | none ↦ if ltb invite.expires_at now then expired invite else valid invite
  ]

  -- `lookupInviteByToken`
  unfoldable pub lookup_invite_by_token : ℕ → String → TeamStore → InviteLookup
  unfolding filter
  lookup_invite_by_token now plaintext db = elim (first (filter (has_token plaintext) db.invites)) [
    | none ↦ not_found
    | some invite ↦ judged now invite
  ]

  -- INSERT INTO memberships … ON CONFLICT (user_id, team_id) DO NOTHING
  abbrev pub insert_membership : Membership → List Membership → List Membership
  insert_membership new ms = if any (is_of new.user_id new.team_id) ms then ms else new ∷ ms

  abbrev pub has_id : String → InviteRow → Bool
  has_id id i = str_eq i.id id

  abbrev pub mark_used : ℕ → InviteRow → InviteRow
  mark_used now i = record i { used_at = some now }

  abbrev pub membership_of : String → InviteRow → Membership
  membership_of user invite = record {
    user_id = user;
    team_id = invite.team_id;
    role = invite.target_role;
  }

  -- The role that is reported: the target role for a new member, and what the second SELECT finds
  -- for one that was a member before.
  abbrev pub reported_role : String → InviteRow → List Membership → TeamRole
  reported_role user invite before = elim (first (filter (is_of user invite.team_id) before)) [
    | none ↦ invite.target_role
    | some m ↦ m.role
  ]

  -- The steps of the transaction after the row is locked and found good. No other request commits
  -- between the COMMIT and the last SELECT.
  unfoldable pub accept_valid :
      ℕ → String → InviteRow → TeamStore → TeamStore × Result InviteError Accepted
  unfolding filter update_where
  accept_valid now user invite db = (
    record db {
      memberships = insert_membership (membership_of user invite) db.memberships;
      invites = update_where (has_id invite.id) (mark_used now) db.invites;
    },
    ok (record {
      membership = record {
        user_id = user;
        team_id = invite.team_id;
        role = reported_role user invite db.memberships;
      };
      invite_id = invite.id;
      target_role = invite.target_role;
      invited_by_user_id = invite.invited_by_user_id;
      used_at = now;
    }),
  )

  abbrev pub accept_row :
      ℕ → String → InviteRow → TeamStore → TeamStore × Result InviteError Accepted
  accept_row now user invite db = elim invite.used_at [
    | some t ↦ (db, err invite_already_used)
    | none ↦
        if ltb invite.expires_at now
        then (db, err invite_expired)
        else accept_valid now user invite db
  ]

  -- `acceptInvite`
  unfoldable pub accept_invite :
      ℕ → String → String → TeamStore → TeamStore × Result InviteError Accepted
  unfolding filter accept_valid
  accept_invite now plaintext user db = elim (first (filter (has_token plaintext) db.invites)) [
    | none ↦ (db, err invite_not_found)
    | some invite ↦ accept_row now user invite db
  ]
