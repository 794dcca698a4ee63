-- ===== src/Team/Members.antt =====
-- The two routes of http/routes/members.ts that change a team. Two arguments, functions on the store,
-- stand for what other requests commit between the statements of one.
pub mod Owners
use teamem_server.Prelude.{
  ℕ, leb, Bool, true, false, not, ◌&&◌, Option, none, some, String, List, [], ◌∷◌, Result, ok, err,
  then_do, str_eq, length, first, any, if◌then◌else◌,
}
use teamem_server.Table.{filter, update_where, delete_where}
use teamem_server.Team.Roles.{
  TeamRole, owner, role_eq, HttpError, forbidden, not_found, invalid_request, conflict, UserRow,
  Membership, TeamStore, is_of, is_owner_in,
}

-- What the middleware leaves in the context.
pub record Session : Type 0 where
  pub user_id : String
  pub team_id : Option String
  pub role : TeamRole

-- The answer of a route: the member, and for a change the role that it has now.
pub record MemberReply : Type 0 where
  pub user_id : String
  pub role : Option TeamRole
  pub github_login : String

pub record Target : Type 0 where
  pub current_role : TeamRole
  pub github_login : String

abbrev pub Route : Type 0
Route = TeamStore × Result HttpError MemberReply

-- SELECT m.role, u.github_login FROM memberships m JOIN users u … : the first row of the join.
unfoldable pub joined : List UserRow → List Membership → Option Target
unfolding filter
joined users [] = none
joined users (m ∷ ms) =
    let rest = joined users ms in
    elim (first (filter (λ (u : UserRow). str_eq u.id m.user_id) users)) [
      | none ↦ rest
      | some u ↦ some (record { current_role = m.role; github_login = u.github_login })
    ]

unfoldable pub find_target : String → String → TeamStore → Option Target
unfolding filter joined
find_target user team db = joined db.users (filter (is_of user team) db.memberships)

-- SELECT COUNT(*) … WHERE team_id = $1 AND role = 'owner'
unfoldable pub owner_count : String → TeamStore → ℕ
unfolding filter
owner_count team db = length (filter (is_owner_in team) db.memberships)

abbrev pub with_role : TeamRole → Membership → Membership
with_role new_role m = record m { role = new_role }

abbrev pub set_role : String → String → TeamRole → TeamStore → TeamStore
set_role user team new_role db = record db {
  memberships = update_where (is_of user team) (with_role new_role) db.memberships;
}

abbrev pub remove_row : String → String → TeamStore → TeamStore
remove_row user team db = record db { memberships = delete_where (is_of user team) db.memberships }

-- `requireOwner`, and the session's team and the path's user, which both routes ask for.
unfoldable pub route_scope : Session → String → Result HttpError String
route_scope session target =
    if not (role_eq session.role owner) then err forbidden else (elim session.team_id [
      | none ↦ err (not_found "Team not found")
      | some team ↦
          if str_eq team ""
          then err (not_found "Team not found")
          else if str_eq target ""
          then err (invalid_request "Missing userId parameter")
          else ok team
    ])

-- The store at the UPDATE or the DELETE: only an owner's row is counted first.
abbrev pub at_write :
    (TeamStore → TeamStore) → (TeamStore → TeamStore) → Target → TeamStore → TeamStore
at_write before_count before_write target db =
    before_write (if role_eq target.current_role owner then before_count db else db)

module _ (before_count before_write : TeamStore → TeamStore) where
  -- The end of the PATCH route, on the member's row as it was selected.
  unfoldable pub apply_role : String → String → TeamRole → Target → TeamStore → Route
  unfolding owner_count update_where
  apply_role user team new_role target db =
      let reply : MemberReply = record {
        user_id = user;
        role = some new_role;
        github_login = target.github_login;
      } in
      if role_eq target.current_role new_role
      then (db, ok reply)
      else if role_eq target.current_role owner && leb (owner_count team (before_count db)) 1
      then (before_count db, err (conflict "Cannot change role of the last owner"))
      else (set_role user team new_role (at_write before_count before_write target db), ok reply)

  -- PATCH /v1/members/:userId, on the role that the body parses to, where it does.
  unfoldable pub change_role : Session → String → Option TeamRole → TeamStore → Route
  unfolding route_scope find_target apply_role
  change_role session user body db = elim (route_scope session user) [
    | err e ↦ (db, err e)
    | ok team ↦ elim body [
      | none ↦ (db, err (invalid_request "Invalid request body"))
      | some new_role ↦ elim (find_target user team db) [
        | none ↦ (db, err (not_found "Member not found"))
        | some target ↦ apply_role user team new_role target db
      ]
    ]
  ]

  unfoldable pub apply_removal : String → String → Target → TeamStore → Route
  unfolding owner_count delete_where
  apply_removal user team target db =
      if role_eq target.current_role owner && leb (owner_count team (before_count db)) 1
      then (before_count db, err (conflict "Cannot remove the last owner"))
      else (
        remove_row user team (at_write before_count before_write target db),
        ok (record { user_id = user; role = none; github_login = target.github_login }),
      )

  -- DELETE /v1/members/:userId
  unfoldable pub remove_member : Session → String → TeamStore → Route
  unfolding route_scope find_target apply_removal
  remove_member session user db = elim (route_scope session user) [
    | err e ↦ (db, err e)
    | ok team ↦ elim (find_target user team db) [
      | none ↦ (db, err (not_found "Member not found"))
      | some target ↦ apply_removal user team target db
    ]
  ]
