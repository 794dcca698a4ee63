-- ===== src/Team/Roles.antt =====
-- The ladder of roles, auth/rbac.ts, and the tables `users`, `memberships` and `invites` of
-- db/schema.ts.
use teamem_server.Prelude.{
  ℕ, leb, ◌==◌, Bool, ◌&&◌, Option, none, some, String, List, Result, ok, err, str_eq,
  if◌then◌else◌,
}

pub data TeamRole : Type 0 where
  viewer member admin owner : TeamRole

-- `roleRank`
abbrev pub role_rank : TeamRole → ℕ
role_rank viewer = 0
role_rank member = 1
role_rank admin = 2
role_rank owner = 3

abbrev pub role_eq : TeamRole → TeamRole → Bool
role_eq a b = role_rank a == role_rank b

-- `checkRole`
abbrev pub check_role : TeamRole → TeamRole → Bool
check_role user_role min_role = leb (role_rank min_role) (role_rank user_role)

-- The errors of http/errors.ts that the routes throw.
pub data HttpError : Type 0 where
  unauthorized forbidden : HttpError
  not_found invalid_request conflict : String → HttpError

-- `requireRole`, on the session of the request, where there is one.
unfoldable pub require_role : TeamRole → Option TeamRole → Result HttpError (Unit {0})
require_role min_role none = err unauthorized
require_role min_role (some role) = if check_role role min_role then ok tt else err forbidden

pub record UserRow : Type 0 where
  pub id : String
  pub github_login : String

pub record Membership : Type 0 where
  pub user_id : String
  pub team_id : String
  pub role : TeamRole

pub record InviteRow : Type 0 where
  pub id : String
  pub team_id : String
  pub token_hash : String
  pub target_role : TeamRole
  pub invited_by_user_id : String
  pub expires_at : ℕ
  pub used_at : Option ℕ
  pub created_at : ℕ

pub record TeamStore : Type 0 where
  pub users : List UserRow
  pub memberships : List Membership
  pub invites : List InviteRow

-- The primary key of `memberships`.
abbrev pub is_of : String → String → Membership → Bool
is_of user team m = str_eq m.user_id user && str_eq m.team_id team

abbrev pub is_owner_in : String → Membership → Bool
is_owner_in team m = str_eq m.team_id team && role_eq m.role owner
