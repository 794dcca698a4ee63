-- ===== src/Auth/Scope.antt =====
-- auth/scope.ts: the tagged scope that each scoped query carries. The Zod checks on the form of the
-- identifiers (`teamIdSchema`, `projectIdSchema`) belong to the parsing of requests.
use teamem_server.Prelude.{String}

pub data ScopeContext : Type 0 where
  project : String → String → ScopeContext
  all_projects : String → ScopeContext

abbrev pub get_team_id : ScopeContext → String
get_team_id (project team proj) = team
get_team_id (all_projects team) = team
