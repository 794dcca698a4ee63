-- ===== src/Team.antt =====
-- Who is in a team and with which role: auth/rbac.ts, http/routes/members.ts, auth/invites.ts.
pub mod Roles
pub mod Members
pub mod Invites
pub mod Requests
mod Tests
