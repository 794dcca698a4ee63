-- ===== src/Auth.antt =====
-- The scopes of callers, apps/server/src/auth/scope.ts.
pub mod Scope
