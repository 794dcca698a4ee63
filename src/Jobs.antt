-- ===== src/Jobs.antt =====
-- The job repository, apps/server/src/db/repositories/jobs.ts.
pub mod Rows
pub mod Create
pub mod Lifecycle
pub mod RetryRoute
pub mod Enqueue
pub mod Listing
pub mod Tests
pub mod Wait
