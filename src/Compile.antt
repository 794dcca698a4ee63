-- ===== src/Compile.antt =====
-- The compilation of a job's events into concept pages: queue/worker.ts and compiler/.
pub mod Events
pub mod ToConcept
pub mod Services
pub mod Candidates
pub mod Page
pub mod Run
pub mod Worker
mod Tests
