-- ===== src/Concepts.antt =====
-- Concept pages and what they rest on: db/repositories/concepts-write.ts, concepts-merge.ts and the
-- contract of packages/schema/src/concept.ts.
pub mod Rows
pub mod Contract
pub mod Fingerprint
pub mod Write
pub mod Merge
pub mod Evidence
mod Tests
