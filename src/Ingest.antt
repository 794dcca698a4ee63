-- ===== src/Ingest.antt =====
-- Requests that store events and start compilations, src/ingest of the server.
pub mod Events
pub mod One
pub mod Batch
pub mod Compilations
