-- ===== src/Export.antt =====
-- The export of a project's pages, src/export of the server.
pub mod Archive
