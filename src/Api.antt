-- ===== src/Api.antt =====
-- api: the cursors of the paged queries.
pub mod Cursors
