-- ===== src/Storage.antt =====
-- serialize/storage: what the database keeps.
pub mod Header
pub mod Block
