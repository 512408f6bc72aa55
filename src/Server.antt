-- ===== src/Server.antt =====
-- crates/server/src
pub mod Listing
