-- ===== src/Config.antt =====
-- crates/config
pub mod Template
pub mod Dotenv
