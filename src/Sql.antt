-- ===== src/Sql.antt =====
-- crates/sql
pub mod Error
pub mod Sanitize
pub mod Functions
pub mod Validation
pub mod Pagination
