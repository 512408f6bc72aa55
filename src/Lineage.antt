-- ===== src/Lineage.antt =====
-- crates/sql-lineage
pub mod Model
pub mod Ast
pub mod Scope
pub mod Resolve
pub mod Statement
pub mod Extract
