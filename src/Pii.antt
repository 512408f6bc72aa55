-- ===== src/Pii.antt =====
-- crates/pii
pub mod Outcome
pub mod Entity
pub mod Category
pub mod Score
pub mod Result
pub mod Validators
pub mod Overlap
pub mod Operators
pub mod Anonymizer
pub mod Words
pub mod Recognizers
pub mod Context
pub mod Analyzer
pub mod Ner
pub mod Redactor
mod Tests
