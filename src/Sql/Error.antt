-- ===== src/Sql/Error.antt =====
-- crates/sql/src/error.rs. The elapsed seconds of a timeout are the bits of the `f64`.
use dbmcp.Prelude.{ℕ, Bytes}

pub data SqlError : Type 0 where
  read_only_violation load_file_blocked : SqlError
  dangerous_function_blocked : Bytes → SqlError
  into_outfile_blocked multi_statement : SqlError
  invalid_identifier : Bytes → SqlError
  query_timeout : ℕ → Bytes → SqlError
  query connection table_not_found : Bytes → SqlError
