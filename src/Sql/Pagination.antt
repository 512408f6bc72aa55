-- ===== src/Sql/Pagination.antt =====
-- crates/sql/src/pagination.rs. How an `i64` prints is a parameter.
pub mod Semicolon
mod Tests
use dbmcp.Prelude.{
  ℕ, Bytes, codes, List, [], ◌∷◌, ◌++◌, reverse, Option, none, some, ◌==◌, trim_end, if◌then◌else◌,
}

-- `str::strip_suffix` with a character, on the text backwards.
strip_last : ℕ → Bytes → Option Bytes
strip_last c [] = none
strip_last c (d ∷ s) = if d == c then some (reverse s) else none

pub strip_suffix : ℕ → Bytes → Option Bytes
unfolding strip_last
strip_suffix c s = strip_last c (reverse s)

-- `unwrap_or`
unwrap_or : Option Bytes → Bytes → Bytes
unwrap_or none s = s
unwrap_or (some t) s = t

-- The statement without white space and one semicolon behind it.
pub inner_of : Bytes → Bytes
unfolding trim_end strip_suffix unwrap_or
inner_of sql = trim_end (unwrap_or (strip_suffix b';' (trim_end sql)) (trim_end sql))

module _ {I64 : Type 0} (to_string : I64 → Bytes) where
  unfoldable pub with_limit_offset : Bytes → I64 → I64 → Bytes
  unfolding inner_of
  with_limit_offset sql limit offset =
      codes "SELECT * FROM ("
      ++ inner_of sql
      ++ codes "\n) AS paginated LIMIT "
      ++ to_string limit
      ++ codes " OFFSET "
      ++ to_string offset
