-- ===== src/Lineage/Model.antt =====
-- crates/sql-lineage/src/model.rs, and the errors of error.rs. A set is a list that gets an element
-- only where no equal one is in it.
use dbmcp.Prelude.{
  ℕ, Bytes, List, [], ◌∷◌, ◌++◌, map, any, Bool, true, false, ◌&&◌, Option, none, some, bytes_eq,
  to_ascii_lowercase, if◌then◌else◌,
}

pub data LineageError : Type 0 where
  parse : Bytes → LineageError
  multi_statement : LineageError
  unresolved_column : Bytes → Bytes → LineageError
  unknown_table : Bytes → LineageError
  depth_limit_exceeded : LineageError
  circular_reference : Bytes → LineageError
  column_count_mismatch : Bytes → ℕ → ℕ → LineageError

unfoldable pub fold : Bytes → Bytes
unfolding to_ascii_lowercase
fold s = map to_ascii_lowercase s

-- Equality of the keys, as of `eq_ignore_ascii_case`.
unfoldable pub name_eq : Bytes → Bytes → Bool
unfolding fold bytes_eq
name_eq s t = bytes_eq (fold s) (fold t)

qualifier_eq : Option Bytes → Option Bytes → Bool
unfolding name_eq
qualifier_eq none none = true
qualifier_eq none (some t) = false
qualifier_eq (some s) none = false
qualifier_eq (some s) (some t) = name_eq s t

pub record TableRef : Type 0 where
  pub database : Option Bytes
  pub schema : Option Bytes
  pub name : Bytes

unfoldable pub table_eq : TableRef → TableRef → Bool
unfolding qualifier_eq name_eq
table_eq a b =
    qualifier_eq a.database b.database && qualifier_eq a.schema b.schema && name_eq a.name b.name

pub record SourceRef : Type 0 where
  pub table : TableRef
  pub column : Bytes

unfoldable pub source_eq : SourceRef → SourceRef → Bool
unfolding table_eq name_eq
source_eq a b = table_eq a.table b.table && name_eq a.column b.column

-- `BTreeSet::insert` and `extend`
unfoldable pub insert : List SourceRef → SourceRef → List SourceRef
unfolding source_eq
insert sources s = if any (λ t. source_eq t s) sources then sources else sources ++ s ∷ []

unfoldable pub extend : List SourceRef → List SourceRef → List SourceRef
unfolding insert
extend sources [] = sources
extend sources (s ∷ more) = extend (insert sources s) more

unfoldable pub insert_table : List TableRef → TableRef → List TableRef
unfolding table_eq
insert_table tables t = if any (λ u. table_eq u t) tables then tables else tables ++ t ∷ []

unfoldable pub extend_tables : List TableRef → List TableRef → List TableRef
unfolding insert_table
extend_tables tables [] = tables
extend_tables tables (t ∷ more) = extend_tables (insert_table tables t) more

pub record OutputColumn : Type 0 where
  pub name : Option Bytes
  pub position : ℕ
  pub sources : List SourceRef

pub record Lineage : Type 0 where
  pub columns : List OutputColumn
  pub tables : List TableRef
  pub target : Option TableRef

-- `tables_of`
unfoldable pub tables_of : List OutputColumn → List TableRef
unfolding extend_tables
tables_of [] = []
tables_of (c ∷ cs) = extend_tables (map (λ s. s.table) c.sources) (tables_of cs)

-- `Lineage::from_columns`
unfoldable pub from_columns : List OutputColumn → Lineage
unfolding tables_of
from_columns columns = record { columns = columns; tables = tables_of columns; target = none }

-- `Lineage::from_write`
unfoldable pub from_write : TableRef → List OutputColumn → List TableRef → Lineage
unfolding tables_of extend_tables
from_write target columns input_tables = record {
  columns = columns;
  tables = extend_tables input_tables (tables_of columns);
  target = some target;
}
