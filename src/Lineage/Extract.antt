-- ===== src/Lineage/Extract.antt =====
-- crates/sql-lineage/src/extract.rs, with the extractors of statement.rs. What the parser returns for
-- the text is an argument.
pub mod Places
mod Tests
use dbmcp.Prelude.{Bytes, codes, List, [], ◌∷◌, Option, none, some, Result, ok, err, ◌>>=◌}
use dbmcp.Lineage.Model.{
  LineageError, parse, multi_statement, unknown_table, TableRef, OutputColumn, Lineage,
  from_columns, from_write,
}
use dbmcp.Lineage.Ast.{
  ObjectName, Query, Froms, no_froms, from_item, Rows, no_rows, row, Exprs, no_exprs, expr,
}
use dbmcp.Lineage.Scope.{Scope, physical_tables}
use dbmcp.Lineage.Resolve.{table_ref_from_object_name, resolve}
use dbmcp.Lineage.Statement.{
  Assignment, Insert, CreateTable, Update, Delete, MergeAction, update_set, insert_values,
  other_action, Merge, Statement, query_statement, insert_statement, update_statement,
  delete_statement, create_table, merge_statement, other_statement, sources_of, factor_in, joins_in,
  froms_in, target_table, table_ref_from_table_factor, resolve_assignment, resolve_assignments,
  map_columns, union_column, target_column_names,
}

-- `Lineage::empty`
abbrev pub empty : Lineage
empty = record { columns = []; tables = []; target = none }

-- Without a column list the source's columns stay.
pub mapped : TableRef → List Bytes → List OutputColumn → Result (List OutputColumn) LineageError
unfolding map_columns
mapped target [] source = ok source
mapped target (n ∷ names) source = map_columns target (n ∷ names) source

pub insert_columns :
    TableRef
    → List ObjectName
    → List Assignment
    → Option Query
    → Result (List OutputColumn) LineageError
unfolding mapped target_column_names resolve_assignments resolve
insert_columns target columns assignments (some q) = do
  source ← resolve q
  mapped target (target_column_names columns) source
insert_columns target columns assignments none = resolve_assignments [] [] assignments

-- `extract_insert`
unfoldable pub extract_insert : Insert → Result Lineage LineageError
unfolding target_table insert_columns from_write
extract_insert insert = do
  target ← target_table insert.table_name
  columns ← insert_columns target insert.columns insert.assignments insert.source
  ok (from_write target columns [])

pub created : TableRef → List Bytes → Option Query → Result Lineage LineageError
unfolding mapped from_write resolve
created target names none = ok empty
created target names (some q) = do
  source ← resolve q
  columns ← mapped target names source
  ok (from_write target columns [])

-- `extract_create_table`
unfoldable pub extract_create_table : CreateTable → Result Lineage LineageError
unfolding created table_ref_from_object_name
extract_create_table ct = created (table_ref_from_object_name ct.name) ct.columns ct.source

-- `extract_update`
unfoldable pub extract_update : Update → Result Lineage LineageError
unfolding table_ref_from_table_factor factor_in joins_in froms_in resolve_assignments from_write
extract_update update = do
  target ← table_ref_from_table_factor update.relation
  relation ← factor_in [] update.relation
  joined ← joins_in relation update.joins
  scope ← froms_in joined update.from
  columns ← resolve_assignments scope [] update.assignments
  ok (from_write target columns [])

first_relation : Froms → Result TableRef LineageError
unfolding table_ref_from_table_factor
first_relation no_froms = err (unknown_table (codes "<delete target>"))
first_relation (from_item relation joins froms) = table_ref_from_table_factor relation

pub delete_target : List ObjectName → Froms → Result TableRef LineageError
unfolding table_ref_from_object_name first_relation
delete_target [] from = first_relation from
delete_target (name ∷ names) from = ok (table_ref_from_object_name name)

-- `extract_delete`
unfoldable pub extract_delete : Delete → Result Lineage LineageError
unfolding delete_target froms_in physical_tables from_write
extract_delete delete = do
  target ← delete_target delete.tables delete.from
  scope ← froms_in [] delete.using
  ok (from_write target [] (physical_tables scope))

pub set_columns :
    Scope → List OutputColumn → List Assignment → Result (List OutputColumn) LineageError
unfolding resolve_assignment union_column
set_columns scope columns [] = ok columns
set_columns scope columns (a ∷ assignments) = do
  (name, sources) ← resolve_assignment scope a
  set_columns scope (union_column columns name sources) assignments

-- The zip of the column names with the first row.
pub insert_row :
    Scope → List OutputColumn → List Bytes → Exprs → Result (List OutputColumn) LineageError
unfolding sources_of union_column
insert_row scope columns [] exprs = ok columns
insert_row scope columns (n ∷ names) no_exprs = ok columns
insert_row scope columns (n ∷ names) (expr events exprs) = do
  sources ← sources_of scope events
  insert_row scope (union_column columns n sources) names exprs

pub merge_clause : Scope → List OutputColumn → MergeAction → Result (List OutputColumn) LineageError
unfolding set_columns insert_row target_column_names
merge_clause scope columns (update_set assignments) = set_columns scope columns assignments
merge_clause scope columns (insert_values names no_rows) = ok columns
merge_clause scope columns (insert_values names (row exprs rows)) =
    insert_row scope columns (target_column_names names) exprs
merge_clause scope columns other_action = ok columns

pub merge_clauses :
    Scope → List OutputColumn → List MergeAction → Result (List OutputColumn) LineageError
unfolding merge_clause
merge_clauses scope columns [] = ok columns
merge_clauses scope columns (a ∷ actions) = do
  columns' ← merge_clause scope columns a
  merge_clauses scope columns' actions

-- `extract_merge`
unfoldable pub extract_merge : Merge → Result Lineage LineageError
unfolding table_ref_from_table_factor factor_in merge_clauses from_write
extract_merge merge = do
  target ← table_ref_from_table_factor merge.target_factor
  target_scope ← factor_in [] merge.target_factor
  scope ← factor_in target_scope merge.source_factor
  columns ← merge_clauses scope [] merge.clauses
  ok (from_write target columns [])

pub extract_statement : Statement → Result Lineage LineageError
unfolding extract_insert extract_update extract_delete extract_create_table extract_merge
    from_columns resolve
extract_statement (query_statement q) = do columns ← resolve q; ok (from_columns columns)
extract_statement (insert_statement insert) = extract_insert insert
extract_statement (update_statement update) = extract_update update
extract_statement (delete_statement delete) = extract_delete delete
extract_statement (create_table ct) = extract_create_table ct
extract_statement (merge_statement merge) = extract_merge merge
extract_statement other_statement = ok empty

-- `extract`, for what the parser returns.
unfoldable pub extract : Result (List Statement) Bytes → Result Lineage LineageError
unfolding extract_statement
extract (err e) = err (parse e)
extract (ok []) = ok empty
extract (ok (statement ∷ [])) = extract_statement statement
extract (ok (statement ∷ other ∷ statements)) = err multi_statement
