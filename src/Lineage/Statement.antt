-- ===== src/Lineage/Statement.antt =====
-- crates/sql-lineage/src/statement.rs: the parts of the extractors.
use dbmcp.Prelude.{
  ℕ, suc, Bytes, codes, List, [], ◌∷◌, map, length, Bool, false, ◌==◌, Option, none, some, Result,
  ok, err, ◌>>=◌, if◌then◌else◌,
}
use dbmcp.Lineage.Model.{
  LineageError, unresolved_column, unknown_table, column_count_mismatch, TableRef, SourceRef,
  OutputColumn, name_eq, extend,
}
use dbmcp.Lineage.Ast.{
  ObjectName, Query, Froms, Joins, Factor, table, derived, nested_join, other_factor, Rows, Events,
}
use dbmcp.Lineage.Scope.{Scope}
use dbmcp.Lineage.Resolve.{
  push_column, last_ident, table_ref_from_object_name, collect_sources, add_table_factor, add_joins,
  build_scope, resolve_query, max_depth,
}

-- A target that is a tuple is `none`.
pub record Assignment : Type 0 where
  pub target : Option ObjectName
  pub value : Events

-- A target that is no table name is `none`.
pub record Insert : Type 0 where
  pub table_name : Option ObjectName
  pub columns : List ObjectName
  pub source : Option Query
  pub assignments : List Assignment

pub record CreateTable : Type 0 where
  pub name : ObjectName
  pub columns : List Bytes
  pub source : Option Query

pub record Update : Type 0 where
  pub relation : Factor
  pub joins : Joins
  pub from : Froms
  pub assignments : List Assignment

pub record Delete : Type 0 where
  pub tables : List ObjectName
  pub from : Froms
  pub using : Froms

pub data MergeAction : Type 0 where
  update_set : List Assignment → MergeAction
  insert_values : List ObjectName → Rows → MergeAction
  other_action : MergeAction

pub record Merge : Type 0 where
  pub target_factor : Factor
  pub source_factor : Factor
  pub clauses : List MergeAction

pub data Statement : Type 0 where
  query_statement : Query → Statement
  insert_statement : Insert → Statement
  update_statement : Update → Statement
  delete_statement : Delete → Statement
  create_table : CreateTable → Statement
  merge_statement : Merge → Statement
  other_statement : Statement

-- The sources of an expression and the relations of a `FROM`, at the depth zero.
unfoldable pub sources_of : Scope → Events → Result (List SourceRef) LineageError
unfolding collect_sources
sources_of scope events = collect_sources (resolve_query max_depth) [] [] scope events

unfoldable pub factor_in : Scope → Factor → Result Scope LineageError
unfolding add_table_factor
factor_in scope factor = add_table_factor (resolve_query max_depth) [] [] scope factor

unfoldable pub joins_in : Scope → Joins → Result Scope LineageError
unfolding add_table_factor
joins_in scope joins = add_joins (resolve_query max_depth) [] [] scope joins

unfoldable pub froms_in : Scope → Froms → Result Scope LineageError
unfolding build_scope
froms_in scope froms = build_scope (resolve_query max_depth) [] [] scope froms

-- `target_table`
unfoldable pub target_table : Option ObjectName → Result TableRef LineageError
unfolding table_ref_from_object_name
target_table none = err (unknown_table (codes "<non-table insert target>"))
target_table (some name) = ok (table_ref_from_object_name name)

-- `table_ref_from_table_factor`
unfoldable pub table_ref_from_table_factor : Factor → Result TableRef LineageError
unfolding table_ref_from_object_name
table_ref_from_table_factor (table name alias) = ok (table_ref_from_object_name name)
table_ref_from_table_factor (derived q alias) = err (unknown_table (codes "<non-table target>"))
table_ref_from_table_factor (nested_join relation joins) =
    err (unknown_table (codes "<non-table target>"))
table_ref_from_table_factor other_factor = err (unknown_table (codes "<non-table target>"))

-- `assignment_target_name`
unfoldable pub assignment_target_name : Option ObjectName → Result Bytes LineageError
unfolding last_ident
assignment_target_name none =
    err (unresolved_column (codes "(tuple)") (codes "tuple assignment unsupported"))
assignment_target_name (some name) = ok (last_ident name)

-- `resolve_assignment`
unfoldable pub resolve_assignment :
    Scope → Assignment → Result (Bytes × List SourceRef) LineageError
unfolding assignment_target_name sources_of
resolve_assignment scope a = do
  name ← assignment_target_name a.target
  sources ← sources_of scope a.value
  ok (name, sources)

-- `resolve_assignments`, from the columns so far.
unfoldable pub resolve_assignments :
    Scope → List OutputColumn → List Assignment → Result (List OutputColumn) LineageError
unfolding resolve_assignment push_column
resolve_assignments scope out [] = ok out
resolve_assignments scope out (a ∷ assignments) = do
  (name, sources) ← resolve_assignment scope a
  resolve_assignments scope (push_column out (some name) sources) assignments

-- The zip of `map_columns`, at the position of the first.
unfoldable pub renamed : ℕ → List OutputColumn → List Bytes → List OutputColumn
renamed i [] names = []
renamed i (c ∷ cs) [] = []
renamed i (c ∷ cs) (n ∷ names) =
    record { name = some n; position = i; sources = c.sources } ∷ renamed (suc i) cs names

-- `map_columns`
unfoldable pub map_columns :
    TableRef → List Bytes → List OutputColumn → Result (List OutputColumn) LineageError
unfolding renamed
map_columns target names source =
    if length names == length source
    then ok (renamed 0 source names)
    else err (column_count_mismatch target.name (length names) (length source))

unfoldable pub has_name : Option Bytes → Bytes → Bool
unfolding name_eq
has_name none n = false
has_name (some e) n = name_eq e n

unfoldable pub kept : OutputColumn → Option (List OutputColumn) → Option (List OutputColumn)
kept c none = none
kept c (some columns) = some (c ∷ columns)

-- The first column of the name has more sources, if there is one.
unfoldable pub merge_into : Bytes → List SourceRef → List OutputColumn → Option (List OutputColumn)
unfolding has_name extend kept
merge_into n sources [] = none
merge_into n sources (c ∷ cs) =
    let merged : OutputColumn = record {
      name = c.name;
      position = c.position;
      sources = extend c.sources sources;
    } in
    let rest = kept c (merge_into n sources cs) in
    if has_name c.name n then some (merged ∷ cs) else rest

unfoldable pub or_pushed :
    List OutputColumn → Bytes → List SourceRef → Option (List OutputColumn) → List OutputColumn
unfolding push_column
or_pushed columns n sources none = push_column columns (some n) sources
or_pushed columns n sources (some merged) = merged

-- `union_column`, for a name.
unfoldable pub union_column : List OutputColumn → Bytes → List SourceRef → List OutputColumn
unfolding merge_into or_pushed
union_column columns n sources = or_pushed columns n sources (merge_into n sources columns)

-- `target_column_names`
unfoldable pub target_column_names : List ObjectName → List Bytes
unfolding last_ident
target_column_names columns = map last_ident columns
