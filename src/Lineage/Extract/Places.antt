-- ===== src/Lineage/Extract/Places.antt =====
-- crates/sql-lineage/src/extract.rs and statement.rs: the positions of the columns.
use dbmcp.Prelude.{
  ℕ, suc, ◌≡◌, refl, Bytes, List, [], ◌∷◌, length, Bool-cases, inl, inr, Option, none, some, Result,
  ok, err, ◌>>=◌, ◌==◌, Returns, bind-Returns, subst,
}
use dbmcp.Lineage.Model.{TableRef, SourceRef, OutputColumn, Lineage, from_columns, from_write}
use dbmcp.Lineage.Ast.{ObjectName, Query, no_rows, row, Exprs, no_exprs, expr}
use dbmcp.Lineage.Scope.{Scope, physical_tables}
use dbmcp.Lineage.Resolve.{push_column, resolve}
use dbmcp.Lineage.Resolve.Positions.{
  Placed, push_column-Placed, Any, Any-Returns, resolve_query-Placed,
}
use dbmcp.Lineage.Statement.{
  Assignment, MergeAction, update_set, insert_values, other_action, Statement, query_statement,
  insert_statement, update_statement, delete_statement, create_table, merge_statement,
  other_statement, sources_of, factor_in, joins_in, froms_in, target_table,
  table_ref_from_table_factor, resolve_assignment, resolve_assignments, renamed, map_columns,
  has_name, kept, merge_into, or_pushed, union_column, target_column_names,
}
use dbmcp.Lineage.Extract.{
  mapped, insert_columns, delete_target, extract_insert, created, extract_create_table,
  extract_update, extract_delete, set_columns, insert_row, merge_clause, merge_clauses,
  extract_merge, extract_statement, extract,
}

resolve-Returns : (q : Query) → Returns (Placed 0) (resolve q)
unfolding resolve
resolve-Returns q = resolve_query-Placed 65 [] [] q

resolve_assignments-Placed :
    (scope : Scope) (out : List OutputColumn) (assignments : List Assignment)
    → Placed 0 out
    → Returns (Placed 0) (resolve_assignments scope out assignments)
unfolding resolve_assignments
resolve_assignments-Placed scope out [] h = h
resolve_assignments-Placed scope out (a ∷ assignments) h =
    bind-Returns Any (Placed 0) (resolve_assignment scope a) _ (Any-Returns _) (λ (name, sources) _.
      resolve_assignments-Placed scope (push_column out (some name) sources) assignments
        (push_column-Placed out (some name) sources h))

renamed-Placed :
    (i : ℕ) (cs : List OutputColumn) (names : List Bytes) → Placed i (renamed i cs names)
unfolding renamed Placed
renamed-Placed i [] names = tt
renamed-Placed i (c ∷ cs) [] = tt
renamed-Placed i (c ∷ cs) (n ∷ names) = (refl, renamed-Placed (suc i) cs names)

mapped-Placed :
    (target : TableRef) (names : List Bytes) (source : List OutputColumn)
    → Placed 0 source
    → Returns (Placed 0) (mapped target names source)
unfolding mapped map_columns
mapped-Placed target [] source h = h
mapped-Placed target (n ∷ names) source h =
    elim (Bool-cases (length (n ∷ names) == length source)) [
      | inl e ↦ rw e (renamed-Placed 0 source (n ∷ names))
      | inr e ↦ rw e tt
    ]

-- Merging keeps the positions.
Merged : ℕ → Option (List OutputColumn) → Type 0
Merged n none = Unit
Merged n (some columns) = Placed n columns

kept-Merged :
    (n : ℕ) (c : OutputColumn) (o : Option (List OutputColumn))
    → c.position ≡ n
    → Merged (suc n) o
    → Merged n (kept c o)
unfolding Merged kept Placed
kept-Merged n c none e h = tt
kept-Merged n c (some columns) e h = (e, h)

merge_into-Merged :
    (n : ℕ) (name : Bytes) (sources : List SourceRef) (cs : List OutputColumn)
    → Placed n cs
    → Merged n (merge_into name sources cs)
unfolding Merged merge_into Placed
merge_into-Merged n name sources [] h = tt
merge_into-Merged n name sources (c ∷ cs) (h, hs) = elim (Bool-cases (has_name c.name name)) [
  | inl e ↦ rw e (h, hs)
  | inr e ↦ rw e (
      kept-Merged n c (merge_into name sources cs) h (merge_into-Merged (suc n) name sources cs hs))
]

or_pushed-Placed :
    (columns : List OutputColumn) (name : Bytes) (sources : List SourceRef)
    (o : Option (List OutputColumn))
    → Placed 0 columns
    → Merged 0 o
    → Placed 0 (or_pushed columns name sources o)
unfolding or_pushed Merged
or_pushed-Placed columns name sources none h k = push_column-Placed columns (some name) sources h
or_pushed-Placed columns name sources (some merged) h k = k

union_column-Placed :
    (columns : List OutputColumn) (name : Bytes) (sources : List SourceRef)
    → Placed 0 columns
    → Placed 0 (union_column columns name sources)
unfolding union_column
union_column-Placed columns name sources h =
    or_pushed-Placed columns name sources _ h (merge_into-Merged 0 name sources columns h)

set_columns-Placed :
    (scope : Scope) (columns : List OutputColumn) (assignments : List Assignment)
    → Placed 0 columns
    → Returns (Placed 0) (set_columns scope columns assignments)
unfolding set_columns
set_columns-Placed scope columns [] h = h
set_columns-Placed scope columns (a ∷ assignments) h =
    bind-Returns Any (Placed 0) (resolve_assignment scope a) _ (Any-Returns _) (λ (name, sources) _.
      set_columns-Placed scope (union_column columns name sources) assignments
        (union_column-Placed columns name sources h))

insert_row-Placed :
    (scope : Scope) (columns : List OutputColumn) (names : List Bytes) (exprs : Exprs)
    → Placed 0 columns
    → Returns (Placed 0) (insert_row scope columns names exprs)
unfolding insert_row
insert_row-Placed scope columns [] exprs h = h
insert_row-Placed scope columns (n ∷ names) no_exprs h = h
insert_row-Placed scope columns (n ∷ names) (expr events exprs) h =
    bind-Returns Any (Placed 0) (sources_of scope events) _ (Any-Returns _) (λ sources _.
      insert_row-Placed scope (union_column columns n sources) names exprs
        (union_column-Placed columns n sources h))

merge_clause-Placed :
    (scope : Scope) (columns : List OutputColumn) (action : MergeAction)
    → Placed 0 columns
    → Returns (Placed 0) (merge_clause scope columns action)
unfolding merge_clause
merge_clause-Placed scope columns (update_set assignments) h =
    set_columns-Placed scope columns assignments h
merge_clause-Placed scope columns (insert_values names no_rows) h = h
merge_clause-Placed scope columns (insert_values names (row exprs rows)) h =
    insert_row-Placed scope columns (target_column_names names) exprs h
merge_clause-Placed scope columns other_action h = h

merge_clauses-Placed :
    (scope : Scope) (columns : List OutputColumn) (actions : List MergeAction)
    → Placed 0 columns
    → Returns (Placed 0) (merge_clauses scope columns actions)
unfolding merge_clauses
merge_clauses-Placed scope columns [] h = h
merge_clauses-Placed scope columns (a ∷ actions) h =
    bind-Returns (Placed 0) (Placed 0) (merge_clause scope columns a) _
      (merge_clause-Placed scope columns a h)
      (λ columns' k. merge_clauses-Placed scope columns' actions k)

insert_columns-Placed :
    (target : TableRef) (columns : List ObjectName) (assignments : List Assignment)
    (source : Option Query)
    → Returns (Placed 0) (insert_columns target columns assignments source)
unfolding insert_columns Placed
insert_columns-Placed target columns assignments (some q) =
    bind-Returns (Placed 0) (Placed 0) (resolve q) _ (resolve-Returns q)
      (λ source h. mapped-Placed target (target_column_names columns) source h)
insert_columns-Placed target columns assignments none =
    resolve_assignments-Placed [] [] assignments tt

abbrev AllPlaced : Lineage → Type 0
AllPlaced lineage = Placed 0 lineage.columns

created-Placed :
    (target : TableRef) (names : List Bytes) (source : Option Query)
    → Returns AllPlaced (created target names source)
unfolding created from_write Placed
created-Placed target names none = tt
created-Placed target names (some q) =
    bind-Returns (Placed 0) AllPlaced (resolve q) _ (resolve-Returns q) (λ source h.
      bind-Returns (Placed 0) AllPlaced (mapped target names source) _
        (mapped-Placed target names source h) (λ columns k. k))

statement-Placed : (statement : Statement) → Returns AllPlaced (extract_statement statement)
unfolding extract_statement extract_insert extract_update extract_delete extract_create_table
    extract_merge from_columns from_write Placed
statement-Placed (query_statement q) =
    bind-Returns (Placed 0) AllPlaced (resolve q) _ (resolve-Returns q) (λ columns h. h)
statement-Placed (insert_statement insert) =
    bind-Returns Any AllPlaced (target_table insert.table_name) _ (Any-Returns _) (λ target _.
      bind-Returns (Placed 0) AllPlaced
        (insert_columns target insert.columns insert.assignments insert.source) _
        (insert_columns-Placed target insert.columns insert.assignments insert.source)
        (λ columns h. h))
statement-Placed (update_statement update) =
    bind-Returns Any AllPlaced (table_ref_from_table_factor update.relation) _ (Any-Returns _)
      (λ target _.
        bind-Returns Any AllPlaced (factor_in [] update.relation) _ (Any-Returns _) (λ relation _.
          bind-Returns Any AllPlaced (joins_in relation update.joins) _ (Any-Returns _) (λ joined _.
            bind-Returns Any AllPlaced (froms_in joined update.from) _ (Any-Returns _) (λ scope _.
              bind-Returns (Placed 0) AllPlaced (resolve_assignments scope [] update.assignments) _
                (resolve_assignments-Placed scope [] update.assignments tt) (λ columns h. h)))))
statement-Placed (delete_statement delete) =
    bind-Returns Any AllPlaced (delete_target delete.tables delete.from)
      (λ target.
        froms_in [] delete.using >>= λ scope. ok (from_write target [] (physical_tables scope)))
      (Any-Returns _)
      (λ target _.
        bind-Returns Any AllPlaced (froms_in [] delete.using)
          (λ scope. ok (from_write target [] (physical_tables scope))) (Any-Returns _)
          (λ scope _. tt))
statement-Placed (create_table ct) = created-Placed _ ct.columns ct.source
statement-Placed (merge_statement merge) =
    bind-Returns Any AllPlaced (table_ref_from_table_factor merge.target_factor) _ (Any-Returns _)
      (λ target _.
        bind-Returns Any AllPlaced (factor_in [] merge.target_factor) _ (Any-Returns _)
          (λ target_scope _.
            bind-Returns Any AllPlaced (factor_in target_scope merge.source_factor) _
              (Any-Returns _)
              (λ scope _.
                bind-Returns (Placed 0) AllPlaced (merge_clauses scope [] merge.clauses) _
                  (merge_clauses-Placed scope [] merge.clauses tt) (λ columns h. h))))
statement-Placed other_statement = tt

parsed-Placed : (parsed : Result (List Statement) Bytes) → Returns AllPlaced (extract parsed)
unfolding extract Placed
parsed-Placed (err e) = tt
parsed-Placed (ok []) = tt
parsed-Placed (ok (statement ∷ [])) = statement-Placed statement
parsed-Placed (ok (statement ∷ other ∷ statements)) = tt

-- Whatever the statement is, the columns of its lineage stand at the positions from zero up.
pub extract-Placed :
    (parsed : Result (List Statement) Bytes) (lineage : Lineage)
    → extract parsed ≡ ok lineage
    → Placed 0 lineage.columns
extract-Placed parsed lineage e = subst (Returns AllPlaced) e (parsed-Placed parsed)
