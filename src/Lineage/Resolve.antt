-- ===== src/Lineage/Resolve.antt =====
-- crates/sql-lineage/src/resolve.rs. The nesting is counted down, from the levels that `MAX_DEPTH`
-- leaves; a function that resolves nested queries takes `resolve_query` of one level less.
pub mod Positions
pub mod Named
pub mod Sources
mod Tests
use dbmcp.Prelude.{
  ℕ, zero, suc, ◌-◌, Bytes, codes, List, [], ◌∷◌, ◌++◌, length, reverse, any, Bool, true, false,
  Option, none, some, Result, ok, err, ◌>>=◌, bytes_eq, if◌then◌else◌,
}
use dbmcp.Lineage.Model.{
  LineageError, unresolved_column, depth_limit_exceeded, circular_reference, TableRef, SourceRef,
  OutputColumn, fold, extend,
}
use dbmcp.Lineage.Ast.{
  ObjectName, ExprKind, identifier, compound_identifier, other_expr, Query, query, Ctes, no_ctes,
  cte, SetExpr, select, nested, set_operation, values, other_body, Froms, no_froms, from_item,
  Joins, no_joins, join, Factor, table, derived, nested_join, other_factor, Items, no_items,
  unnamed, with_alias, wildcard, qualified_wildcard, expr_wildcard, Rows, no_rows, row, Exprs,
  no_exprs, expr, Events, no_events, pre_visit_query, post_visit_query, pre_visit_expr,
}
use dbmcp.Lineage.Scope.{
  VirtCol, RelExpose, physical, virtual, Scope, push, resolve_column, expand_wildcard,
  expand_qualified_wildcard,
}

-- The queries by folded name, the last inserted first.
abbrev pub CteMap : Type 0
CteMap = List (Bytes × Query)

abbrev pub ActiveCtes : Type 0
ActiveCtes = List Bytes

unfoldable pub lookup : CteMap → Bytes → Option Query
unfolding bytes_eq
lookup [] name = none
lookup ((n, q) ∷ ctes) name =
    let rest = lookup ctes name in if bytes_eq n name then some q else rest

unfoldable pub contains : ActiveCtes → Bytes → Bool
unfolding bytes_eq
contains active name = any (λ n. bytes_eq n name) active

-- The loop over `cte_tables`.
unfoldable pub insert_ctes : CteMap → Ctes → CteMap
unfolding fold
insert_ctes map no_ctes = map
insert_ctes map (cte name body more) = insert_ctes ((fold name, body) ∷ map) more

-- `push_column`
unfoldable pub push_column : List OutputColumn → Option Bytes → List SourceRef → List OutputColumn
push_column out name sources =
    out ++ record { name = name; position = length out; sources = sources } ∷ []

-- `push_expanded`
unfoldable pub push_expanded : List OutputColumn → List VirtCol → List OutputColumn
unfolding push_column
push_expanded out [] = out
push_expanded out (c ∷ cs) = push_expanded (push_column out c.name c.sources) cs

-- `virtual_from`
unfoldable pub columns_from : List OutputColumn → List VirtCol
columns_from [] = []
columns_from (c ∷ cs) = record { name = c.name; sources = c.sources } ∷ columns_from cs

identifiers : List (Option Bytes) → List Bytes
identifiers [] = []
identifiers (none ∷ parts) = identifiers parts
identifiers (some i ∷ parts) = i ∷ identifiers parts

pub or_empty : Option Bytes → Bytes
or_empty none = []
or_empty (some s) = s

last_of : List (Option Bytes) → Bytes
unfolding or_empty
last_of [] = []
last_of (p ∷ []) = or_empty p
last_of (p ∷ q ∷ parts) = last_of (q ∷ parts)

-- `last_ident`
unfoldable pub last_ident : ObjectName → Bytes
unfolding last_of
last_ident name = last_of name.parts

-- The last three parts, the last first.
from_parts : Bytes → List Bytes → TableRef
from_parts printed [] = record { database = none; schema = none; name = printed }
from_parts printed (t ∷ []) = record { database = none; schema = none; name = t }
from_parts printed (t ∷ s ∷ []) = record { database = none; schema = some s; name = t }
from_parts printed (t ∷ s ∷ d ∷ rest) = record { database = some d; schema = some s; name = t }

-- `table_ref_from_object_name`
unfoldable pub table_ref_from_object_name : ObjectName → TableRef
unfolding from_parts identifiers
table_ref_from_object_name name = from_parts name.printed (reverse (identifiers name.parts))

last_part : List Bytes → Option Bytes
last_part [] = none
last_part (p ∷ []) = some p
last_part (p ∷ q ∷ parts) = last_part (q ∷ parts)

-- `output_name`
unfoldable pub output_name : ExprKind → Option Bytes
unfolding last_part
output_name (identifier id) = some id
output_name (compound_identifier parts) = last_part parts
output_name other_expr = none

-- The last two parts of a compound identifier, the last first.
pub resolve_parts : Scope → List Bytes → Option (Result (List SourceRef) LineageError)
unfolding resolve_column
resolve_parts scope [] = none
resolve_parts scope (column ∷ []) = some (resolve_column scope none column)
resolve_parts scope (column ∷ qualifier ∷ rest) =
    some (resolve_column scope (some qualifier) column)

-- What `pre_visit_expr` resolves.
unfoldable pub resolved : Scope → ExprKind → Option (Result (List SourceRef) LineageError)
unfolding resolve_parts resolve_column
resolved scope (identifier id) = some (resolve_column scope none id)
resolved scope (compound_identifier parts) = resolve_parts scope (reverse parts)
resolved scope other_expr = none

unfoldable pub found_or :
    List SourceRef
    → Option (Result (List SourceRef) LineageError)
    → Result (List SourceRef) LineageError
unfolding extend
found_or sources none = ok sources
found_or sources (some (err e)) = err e
found_or sources (some (ok found)) = ok (extend sources found)

unfoldable pub extend_columns : List SourceRef → List OutputColumn → List SourceRef
unfolding extend
extend_columns sources [] = sources
extend_columns sources (c ∷ cs) = extend_columns (extend sources c.sources) cs

-- The pairing of a set operation: the left columns with the right ones of the same place.
unfoldable pub paired :
    List OutputColumn → List OutputColumn → List OutputColumn → List OutputColumn
unfolding push_column extend
paired out [] right = out
paired out (l ∷ left) [] = paired (push_column out l.name l.sources) left []
paired out (l ∷ left) (r ∷ right) =
    paired (push_column out l.name (extend l.sources r.sources)) left right

-- `out.get_mut(i)`: the column at the place has more sources, or there is a new one.
unfoldable pub widened : List OutputColumn → ℕ → List SourceRef → List OutputColumn
unfolding extend
widened [] i more = []
widened (c ∷ cs) zero more =
    record { name = c.name; position = c.position; sources = extend c.sources more } ∷ cs
widened (c ∷ cs) (suc i) more = c ∷ widened cs i more

pub has_column : List OutputColumn → ℕ → Bool
has_column [] i = false
has_column (c ∷ cs) zero = true
has_column (c ∷ cs) (suc i) = has_column cs i

unfoldable pub add_value : List OutputColumn → ℕ → List SourceRef → List OutputColumn
unfolding has_column widened push_column
add_value out i sources =
    if has_column out i then widened out i sources else push_column out none sources

module _ (deeper : CteMap → ActiveCtes → Query → Result (List OutputColumn) LineageError) where
  module _ (ctes : CteMap) (active : ActiveCtes) where
    -- The visitor, with its `query_depth` and `sources`.
    unfoldable pub visit :
        Scope → ℕ → List SourceRef → Events → Result (List SourceRef) LineageError
    unfolding extend_columns found_or resolved
    visit scope depth sources no_events = ok sources
    visit scope zero sources (pre_visit_query q events) = do
      columns ← deeper ctes active q
      visit scope 1 (extend_columns sources columns) events
    visit scope (suc depth) sources (pre_visit_query q events) =
        visit scope (suc (suc depth)) sources events
    visit scope depth sources (post_visit_query events) = visit scope (depth - 1) sources events
    visit scope zero sources (pre_visit_expr e events) = do
      sources' ← found_or sources (resolved scope e)
      visit scope zero sources' events
    visit scope (suc depth) sources (pre_visit_expr e events) =
        visit scope (suc depth) sources events

    -- `collect_sources`
    unfoldable pub collect_sources : Scope → Events → Result (List SourceRef) LineageError
    unfolding visit
    collect_sources scope events = visit scope 0 [] events

    pub values_row : List OutputColumn → ℕ → Exprs → Result (List OutputColumn) LineageError
    unfolding collect_sources add_value
    values_row out i no_exprs = ok out
    values_row out i (expr events exprs) = do
      sources ← collect_sources [] events
      values_row (add_value out i sources) (suc i) exprs

    -- `resolve_values`, from the rows so far.
    unfoldable pub resolve_values :
        List OutputColumn → Rows → Result (List OutputColumn) LineageError
    unfolding values_row
    resolve_values out no_rows = ok out
    resolve_values out (row exprs rows) = do out' ← values_row out 0 exprs; resolve_values out' rows

    -- The loop over the projection.
    unfoldable pub project :
        Scope → List OutputColumn → Items → Result (List OutputColumn) LineageError
    unfolding collect_sources push_column push_expanded expand_wildcard expand_qualified_wildcard
        last_ident output_name
    project scope out no_items = ok out
    project scope out (unnamed e events items) = do
      sources ← collect_sources scope events
      project scope (push_column out (output_name e) sources) items
    project scope out (with_alias events alias items) = do
      sources ← collect_sources scope events
      project scope (push_column out alias sources) items
    project scope out (wildcard items) = do
      columns ← expand_wildcard scope
      project scope (push_expanded out columns) items
    project scope out (qualified_wildcard name items) = do
      columns ← expand_qualified_wildcard scope (last_ident name)
      project scope (push_expanded out columns) items
    project scope out (expr_wildcard items) =
        err (
          unresolved_column (codes "*")
            (codes "wildcard on an arbitrary expression is unsupported"))

    pub alias_or : Option Bytes → Bytes → Bytes
    alias_or none name = name
    alias_or (some alias) name = alias

    -- The arm of a table that is a common table expression.
    pub add_cte : Scope → Bytes → Bytes → Query → Result Scope LineageError
    unfolding contains push columns_from fold
    add_cte scope visible last q =
        let resolved_cte : Result Scope LineageError =
          deeper ctes (fold last ∷ active) q >>= λ columns.
          ok (push scope visible (virtual (columns_from columns))) in
        if contains active (fold last) then err (circular_reference last) else resolved_cte

    pub add_table : Scope → ObjectName → Bytes → Option Query → Result Scope LineageError
    unfolding add_cte push table_ref_from_object_name last_ident
    add_table scope name visible none =
        ok (push scope visible (physical (table_ref_from_object_name name)))
    add_table scope name visible (some q) = add_cte scope visible (last_ident name) q

    -- `add_table_factor` and `add_table_with_joins`
    unfoldable mutual
      unfolding add_table lookup last_ident alias_or push columns_from fold or_empty

      pub add_table_factor : Scope → Factor → Result Scope LineageError
      add_table_factor scope (table name alias) =
          add_table scope name (alias_or alias (last_ident name))
            (lookup ctes (fold (last_ident name)))
      add_table_factor scope (derived q alias) = do
        columns ← deeper ctes active q
        ok (push scope (or_empty alias) (virtual (columns_from columns)))
      add_table_factor scope (nested_join relation joins) = do
        scope' ← add_table_factor scope relation
        add_joins scope' joins
      add_table_factor scope other_factor = ok scope

      pub add_joins : Scope → Joins → Result Scope LineageError
      add_joins scope no_joins = ok scope
      add_joins scope (join relation joins) = do
        scope' ← add_table_factor scope relation
        add_joins scope' joins

    -- `build_scope`, from the scope so far.
    unfoldable pub build_scope : Scope → Froms → Result Scope LineageError
    unfolding add_table_factor
    build_scope scope no_froms = ok scope
    build_scope scope (from_item relation joins froms) = do
      scope' ← add_table_factor scope relation
      scope'' ← add_joins scope' joins
      build_scope scope'' froms

    -- `resolve_setexpr`, with `resolve_select` in the arm of a `SELECT`.
    unfoldable pub resolve_setexpr : SetExpr → Result (List OutputColumn) LineageError
    unfolding build_scope project resolve_values paired
    resolve_setexpr (select froms items) = do scope ← build_scope [] froms; project scope [] items
    resolve_setexpr (nested q) = deeper ctes active q
    resolve_setexpr (set_operation left right) = do
      left' ← resolve_setexpr left
      right' ← resolve_setexpr right
      ok (paired [] left' right')
    resolve_setexpr (values rows) = resolve_values [] rows
    resolve_setexpr other_body = ok []

-- `resolve_query`, with the levels that are left: none when the depth is above `MAX_DEPTH`.
unfoldable pub resolve_query :
    ℕ → CteMap → ActiveCtes → Query → Result (List OutputColumn) LineageError
unfolding resolve_setexpr insert_ctes
resolve_query zero parent active q = err depth_limit_exceeded
resolve_query (suc levels) parent active (query with body) =
    resolve_setexpr (resolve_query levels) (insert_ctes parent with) active body

abbrev pub max_depth : ℕ
max_depth = 64

-- `resolve`
unfoldable pub resolve : Query → Result (List OutputColumn) LineageError
unfolding resolve_query
resolve q = resolve_query (suc max_depth) [] [] q
