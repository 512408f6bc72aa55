-- ===== src/Lineage/Scope.antt =====
-- crates/sql-lineage/src/scope.rs
use dbmcp.Prelude.{
  Bytes, codes, List, [], ◌∷◌, ◌++◌, Bool, true, false, Option, none, some, Result, ok, err, ◌>>=◌,
  if◌then◌else◌,
}
use dbmcp.Lineage.Model.{
  LineageError, unresolved_column, unknown_table, TableRef, SourceRef, name_eq, insert_table,
}

pub record VirtCol : Type 0 where
  pub name : Option Bytes
  pub sources : List SourceRef

pub data RelExpose : Type 0 where
  physical : TableRef → RelExpose
  virtual : List VirtCol → RelExpose

pub record Relation : Type 0 where
  pub visible : Bytes
  pub expose : RelExpose

-- The relations, in `FROM`/`JOIN` order.
abbrev pub Scope : Type 0
Scope = List Relation

-- `Scope::push`
unfoldable pub push : Scope → Bytes → RelExpose → Scope
push scope visible expose = scope ++ record { visible = visible; expose = expose } ∷ []

add_physical : RelExpose → List TableRef → List TableRef
unfolding insert_table
add_physical (physical table) tables = insert_table tables table
add_physical (virtual columns) tables = tables

-- `Scope::physical_tables`
unfoldable pub physical_tables : Scope → List TableRef
unfolding add_physical
physical_tables [] = []
physical_tables (r ∷ rs) = add_physical r.expose (physical_tables rs)

unfoldable pub named : Option Bytes → Bytes → Bool
unfolding name_eq
named none name = false
named (some n) name = name_eq n name

-- `find_virtual_column`
unfoldable pub find_virtual_column : List VirtCol → Bytes → Option VirtCol
unfolding named
find_virtual_column [] name = none
find_virtual_column (c ∷ cs) name =
    let rest = find_virtual_column cs name in if named c.name name then some c else rest

-- The reasons, without the name of the relation.
unfoldable pub or_unresolved : Bytes → Bytes → Option VirtCol → Result (List SourceRef) LineageError
or_unresolved column reason none = err (unresolved_column column reason)
or_unresolved column reason (some c) = ok c.sources

unfoldable pub in_expose : RelExpose → Bytes → Result (List SourceRef) LineageError
unfolding find_virtual_column or_unresolved
in_expose (physical table) column = ok (record { table = table; column = column } ∷ [])
in_expose (virtual columns) column =
    or_unresolved column (codes "not produced by relation") (find_virtual_column columns column)

-- `resolve_in_relation`
unfoldable pub resolve_in_relation : Relation → Bytes → Result (List SourceRef) LineageError
unfolding in_expose
resolve_in_relation rel column = in_expose rel.expose column

-- `Scope::relation_named`
unfoldable pub relation_named : Scope → Bytes → Result Relation LineageError
unfolding name_eq
relation_named [] name = err (unknown_table name)
relation_named (r ∷ rs) name =
    let rest = relation_named rs name in if name_eq r.visible name then ok r else rest

is_physical : RelExpose → Bool
is_physical (physical table) = true
is_physical (virtual columns) = false

unfoldable pub has_physical : Scope → Bool
unfolding is_physical
has_physical [] = false
has_physical (r ∷ rs) = let rest = has_physical rs in if is_physical r.expose then true else rest

unfoldable pub candidate : Option VirtCol → List (List SourceRef) → List (List SourceRef)
candidate none found = found
candidate (some c) found = c.sources ∷ found

unfoldable pub of_expose : RelExpose → Bytes → List (List SourceRef) → List (List SourceRef)
unfolding find_virtual_column candidate
of_expose (physical table) column found = found
of_expose (virtual columns) column found = candidate (find_virtual_column columns column) found

-- The loop over the relations, with its list of candidates.
unfoldable pub candidates : Scope → Bytes → List (List SourceRef)
unfolding of_expose
candidates [] column = []
candidates (r ∷ rs) column = of_expose r.expose column (candidates rs column)

unfoldable pub only : Bytes → List (List SourceRef) → Result (List SourceRef) LineageError
only column [] = err (unresolved_column column (codes "column not found in any source relation"))
only column (c ∷ []) = ok c
only column (c ∷ d ∷ cs) =
    err (unresolved_column column (codes "ambiguous: column present in multiple source relations"))

unfoldable pub among : Scope → Bytes → Result (List SourceRef) LineageError
unfolding has_physical candidates only resolve_in_relation
among (r ∷ []) column = resolve_in_relation r column
among scope column =
    let found = only column (candidates scope column) in
    if has_physical scope
    then err
        (unresolved_column column (codes "ambiguous unqualified column across multiple tables"))
    else found

-- `Scope::resolve_column`
unfoldable pub resolve_column : Scope → Option Bytes → Bytes → Result (List SourceRef) LineageError
unfolding relation_named resolve_in_relation among
resolve_column scope (some q) column = do
  rel ← relation_named scope q
  resolve_in_relation rel column
resolve_column scope none column = among scope column

-- `expand_relation`, in front of what comes later.
unfoldable pub expand_relation : RelExpose → Result (List VirtCol) LineageError
expand_relation (physical table) = err (
    unresolved_column (codes "*")
      (codes "wildcard over a base table cannot be expanded (no column list)"))
expand_relation (virtual columns) = ok columns

-- `Scope::expand_wildcard`
unfoldable pub expand_wildcard : Scope → Result (List VirtCol) LineageError
unfolding expand_relation
expand_wildcard [] = ok []
expand_wildcard (r ∷ rs) = do
  here ← expand_relation r.expose
  rest ← expand_wildcard rs
  ok (here ++ rest)

-- `Scope::expand_qualified_wildcard`
unfoldable pub expand_qualified_wildcard : Scope → Bytes → Result (List VirtCol) LineageError
unfolding relation_named expand_relation
expand_qualified_wildcard scope name = do
  rel ← relation_named scope name
  expand_relation rel.expose
