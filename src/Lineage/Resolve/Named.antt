-- ===== src/Lineage/Resolve/Named.antt =====
-- crates/sql-lineage/src/resolve.rs and scope.rs: the tables that a query names, and the sources that
-- the relations of a scope expose.
use dbmcp.Prelude.{
  ℕ, zero, suc, Bytes, List, [], ◌∷◌, any, All, All-append, Bool-cases, inl, inr, Option, none,
  some, Result, ok, err, Returns, bind-Returns, reverse,
}
use dbmcp.Lineage.Model.{
  LineageError, TableRef, SourceRef, OutputColumn, source_eq, insert, extend, name_eq,
}
use dbmcp.Lineage.Ast.{
  ExprKind, identifier, compound_identifier, other_expr, Query, query, Ctes, no_ctes, cte, SetExpr,
  select, nested, set_operation, values, other_body, Froms, no_froms, from_item, Joins, no_joins,
  join, Factor, table, derived, nested_join, other_factor, Items, no_items, unnamed, with_alias,
  wildcard, qualified_wildcard, expr_wildcard, Rows, no_rows, row, Exprs, no_exprs, expr, Events,
  no_events, pre_visit_query, post_visit_query, pre_visit_expr,
}
use dbmcp.Lineage.Scope.{
  VirtCol, RelExpose, physical, virtual, Scope, named, find_virtual_column, or_unresolved,
  in_expose, resolve_in_relation, relation_named, has_physical, candidate, of_expose, candidates,
  only, among, resolve_column, expand_relation, expand_wildcard, expand_qualified_wildcard,
}
use dbmcp.Lineage.Resolve.{
  push_column, push_expanded, table_ref_from_object_name, resolve_parts, resolved, found_or,
  extend_columns, paired, widened, has_column, add_value,
}

module _ (P : TableRef → Type 0) where
  -- Each table that stands in a `FROM`, at any depth, is one of `P`.
  unfoldable mutual
    pub Names : Query → Type 0
    Names (query with body) = NamesCtes with × NamesBody body

    pub NamesCtes : Ctes → Type 0
    NamesCtes no_ctes = Unit
    NamesCtes (cte name q more) = Names q × NamesCtes more

    pub NamesBody : SetExpr → Type 0
    NamesBody (select froms items) = NamesFroms froms × NamesItems items
    NamesBody (nested q) = Names q
    NamesBody (set_operation left right) = NamesBody left × NamesBody right
    NamesBody (values rows) = NamesRows rows
    NamesBody other_body = Unit

    pub NamesFroms : Froms → Type 0
    NamesFroms no_froms = Unit
    NamesFroms (from_item relation joins froms) =
        NamesFactor relation × NamesJoins joins × NamesFroms froms

    pub NamesJoins : Joins → Type 0
    NamesJoins no_joins = Unit
    NamesJoins (join relation joins) = NamesFactor relation × NamesJoins joins

    pub NamesFactor : Factor → Type 0
    NamesFactor (table name alias) = P (table_ref_from_object_name name)
    NamesFactor (derived q alias) = Names q
    NamesFactor (nested_join relation joins) = NamesFactor relation × NamesJoins joins
    NamesFactor other_factor = Unit

    pub NamesItems : Items → Type 0
    NamesItems no_items = Unit
    NamesItems (unnamed e events items) = NamesEvents events × NamesItems items
    NamesItems (with_alias events alias items) = NamesEvents events × NamesItems items
    NamesItems (wildcard items) = NamesItems items
    NamesItems (qualified_wildcard name items) = NamesItems items
    NamesItems (expr_wildcard items) = NamesItems items

    pub NamesRows : Rows → Type 0
    NamesRows no_rows = Unit
    NamesRows (row exprs rows) = NamesExprs exprs × NamesRows rows

    pub NamesExprs : Exprs → Type 0
    NamesExprs no_exprs = Unit
    NamesExprs (expr events exprs) = NamesEvents events × NamesExprs exprs

    pub NamesEvents : Events → Type 0
    NamesEvents no_events = Unit
    NamesEvents (pre_visit_query q events) = Names q × NamesEvents events
    NamesEvents (post_visit_query events) = NamesEvents events
    NamesEvents (pre_visit_expr e events) = NamesEvents events

  abbrev pub From : List SourceRef → Type 0
  From = All (λ s. P s.table)

  abbrev pub AllFrom : List OutputColumn → Type 0
  AllFrom = All (λ c. From c.sources)

  abbrev pub VirtFrom : List VirtCol → Type 0
  VirtFrom = All (λ c. From c.sources)

  unfoldable pub Exposes : RelExpose → Type 0
  Exposes (physical t) = P t
  Exposes (virtual columns) = VirtFrom columns

  abbrev pub InScope : Scope → Type 0
  InScope = All (λ r. Exposes r.expose)

  pub insert-From :
      (sources : List SourceRef) (s : SourceRef)
      → From sources
      → P s.table
      → From (insert sources s)
  unfolding insert
  insert-From sources s h k = elim (Bool-cases (any (λ t. source_eq t s) sources)) [
    | inl e ↦ rw e h
    | inr e ↦ rw e (All-append (λ t. P t.table) sources (s ∷ []) h (k, tt))
  ]

  pub extend-From :
      (sources more : List SourceRef) → From sources → From more → From (extend sources more)
  unfolding extend
  extend-From sources [] h k = h
  extend-From sources (s ∷ more) h (k, ks) =
      extend-From (insert sources s) more (insert-From sources s h k) ks

  pub find-From :
      (cs : List VirtCol) (name reason : Bytes)
      → VirtFrom cs
      → Returns From (or_unresolved name reason (find_virtual_column cs name))
  unfolding find_virtual_column or_unresolved
  find-From [] name reason h = tt
  find-From (c ∷ cs) name reason (h, hs) = elim (Bool-cases (named c.name name)) [
    | inl e ↦ rw e h
    | inr e ↦ rw e (find-From cs name reason hs)
  ]

  pub in_expose-From :
      (expose : RelExpose) (column : Bytes)
      → Exposes expose
      → Returns From (in_expose expose column)
  unfolding in_expose Exposes
  in_expose-From (physical t) column h = (h, tt)
  in_expose-From (virtual columns) column h = find-From columns column _ h

  pub relation_named-Exposes :
      (scope : Scope) (name : Bytes)
      → InScope scope
      → Returns (λ r. Exposes r.expose) (relation_named scope name)
  unfolding relation_named
  relation_named-Exposes [] name h = tt
  relation_named-Exposes (r ∷ rs) name (h, hs) = elim (Bool-cases (name_eq r.visible name)) [
    | inl e ↦ rw e h
    | inr e ↦ rw e (relation_named-Exposes rs name hs)
  ]

  pub candidate-From :
      (o : Option VirtCol) (found : List (List SourceRef)) (column reason : Bytes)
      → Returns From (or_unresolved column reason o)
      → All From found
      → All From (candidate o found)
  unfolding candidate or_unresolved
  candidate-From none found column reason h k = k
  candidate-From (some c) found column reason h k = (h, k)

  pub of_expose-From :
      (expose : RelExpose) (column : Bytes) (found : List (List SourceRef))
      → Exposes expose
      → All From found
      → All From (of_expose expose column found)
  unfolding of_expose Exposes
  of_expose-From (physical t) column found h k = k
  of_expose-From (virtual columns) column found h k =
      candidate-From (find_virtual_column columns column) found column column
        (find-From columns column column h) k

  pub candidates-From :
      (scope : Scope) (column : Bytes) → InScope scope → All From (candidates scope column)
  unfolding candidates
  candidates-From [] column h = tt
  candidates-From (r ∷ rs) column (h, hs) =
      of_expose-From r.expose column (candidates rs column) h (candidates-From rs column hs)

  pub only-From :
      (column : Bytes) (found : List (List SourceRef))
      → All From found
      → Returns From (only column found)
  unfolding only
  only-From column [] h = tt
  only-From column (c ∷ []) (h, _) = h
  only-From column (c ∷ d ∷ cs) h = tt

  pub among-From :
      (scope : Scope) (column : Bytes) → InScope scope → Returns From (among scope column)
  unfolding among candidates only resolve_in_relation has_physical
  among-From [] column h = tt
  among-From (r ∷ []) column (h, _) = in_expose-From r.expose column h
  among-From (r ∷ s ∷ rs) column h = elim (Bool-cases (has_physical (r ∷ s ∷ rs))) [
    | inl e ↦ rw e tt
    | inr e ↦ rw e (only-From column _ (candidates-From (r ∷ s ∷ rs) column h))
  ]

  pub resolve_column-From :
      (scope : Scope) (qualifier : Option Bytes) (column : Bytes)
      → InScope scope
      → Returns From (resolve_column scope qualifier column)
  unfolding resolve_column resolve_in_relation
  resolve_column-From scope (some q) column h =
      bind-Returns (λ r. Exposes r.expose) From (relation_named scope q) _
        (relation_named-Exposes scope q h) (λ r k. in_expose-From r.expose column k)
  resolve_column-From scope none column h = among-From scope column h

  pub expand_relation-From :
      (expose : RelExpose) → Exposes expose → Returns VirtFrom (expand_relation expose)
  unfolding expand_relation Exposes
  expand_relation-From (physical t) h = tt
  expand_relation-From (virtual columns) h = h

  pub expand_wildcard-From :
      (scope : Scope) → InScope scope → Returns VirtFrom (expand_wildcard scope)
  unfolding expand_wildcard
  expand_wildcard-From [] h = tt
  expand_wildcard-From (r ∷ rs) (h, hs) =
      bind-Returns VirtFrom VirtFrom (expand_relation r.expose) _ (expand_relation-From r.expose h)
        (λ here k.
          bind-Returns VirtFrom VirtFrom (expand_wildcard rs) _ (expand_wildcard-From rs hs)
            (λ rest l. All-append (λ c. From c.sources) here rest k l))

  pub expand_qualified-From :
      (scope : Scope) (name : Bytes)
      → InScope scope
      → Returns VirtFrom (expand_qualified_wildcard scope name)
  unfolding expand_qualified_wildcard
  expand_qualified-From scope name h =
      bind-Returns (λ r. Exposes r.expose) VirtFrom (relation_named scope name) _
        (relation_named-Exposes scope name h) (λ r k. expand_relation-From r.expose k)

  pub some-From :
      (sources : List SourceRef) (r : Result (List SourceRef) LineageError)
      → From sources
      → Returns From r
      → Returns From (found_or sources (some r))
  unfolding found_or
  some-From sources (err e) h k = tt
  some-From sources (ok found) h k = extend-From sources found h k

  pub parts-From :
      (scope : Scope) (sources : List SourceRef) (parts : List Bytes)
      → InScope scope
      → From sources
      → Returns From (found_or sources (resolve_parts scope parts))
  unfolding resolve_parts found_or
  parts-From scope sources [] h k = k
  parts-From scope sources (column ∷ []) h k =
      some-From sources _ k (resolve_column-From scope none column h)
  parts-From scope sources (column ∷ qualifier ∷ rest) h k =
      some-From sources _ k (resolve_column-From scope (some qualifier) column h)

  pub resolved-From :
      (scope : Scope) (sources : List SourceRef) (e : ExprKind)
      → InScope scope
      → From sources
      → Returns From (found_or sources (resolved scope e))
  unfolding resolved found_or
  resolved-From scope sources (identifier id) h k =
      some-From sources _ k (resolve_column-From scope none id h)
  resolved-From scope sources (compound_identifier parts) h k =
      parts-From scope sources (reverse parts) h k
  resolved-From scope sources other_expr h k = k

  pub extend_columns-From :
      (sources : List SourceRef) (cs : List OutputColumn)
      → From sources
      → AllFrom cs
      → From (extend_columns sources cs)
  unfolding extend_columns
  extend_columns-From sources [] h k = h
  extend_columns-From sources (c ∷ cs) h (k, ks) =
      extend_columns-From (extend sources c.sources) cs (extend-From sources c.sources h k) ks

  pub push_column-From :
      (out : List OutputColumn) (name : Option Bytes) (sources : List SourceRef)
      → AllFrom out
      → From sources
      → AllFrom (push_column out name sources)
  unfolding push_column
  push_column-From out name sources h k = All-append (λ c. From c.sources) out _ h (k, tt)

  pub push_expanded-From :
      (out : List OutputColumn) (cs : List VirtCol)
      → AllFrom out
      → VirtFrom cs
      → AllFrom (push_expanded out cs)
  unfolding push_expanded
  push_expanded-From out [] h k = h
  push_expanded-From out (c ∷ cs) h (k, ks) =
      push_expanded-From (push_column out c.name c.sources) cs
        (push_column-From out c.name c.sources h k) ks

  pub paired-From :
      (out left right : List OutputColumn)
      → AllFrom out
      → AllFrom left
      → AllFrom right
      → AllFrom (paired out left right)
  unfolding paired
  paired-From out [] right h k l = h
  paired-From out (c ∷ left) [] h (k, ks) l =
      paired-From (push_column out c.name c.sources) left []
        (push_column-From out c.name c.sources h k) ks tt
  paired-From out (c ∷ left) (d ∷ right) h (k, ks) (l, ls) =
      let both : List SourceRef = extend c.sources d.sources in
      paired-From (push_column out c.name both) left right
        (push_column-From out c.name both h (extend-From c.sources d.sources k l)) ks ls

  pub widened-From :
      (out : List OutputColumn) (i : ℕ) (more : List SourceRef)
      → AllFrom out
      → From more
      → AllFrom (widened out i more)
  unfolding widened
  widened-From [] i more h k = tt
  widened-From (c ∷ cs) zero more (h, hs) k = (extend-From c.sources more h k, hs)
  widened-From (c ∷ cs) (suc i) more (h, hs) k = (h, widened-From cs i more hs k)

  pub add_value-From :
      (out : List OutputColumn) (i : ℕ) (sources : List SourceRef)
      → AllFrom out
      → From sources
      → AllFrom (add_value out i sources)
  unfolding add_value
  add_value-From out i sources h k = elim (Bool-cases (has_column out i)) [
    | inl e ↦ rw e (widened-From out i sources h k)
    | inr e ↦ rw e (push_column-From out none sources h k)
  ]
