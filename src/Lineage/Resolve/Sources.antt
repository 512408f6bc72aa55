-- ===== src/Lineage/Resolve/Sources.antt =====
-- crates/sql-lineage/src/resolve.rs: where the sources of the columns come from.
use dbmcp.Prelude.{
  arith, ℕ, zero, suc, ◌-◌, ◌≡◌, refl, Bytes, List, [], ◌∷◌, All, All-append, Bool-cases, inl, inr,
  Option, none, some, Result, ok, Returns, bind-Returns, bytes_eq, subst,
}
use dbmcp.Lineage.Model.{LineageError, TableRef, SourceRef, OutputColumn, fold}
use dbmcp.Lineage.Ast.{
  ObjectName, Query, query, Ctes, no_ctes, cte, SetExpr, select, nested, set_operation, values,
  other_body, Froms, no_froms, from_item, Joins, no_joins, join, Factor, table, derived,
  nested_join, other_factor, Items, no_items, unnamed, with_alias, wildcard, qualified_wildcard,
  expr_wildcard, Rows, no_rows, row, Exprs, no_exprs, expr, Events, no_events, pre_visit_query,
  post_visit_query, pre_visit_expr,
}
use dbmcp.Lineage.Scope.{
  RelExpose, virtual, Scope, push, expand_wildcard, expand_qualified_wildcard,
}
use dbmcp.Lineage.Resolve.{
  CteMap, ActiveCtes, lookup, contains, insert_ctes, push_column, push_expanded, columns_from,
  last_ident, table_ref_from_object_name, output_name, resolved, found_or, extend_columns,
  add_value, visit, collect_sources, values_row, resolve_values, project, or_empty, add_cte,
  add_table, add_table_factor, add_joins, build_scope, resolve_setexpr, resolve_query, resolve,
}
use dbmcp.Lineage.Resolve.Named.{
  Names, NamesCtes, NamesBody, NamesFroms, NamesJoins, NamesFactor, NamesItems, NamesRows,
  NamesExprs, NamesEvents, From, AllFrom, VirtFrom, Exposes, InScope, expand_wildcard-From,
  expand_qualified-From, resolved-From, extend_columns-From, push_column-From, push_expanded-From,
  paired-From, add_value-From,
}

module _ (P : TableRef → Type 0) where
  abbrev CtesNamed : CteMap → Type 0
  CtesNamed = All (λ c. Names P c.1)

  lookup-Named :
      (ctes : CteMap) (name : Bytes) (q : Query)
      → CtesNamed ctes
      → lookup ctes name ≡ some q
      → Names P q
  unfolding lookup
  lookup-Named [] name q h e = ground arith
  lookup-Named ((n, body) ∷ ctes) name q (h, hs) e = elim (Bool-cases (bytes_eq n name)) [
    | inl f ↦ subst (Names P) (ground arith) h
    | inr f ↦ lookup-Named ctes name q hs (rw f at e)
  ]

  insert_ctes-Named :
      (map : CteMap) (ctes : Ctes)
      → CtesNamed map
      → NamesCtes P ctes
      → CtesNamed (insert_ctes map ctes)
  unfolding insert_ctes Names
  insert_ctes-Named map no_ctes h k = h
  insert_ctes-Named map (cte name q more) h (k, ks) =
      insert_ctes-Named ((fold name, q) ∷ map) more (k, h) ks

  columns_from-From : (cs : List OutputColumn) → AllFrom P cs → VirtFrom P (columns_from cs)
  unfolding columns_from
  columns_from-From [] h = tt
  columns_from-From (c ∷ cs) (h, hs) = (h, columns_from-From cs hs)

  push-InScope :
      (scope : Scope) (visible : Bytes) (expose : RelExpose)
      → InScope P scope
      → Exposes P expose
      → InScope P (push scope visible expose)
  unfolding push
  push-InScope scope visible expose h k = All-append (λ r. Exposes P r.expose) scope _ h (k, tt)

  module _ (deeper : CteMap → ActiveCtes → Query → Result (List OutputColumn) LineageError)
      (deeper-From : (ctes : CteMap) (active : ActiveCtes) (q : Query)
        → CtesNamed ctes
        → Names P q
        → Returns (AllFrom P) (deeper ctes active q)) where
    module _ (ctes : CteMap) (active : ActiveCtes) (known : CtesNamed ctes) where
      visit-From :
          (scope : Scope) (depth : ℕ) (sources : List SourceRef) (events : Events)
          → InScope P scope
          → From P sources
          → NamesEvents P events
          → Returns (From P) (visit deeper ctes active scope depth sources events)
      unfolding visit Names
      visit-From scope depth sources no_events h k l = k
      visit-From scope zero sources (pre_visit_query q events) h k (l, ls) =
          bind-Returns (AllFrom P) (From P) (deeper ctes active q) _
            (deeper-From ctes active q known l)
            (λ columns m.
              visit-From scope 1 (extend_columns sources columns) events h
                (extend_columns-From P sources columns k m) ls)
      visit-From scope (suc depth) sources (pre_visit_query q events) h k (l, ls) =
          visit-From scope (suc (suc depth)) sources events h k ls
      visit-From scope zero sources (post_visit_query events) h k l =
          visit-From scope (zero - 1) sources events h k l
      visit-From scope (suc depth) sources (post_visit_query events) h k l =
          visit-From scope (suc depth - 1) sources events h k l
      visit-From scope zero sources (pre_visit_expr e events) h k l =
          bind-Returns (From P) (From P) (found_or sources (resolved scope e)) _
            (resolved-From P scope sources e h k)
            (λ sources' m. visit-From scope zero sources' events h m l)
      visit-From scope (suc depth) sources (pre_visit_expr e events) h k l =
          visit-From scope (suc depth) sources events h k l

      collect_sources-From :
          (scope : Scope) (events : Events)
          → InScope P scope
          → NamesEvents P events
          → Returns (From P) (collect_sources deeper ctes active scope events)
      unfolding collect_sources
      collect_sources-From scope events h l = visit-From scope 0 [] events h tt l

      values_row-From :
          (out : List OutputColumn) (i : ℕ) (exprs : Exprs)
          → AllFrom P out
          → NamesExprs P exprs
          → Returns (AllFrom P) (values_row deeper ctes active out i exprs)
      unfolding values_row Names
      values_row-From out i no_exprs h l = h
      values_row-From out i (expr events exprs) h (l, ls) =
          bind-Returns (From P) (AllFrom P) (collect_sources deeper ctes active [] events) _
            (collect_sources-From [] events tt l)
            (λ sources k.
              values_row-From (add_value out i sources) (suc i) exprs
                (add_value-From P out i sources h k) ls)

      resolve_values-From :
          (out : List OutputColumn) (rows : Rows)
          → AllFrom P out
          → NamesRows P rows
          → Returns (AllFrom P) (resolve_values deeper ctes active out rows)
      unfolding resolve_values Names
      resolve_values-From out no_rows h l = h
      resolve_values-From out (row exprs rows) h (l, ls) =
          bind-Returns (AllFrom P) (AllFrom P) (values_row deeper ctes active out 0 exprs) _
            (values_row-From out 0 exprs h l) (λ out' k. resolve_values-From out' rows k ls)

      project-From :
          (scope : Scope) (out : List OutputColumn) (items : Items)
          → InScope P scope
          → AllFrom P out
          → NamesItems P items
          → Returns (AllFrom P) (project deeper ctes active scope out items)
      unfolding project Names
      project-From scope out no_items h k l = k
      project-From scope out (unnamed e events items) h k (l, ls) =
          bind-Returns (From P) (AllFrom P) (collect_sources deeper ctes active scope events) _
            (collect_sources-From scope events h l)
            (λ sources m.
              project-From scope (push_column out (output_name e) sources) items h
                (push_column-From P out (output_name e) sources k m) ls)
      project-From scope out (with_alias events alias items) h k (l, ls) =
          bind-Returns (From P) (AllFrom P) (collect_sources deeper ctes active scope events) _
            (collect_sources-From scope events h l)
            (λ sources m.
              project-From scope (push_column out alias sources) items h
                (push_column-From P out alias sources k m) ls)
      project-From scope out (wildcard items) h k l =
          bind-Returns (VirtFrom P) (AllFrom P) (expand_wildcard scope) _
            (expand_wildcard-From P scope h)
            (λ columns m.
              project-From scope (push_expanded out columns) items h
                (push_expanded-From P out columns k m) l)
      project-From scope out (qualified_wildcard name items) h k l =
          bind-Returns (VirtFrom P) (AllFrom P) (expand_qualified_wildcard scope (last_ident name))
            _ (expand_qualified-From P scope (last_ident name) h)
            (λ columns m.
              project-From scope (push_expanded out columns) items h
                (push_expanded-From P out columns k m) l)
      project-From scope out (expr_wildcard items) h k l = tt

      add_cte-InScope :
          (scope : Scope) (visible last : Bytes) (q : Query)
          → InScope P scope
          → Names P q
          → Returns (InScope P) (add_cte deeper ctes active scope visible last q)
      unfolding add_cte Exposes
      add_cte-InScope scope visible last q h l =
          let body =
            bind-Returns (AllFrom P) (InScope P) (deeper ctes (fold last ∷ active) q)
              (λ columns. ok (push scope visible (virtual (columns_from columns))))
              (deeper-From ctes (fold last ∷ active) q known l)
              (λ columns k. push-InScope scope visible _ h (columns_from-From columns k)) in
          elim (Bool-cases (contains active (fold last))) [ inl e ↦ rw e tt | inr e ↦ rw e body ]

      add_table-InScope :
          (scope : Scope) (name : ObjectName) (visible : Bytes) (found : Option Query)
          → InScope P scope
          → P (table_ref_from_object_name name)
          → ((q : Query) → found ≡ some q → Names P q)
          → Returns (InScope P) (add_table deeper ctes active scope name visible found)
      unfolding add_table Exposes
      add_table-InScope scope name visible none h l k = push-InScope scope visible _ h l
      add_table-InScope scope name visible (some q) h l k =
          add_cte-InScope scope visible (last_ident name) q h (k q refl)

      mutual
        unfolding add_table_factor Names Exposes

        factor-InScope :
            (scope : Scope) (factor : Factor)
            → InScope P scope
            → NamesFactor P factor
            → Returns (InScope P) (add_table_factor deeper ctes active scope factor)
        factor-InScope scope (table name alias) h l =
            add_table-InScope scope name _ (lookup ctes (fold (last_ident name))) h l
              (λ q e. lookup-Named ctes (fold (last_ident name)) q known e)
        factor-InScope scope (derived q alias) h l =
            bind-Returns (AllFrom P) (InScope P) (deeper ctes active q) _
              (deeper-From ctes active q known l)
              (λ columns k. push-InScope scope (or_empty alias) _ h (columns_from-From columns k))
        factor-InScope scope (nested_join relation joins) h (l, ls) =
            bind-Returns (InScope P) (InScope P)
              (add_table_factor deeper ctes active scope relation) _
              (factor-InScope scope relation h l) (λ scope' k. joins-InScope scope' joins k ls)
        factor-InScope scope other_factor h l = h

        joins-InScope :
            (scope : Scope) (joins : Joins)
            → InScope P scope
            → NamesJoins P joins
            → Returns (InScope P) (add_joins deeper ctes active scope joins)
        joins-InScope scope no_joins h l = h
        joins-InScope scope (join relation joins) h (l, ls) =
            bind-Returns (InScope P) (InScope P)
              (add_table_factor deeper ctes active scope relation) _
              (factor-InScope scope relation h l) (λ scope' k. joins-InScope scope' joins k ls)

      build_scope-InScope :
          (scope : Scope) (froms : Froms)
          → InScope P scope
          → NamesFroms P froms
          → Returns (InScope P) (build_scope deeper ctes active scope froms)
      unfolding build_scope Names
      build_scope-InScope scope no_froms h l = h
      build_scope-InScope scope (from_item relation joins froms) h (l, ls, more) =
          bind-Returns (InScope P) (InScope P) (add_table_factor deeper ctes active scope relation)
            _ (factor-InScope scope relation h l)
            (λ scope' k.
              bind-Returns (InScope P) (InScope P) (add_joins deeper ctes active scope' joins) _
                (joins-InScope scope' joins k ls)
                (λ scope'' m. build_scope-InScope scope'' froms m more))

      resolve_setexpr-From :
          (body : SetExpr)
          → NamesBody P body
          → Returns (AllFrom P) (resolve_setexpr deeper ctes active body)
      unfolding resolve_setexpr Names
      resolve_setexpr-From (select froms items) (l, ls) =
          bind-Returns (InScope P) (AllFrom P) (build_scope deeper ctes active [] froms) _
            (build_scope-InScope [] froms tt l) (λ scope k. project-From scope [] items k tt ls)
      resolve_setexpr-From (nested q) l = deeper-From ctes active q known l
      resolve_setexpr-From (set_operation left right) (l, ls) =
          bind-Returns (AllFrom P) (AllFrom P) (resolve_setexpr deeper ctes active left) _
            (resolve_setexpr-From left l)
            (λ left' k.
              bind-Returns (AllFrom P) (AllFrom P) (resolve_setexpr deeper ctes active right) _
                (resolve_setexpr-From right ls) (λ right' m. paired-From P [] left' right' tt k m))
      resolve_setexpr-From (values rows) l = resolve_values-From [] rows tt l
      resolve_setexpr-From other_body l = tt

  resolve_query-From :
      (levels : ℕ) (ctes : CteMap) (active : ActiveCtes) (q : Query)
      → CtesNamed ctes
      → Names P q
      → Returns (AllFrom P) (resolve_query levels ctes active q)
  unfolding resolve_query Names
  resolve_query-From zero ctes active q h l = tt
  resolve_query-From (suc levels) ctes active (query with body) h (l, ls) =
      resolve_setexpr-From (resolve_query levels) (resolve_query-From levels)
        (insert_ctes ctes with) active (insert_ctes-Named ctes with h l) body ls

  -- Every source of an output column is a column of a table that stands in a `FROM` of the query, of
  -- one of its common table expressions or of a nested query: what holds of all these tables holds of
  -- the sources' tables.
  pub resolve-From :
      (q : Query) (columns : List OutputColumn)
      → Names P q
      → resolve q ≡ ok columns
      → AllFrom P columns
  unfolding resolve
  resolve-From q columns l e = subst (Returns (AllFrom P)) e (resolve_query-From 65 [] [] q tt l)
