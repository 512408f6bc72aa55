-- ===== src/Lineage/Resolve/Positions.antt =====
-- crates/sql-lineage/src/resolve.rs: the positions of the columns.
use dbmcp.Prelude.{
  ℕ, zero, suc, ◌+◌, ◌≡◌, Bytes, List, [], ◌∷◌, ◌++◌, length, Bool-cases, inl, inr, Option, none,
  Result, ok, err, Returns, bind-Returns, arith, subst,
}
use dbmcp.Lineage.Model.{LineageError, SourceRef, OutputColumn, extend}
use dbmcp.Lineage.Ast.{
  Query, query, SetExpr, select, nested, set_operation, values, other_body, Items, no_items,
  unnamed, with_alias, wildcard, qualified_wildcard, expr_wildcard, Rows, no_rows, row, Exprs,
  no_exprs, expr,
}
use dbmcp.Lineage.Scope.{VirtCol, Scope, expand_wildcard, expand_qualified_wildcard}
use dbmcp.Lineage.Resolve.{
  CteMap, ActiveCtes, insert_ctes, push_column, push_expanded, paired, widened, has_column,
  add_value, last_ident, output_name, collect_sources, values_row, resolve_values, project,
  build_scope, resolve_setexpr, resolve_query, resolve,
}

-- The positions count up from `n`.
unfoldable pub Placed : ℕ → List OutputColumn → Type 0
Placed n [] = Unit
Placed n (c ∷ cs) = (c.position ≡ n) × Placed (suc n) cs

Placed-append :
    (n : ℕ) (out : List OutputColumn) (c : OutputColumn)
    → Placed n out
    → c.position ≡ n + length out
    → Placed n (out ++ c ∷ [])
unfolding Placed
Placed-append n [] c h e = (omega arith, tt)
Placed-append n (d ∷ out) c (h, hs) e = (h, Placed-append (suc n) out c hs (omega arith))

pub push_column-Placed :
    (out : List OutputColumn) (name : Option Bytes) (sources : List SourceRef)
    → Placed 0 out
    → Placed 0 (push_column out name sources)
unfolding push_column
push_column-Placed out name sources h = Placed-append 0 out _ h (omega arith)

push_expanded-Placed :
    (out : List OutputColumn) (cs : List VirtCol) → Placed 0 out → Placed 0 (push_expanded out cs)
unfolding push_expanded
push_expanded-Placed out [] h = h
push_expanded-Placed out (c ∷ cs) h =
    push_expanded-Placed (push_column out c.name c.sources) cs
      (push_column-Placed out c.name c.sources h)

paired-Placed :
    (out left right : List OutputColumn) → Placed 0 out → Placed 0 (paired out left right)
unfolding paired
paired-Placed out [] right h = h
paired-Placed out (l ∷ left) [] h =
    paired-Placed (push_column out l.name l.sources) left []
      (push_column-Placed out l.name l.sources h)
paired-Placed out (l ∷ left) (r ∷ right) h =
    paired-Placed (push_column out l.name (extend l.sources r.sources)) left right
      (push_column-Placed out l.name (extend l.sources r.sources) h)

widened-Placed :
    (n : ℕ) (out : List OutputColumn) (i : ℕ) (more : List SourceRef)
    → Placed n out
    → Placed n (widened out i more)
unfolding widened Placed
widened-Placed n [] i more h = h
widened-Placed n (c ∷ cs) zero more h = h
widened-Placed n (c ∷ cs) (suc i) more (h, hs) = (h, widened-Placed (suc n) cs i more hs)

add_value-Placed :
    (out : List OutputColumn) (i : ℕ) (sources : List SourceRef)
    → Placed 0 out
    → Placed 0 (add_value out i sources)
unfolding add_value
add_value-Placed out i sources h = elim (Bool-cases (has_column out i)) [
  | inl e ↦ rw e (widened-Placed 0 out i sources h)
  | inr e ↦ rw e (push_column-Placed out none sources h)
]

unfoldable pub Any : {A : Type 0} → A → Type 0
Any a = Unit

pub Any-Returns : {A : Type 0} (m : Result A LineageError) → Returns Any m
unfolding Any
Any-Returns (ok a) = tt
Any-Returns (err e) = tt

module _ (deeper : CteMap → ActiveCtes → Query → Result (List OutputColumn) LineageError)
    (deeper-Placed : (ctes : CteMap) (active : ActiveCtes) (q : Query)
      → Returns (Placed 0) (deeper ctes active q)) where
  module _ (ctes : CteMap) (active : ActiveCtes) where
    values_row-Placed :
        (out : List OutputColumn) (i : ℕ) (exprs : Exprs)
        → Placed 0 out
        → Returns (Placed 0) (values_row deeper ctes active out i exprs)
    unfolding values_row
    values_row-Placed out i no_exprs h = h
    values_row-Placed out i (expr events exprs) h =
        bind-Returns Any (Placed 0) (collect_sources deeper ctes active [] events) _ (Any-Returns _)
          (λ sources _.
            values_row-Placed (add_value out i sources) (suc i) exprs
              (add_value-Placed out i sources h))

    resolve_values-Placed :
        (out : List OutputColumn) (rows : Rows)
        → Placed 0 out
        → Returns (Placed 0) (resolve_values deeper ctes active out rows)
    unfolding resolve_values
    resolve_values-Placed out no_rows h = h
    resolve_values-Placed out (row exprs rows) h =
        bind-Returns (Placed 0) (Placed 0) (values_row deeper ctes active out 0 exprs) _
          (values_row-Placed out 0 exprs h) (λ out' k. resolve_values-Placed out' rows k)

    project-Placed :
        (scope : Scope) (out : List OutputColumn) (items : Items)
        → Placed 0 out
        → Returns (Placed 0) (project deeper ctes active scope out items)
    unfolding project
    project-Placed scope out no_items h = h
    project-Placed scope out (unnamed e events items) h =
        bind-Returns Any (Placed 0) (collect_sources deeper ctes active scope events) _
          (Any-Returns _)
          (λ sources _.
            project-Placed scope (push_column out (output_name e) sources) items
              (push_column-Placed out (output_name e) sources h))
    project-Placed scope out (with_alias events alias items) h =
        bind-Returns Any (Placed 0) (collect_sources deeper ctes active scope events) _
          (Any-Returns _)
          (λ sources _.
            project-Placed scope (push_column out alias sources) items
              (push_column-Placed out alias sources h))
    project-Placed scope out (wildcard items) h =
        bind-Returns Any (Placed 0) (expand_wildcard scope) _ (Any-Returns _) (λ columns _.
          project-Placed scope (push_expanded out columns) items
            (push_expanded-Placed out columns h))
    project-Placed scope out (qualified_wildcard name items) h =
        bind-Returns Any (Placed 0) (expand_qualified_wildcard scope (last_ident name)) _
          (Any-Returns _)
          (λ columns _.
            project-Placed scope (push_expanded out columns) items
              (push_expanded-Placed out columns h))
    project-Placed scope out (expr_wildcard items) h = tt

    resolve_setexpr-Placed :
        (body : SetExpr) → Returns (Placed 0) (resolve_setexpr deeper ctes active body)
    unfolding resolve_setexpr Placed
    resolve_setexpr-Placed (select froms items) =
        bind-Returns Any (Placed 0) (build_scope deeper ctes active [] froms) _ (Any-Returns _)
          (λ scope _. project-Placed scope [] items tt)
    resolve_setexpr-Placed (nested q) = deeper-Placed ctes active q
    resolve_setexpr-Placed (set_operation left right) =
        bind-Returns (Placed 0) (Placed 0) (resolve_setexpr deeper ctes active left) _
          (resolve_setexpr-Placed left)
          (λ left' _.
            bind-Returns (Placed 0) (Placed 0) (resolve_setexpr deeper ctes active right) _
              (resolve_setexpr-Placed right) (λ right' _. paired-Placed [] left' right' tt))
    resolve_setexpr-Placed (values rows) = resolve_values-Placed [] rows tt
    resolve_setexpr-Placed other_body = tt

pub resolve_query-Placed :
    (levels : ℕ) (ctes : CteMap) (active : ActiveCtes) (q : Query)
    → Returns (Placed 0) (resolve_query levels ctes active q)
unfolding resolve_query
resolve_query-Placed zero ctes active q = tt
resolve_query-Placed (suc levels) ctes active (query with body) =
    resolve_setexpr-Placed (resolve_query levels) (resolve_query-Placed levels)
      (insert_ctes ctes with) active body

-- The output columns of a query stand at the positions from zero up, whatever clauses and nested
-- queries it has.
pub resolve-Placed :
    (q : Query) (columns : List OutputColumn) → resolve q ≡ ok columns → Placed 0 columns
unfolding resolve
resolve-Placed q columns e = subst (Returns (Placed 0)) e (resolve_query-Placed 65 [] [] q)
