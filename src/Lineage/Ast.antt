-- ===== src/Lineage/Ast.antt =====
-- What crates/sql-lineage/src/resolve.rs matches on of the syntax tree of the SQL parser. An expression
-- is the calls of a visitor on it, in their order.
use dbmcp.Prelude.{Bytes, List, Option}

-- A part that is no identifier is `none`; `printed` is the name as the parser prints it.
pub record ObjectName : Type 0 where
  pub parts : List (Option Bytes)
  pub printed : Bytes

pub data ExprKind : Type 0 where
  identifier : Bytes → ExprKind
  compound_identifier : List Bytes → ExprKind
  other_expr : ExprKind

mutual
  pub data Query : Type 0 where
    query : Ctes → SetExpr → Query

  pub data Ctes : Type 0 where
    no_ctes : Ctes
    cte : Bytes → Query → Ctes → Ctes

  pub data SetExpr : Type 0 where
    select : Froms → Items → SetExpr
    nested : Query → SetExpr
    set_operation : SetExpr → SetExpr → SetExpr
    values : Rows → SetExpr
    other_body : SetExpr

  pub data Froms : Type 0 where
    no_froms : Froms
    from_item : Factor → Joins → Froms → Froms

  pub data Joins : Type 0 where
    no_joins : Joins
    join : Factor → Joins → Joins

  pub data Factor : Type 0 where
    table : ObjectName → Option Bytes → Factor
    derived : Query → Option Bytes → Factor
    nested_join : Factor → Joins → Factor
    other_factor : Factor

  pub data Items : Type 0 where
    no_items : Items
    unnamed : ExprKind → Events → Items → Items
    with_alias : Events → Option Bytes → Items → Items
    wildcard : Items → Items
    qualified_wildcard : ObjectName → Items → Items
    expr_wildcard : Items → Items

  pub data Rows : Type 0 where
    no_rows : Rows
    row : Exprs → Rows → Rows

  pub data Exprs : Type 0 where
    no_exprs : Exprs
    expr : Events → Exprs → Exprs

  pub data Events : Type 0 where
    no_events : Events
    pre_visit_query : Query → Events → Events
    post_visit_query : Events → Events
    pre_visit_expr : ExprKind → Events → Events
