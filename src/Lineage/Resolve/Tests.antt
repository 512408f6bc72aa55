-- ===== src/Lineage/Resolve/Tests.antt =====
-- Queries with a common table expression.
use dbmcp.Prelude.{◌≡◌, refl, codes, List, [], ◌∷◌, none, some, ok, err}
use dbmcp.Lineage.Model.{TableRef, OutputColumn, circular_reference}
use dbmcp.Lineage.Ast.{
  ObjectName, identifier, Query, query, no_ctes, cte, select, no_froms, from_item, no_joins, table,
  Items, no_items, unnamed, with_alias, no_events, pre_visit_expr,
}
use dbmcp.Lineage.Resolve.Named.{Names, AllFrom}
use dbmcp.Lineage.Resolve.Sources.{resolve-From}
use dbmcp.Lineage.Resolve.{resolve}

abbrev users : ObjectName
users = record { parts = some (codes "users") ∷ []; printed = codes "users" }

abbrev public_users : ObjectName
public_users = record {
  parts = some (codes "public") ∷ some (codes "users") ∷ [];
  printed = codes "public.users";
}

abbrev id : Items
id = unnamed (identifier (codes "id")) (pre_visit_expr (identifier (codes "id")) no_events) no_items

-- `SELECT id FROM public.users`
abbrev plain : Query
plain = query no_ctes (select (from_item (table public_users none) no_joins no_froms) id)

abbrev users_table : TableRef
users_table = record { database = none; schema = some (codes "public"); name = codes "users" }

abbrev plain_columns : List OutputColumn
plain_columns =
    record {
      name = some (codes "id");
      position = 0;
      sources = record { table = users_table; column = codes "id" } ∷ [];
    }
    ∷ []

resolves_plain : resolve plain ≡ ok plain_columns
unfolding resolve
resolves_plain = refl

-- `WITH users AS (SELECT 1 AS id) SELECT id FROM public.users`: the qualified name is taken for the
-- common table expression, and the column has no source.
qualified_name_is_shadowed :
    resolve (
      query
        (cte
          (codes "users")
          (query no_ctes (select no_froms (with_alias no_events (some (codes "id")) no_items)))
          no_ctes)
        (select (from_item (table public_users none) no_joins no_froms) id))
    ≡ ok (record { name = some (codes "id"); position = 0; sources = [] } ∷ [])
unfolding resolve
qualified_name_is_shadowed = refl

-- `WITH users AS (SELECT id FROM users) SELECT id FROM users`
circular :
    resolve (
      query
        (cte
          (codes "users")
          (query no_ctes (select (from_item (table users none) no_joins no_froms) id))
          no_ctes)
        (select (from_item (table users none) no_joins no_froms) id))
    ≡ err (circular_reference (codes "users"))
unfolding resolve
circular = refl

abbrev IsUsers : TableRef → Type 0
IsUsers t = t ≡ users_table

plain-Names : Names IsUsers plain
unfolding Names dbmcp.Lineage.Resolve.table_ref_from_object_name
plain-Names = (tt, ((refl, tt, tt), (tt, tt)))

resolve-From_example : AllFrom IsUsers plain_columns
resolve-From_example = resolve-From IsUsers plain plain_columns plain-Names resolves_plain
