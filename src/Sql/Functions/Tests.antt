-- ===== src/Sql/Functions/Tests.antt =====
-- Function names at examples.
use dbmcp.Prelude.{◌≡◌, ◌↔◌, refl, codes, [], ◌∷◌, some, none}
use dbmcp.Sql.Error.{dangerous_function_blocked}
use dbmcp.Sql.Functions.{identifier, printed, dangerous_function}
use dbmcp.Sql.Functions.Names.{Unlisted, dangerous_function-none}

blocks_prefix :
    dangerous_function (identifier (codes "PG_Advisory_Lock") ∷ [])
    ≡ some (dangerous_function_blocked (codes "pg_advisory_lock"))
unfolding dangerous_function
blocks_prefix = refl

dangerous_function-none_example :
    (dangerous_function [] ≡ none)
    × ((dangerous_function (identifier (codes "public") ∷ identifier (codes "Now") ∷ []) ≡ none)
        ↔ Unlisted (codes "Now"))
    × ((dangerous_function (identifier (codes "public") ∷ printed (codes "Now") ∷ []) ≡ none)
        ↔ Unlisted (codes "Now"))
dangerous_function-none_example =
    dangerous_function-none (identifier (codes "public") ∷ []) (codes "Now")
