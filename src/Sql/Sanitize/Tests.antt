-- ===== src/Sql/Sanitize/Tests.antt =====
-- A quoted name at an example.
use dbmcp.Prelude.{ℕ, ◌≡◌, ◌≢◌, refl, codes, ◌++◌, some, arith}
use dbmcp.Sql.Sanitize.{quote_ident}
use dbmcp.Sql.Sanitize.Unquote.{read_ident, read_ident-quote_ident}

doubles : quote_ident (codes "a\"b") b'"' ≡ codes "\"a\"\"b\""
unfolding quote_ident
doubles = refl

no_quote : ◌≢◌ {A = ℕ} b' ' b'"'
no_quote h = omega arith

read_ident-quote_ident_example :
    read_ident b'"' (quote_ident (codes "a\"b") b'"' ++ codes " WHERE")
    ≡ some (codes "a\"b", codes " WHERE")
read_ident-quote_ident_example =
    read_ident-quote_ident b'"' (codes "a\"b") (codes " WHERE") no_quote
