-- ===== src/Backend/Mysql/Tests.antt =====
-- crates/mysql/src: calls of tools at examples.
use dbmcp.Prelude.{
  ℕ, zero, suc, ◌≡◌, refl, Bytes, codes, List, [], ◌∷◌, map, Bool, true, false, none, some, Result,
  ok, err, All, bytes_eq, to_ascii_uppercase, if◌then◌else◌,
}
use dbmcp.Pii.Redactor.Json.{null, array, no_items, item}
use dbmcp.Server.Listing.{split, paginate, bound_offset, bound_limit}
use dbmcp.Sql.Pagination.{with_limit_offset}
use dbmcp.Sql.Sanitize.{quote_ident}
use dbmcp.Sql.Validation.{View, query_view, other_view, Parser, validate_read_only}
use dbmcp.Backend.{Driver, read_only_begin, fetch_json, fetch_json_read_only, from_specs, route}
use dbmcp.Backend.Mysql.{
  MysqlHandler, sql, pool_of, page_of, no_such_tool, read_response, message_response,
}
use dbmcp.Backend.Mysql.Calls.{reading, writing, dropping_table, call}
use dbmcp.Backend.Mysql.Guarded.{Guarded, call-Guarded}

-- `true` is a query, and `false` is not.
abbrev parse : Bytes → Result (List Bool) Bytes
parse text = if bytes_eq text (codes "SELECT a FROM t") then ok (true ∷ []) else ok (false ∷ [])

abbrev sees : Bool → View Bool
sees true = query_view
sees false = other_view

abbrev parser : Parser
parser = record {
  Statement = Bool;
  view = sees;
  nodes = λ s. [];
  depth = λ s. 0;
  parse_sql = parse;
  to_uppercase = map to_ascii_uppercase;
}

-- Each statement has two rows.
abbrev driver : Driver
driver = record {
  begin_with = λ log text. ok tt;
  fetch_all = λ log s. ok (null ∷ null ∷ []);
  rollback = λ log. ok tt;
  elapsed = λ log text. none;
}

abbrev printed : ℕ → Bytes
printed zero = codes "0"
printed (suc n) = codes "2"

abbrev handler : Bool → MysqlHandler
handler read_only = record {
  read_only = read_only;
  name = some (codes "shop");
  page_size = 1;
  query_timeout = 0;
  redact_rows = λ rows. ok (array rows);
}

-- The second row only tells that there is a next page.
one_page :
    call driver parser printed
      (handler true)
      (reading (codes "SELECT a FROM t") (some (codes "other")) none)
      []
    ≡ (
      ok (read_response (array (item null no_items)) (some (record { offset = 1 }))),
      record {
        transaction = some read_only_begin;
        pool = codes "shop";
        sql = codes "SELECT * FROM (SELECT a FROM t\n) AS paginated LIMIT 2 OFFSET 0";
        binds = [];
      }
          ∷ [],
    )
unfolding call validate_read_only bytes_eq to_ascii_uppercase from_specs route fetch_json_read_only
    paginate with_limit_offset bound_limit bound_offset sql pool_of page_of split
one_page = refl

no_write :
    call driver parser printed (handler true) (writing (codes "DELETE FROM t") none) []
    ≡ (err (no_such_tool (codes "writeQuery")), [])
unfolding call from_specs route bytes_eq
no_write = refl

drops : call driver parser printed (handler false) (dropping_table none (codes "a`b")) [] ≡ (
  ok (message_response (codes "Table 'a`b' dropped successfully.")),
  record { transaction = none; pool = codes "shop"; sql = codes "DROP TABLE `a``b`"; binds = [] }
      ∷ [],
)
unfolding call from_specs route bytes_eq fetch_json quote_ident sql pool_of
drops = refl

call-Guarded_example :
    All
      (Guarded driver parser printed
        (handler true)
        (reading (codes "SELECT a FROM t") (some (codes "other")) none))
      (call driver parser printed
        (handler true)
        (reading (codes "SELECT a FROM t") (some (codes "other")) none)
        []).1
call-Guarded_example =
    call-Guarded driver parser printed (handler true)
      (reading (codes "SELECT a FROM t") (some (codes "other")) none) refl
