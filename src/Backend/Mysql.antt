-- ===== src/Backend/Mysql.antt =====
-- crates/mysql/src/handler.rs and the tools of crates/mysql/src/tools that take a statement or change
-- the schema. The pool of a database is its name; the redaction of rows is a field of the handler,
-- which `Pii.Redactor.redact_rows` fills.
pub mod Calls
pub mod Sends
pub mod Guarded
mod Tests
use dbmcp.Prelude.{
  ℕ, Bytes, String, codes, List, [], ◌∷◌, ◌++◌, map, Bool, true, false, Option, none, some, Result,
  ok, err, trim, bytes_eq, to_ascii_lowercase, if◌then◌else◌,
}
use dbmcp.Pii.Redactor.Json.{Value, Items, no_items, item, string, object, field}
use dbmcp.Pii.Redactor.{RowsError}
use dbmcp.Server.Listing.{Cursor, Page, paginate, bound_limit, bound_offset}
use dbmcp.Sql.Error.{SqlError, read_only_violation, query}
use dbmcp.Sql.Pagination.{with_limit_offset}
use dbmcp.Sql.Sanitize.{quote_ident}
use dbmcp.Sql.Validation.{
  StatementKind, select, non_select, Parser, Checked, validate_read_only, validate_single_statement,
}
use dbmcp.Backend.{
  Driver, Run, ◌>>=◌, lift, fetch_json, fetch_json_read_only, ToolSpec, from_specs, route,
}

pub data ToolError : Type 0 where
  sql_failed : SqlError → ToolError
  redaction_failed : RowsError → ToolError
  no_such_tool : Bytes → ToolError

pub record MysqlHandler : Type 0 where
  pub read_only : Bool
  pub name : Option Bytes
  pub page_size : ℕ
  pub query_timeout : ℕ
  pub redact_rows : Items → Result Value RowsError

pub data Response : Type 0 where
  read_response : Value → Option Cursor → Response
  query_response : Value → Response
  message_response : Bytes → Response

-- `str::trim` and `filter(|s| !s.is_empty())`, and the database of the pool.
non_empty : Bytes → Bytes → Bytes
non_empty default [] = default
non_empty default (c ∷ name) = c ∷ name

-- `default_database_name`
default_database_name : Option Bytes → Bytes
default_database_name none = []
default_database_name (some name) = name

pub pool_of : MysqlHandler → Option Bytes → Bytes
unfolding default_database_name
pool_of h none = default_database_name h.name
pool_of h (some database) = non_empty (default_database_name h.name) (trim database)

items_of : List Value → Items
items_of [] = no_items
items_of (v ∷ vs) = item v (items_of vs)

pub fails : {A : Type 0} → Result A SqlError → Result A ToolError
fails (ok a) = ok a
fails (err e) = err (sql_failed e)

redacted : Result Value RowsError → Result Value ToolError
redacted (ok v) = ok v
redacted (err e) = err (redaction_failed e)

-- `?` on a step of the connection.
pub sql : {A : Type 0} → Run SqlError A → Run ToolError A
unfolding fails
sql m log = let (r, log') = m log in (fails r, log')

offset_of : Option Cursor → ℕ
offset_of none = 0
offset_of (some c) = c.offset

pub page_of : MysqlHandler → Option Cursor → Page
unfolding offset_of
page_of h cursor = record { offset = offset_of cursor; size = h.page_size }

eq_ignore_ascii_case : Bytes → Bytes → Bool
unfolding bytes_eq to_ascii_lowercase
eq_ignore_ascii_case a b = bytes_eq (map to_ascii_lowercase a) (map to_ascii_lowercase b)

-- `row.and_then(|r| r.try_get(0usize).ok())` for a text: nothing where there is no row, or where its
-- first column is NULL or no text.
first_name : List Value → Option Bytes
first_name (object (field column (string name) others) ∷ rows) = some name
first_name _ = none

module _ (driver : Driver) (parser : Parser) (to_string : ℕ → Bytes) (h : MysqlHandler) where
  pub redact : List Value → Run ToolError Value
  unfolding items_of redacted
  redact rows = lift (redacted (h.redact_rows (items_of rows)))

  -- `listing::paginate`, whose fetch is made once.
  paginated :
      Option Cursor
      → (Page → Run ToolError (List Value))
      → Run ToolError (List Value × Option Cursor)
  unfolding page_of
  paginated cursor fetch log =
      let (r, log') = fetch (page_of h cursor) log in (paginate cursor h.page_size (λ _. r), log')

  fetched :
      Bytes
      → Option Bytes
      → Option Cursor
      → StatementKind
      → Run ToolError (List Value × Option Cursor)
  unfolding paginated
  fetched text database cursor select = paginated cursor λ page. sql (
      fetch_json_read_only driver h.query_timeout (pool_of h database)
        (with_limit_offset to_string text (bound_limit page) (bound_offset page)))
  fetched text database cursor non_select =
      sql (fetch_json_read_only driver h.query_timeout (pool_of h database) text) >>= λ rows.
      lift (ok (rows, none))

  pub read_query : Bytes → Option Bytes → Option Cursor → Run ToolError Response
  unfolding fetched redact fails
  read_query text database cursor = lift (fails (validate_read_only parser text)) >>= λ kind.
      fetched text database cursor kind >>= λ found.
      redact found.0 >>= λ rows. lift (ok (read_response rows found.1))

  -- The check in front of an `EXPLAIN`.
  pub vetted : Bytes → Bool → Bool → Result (Unit {0}) SqlError
  vetted text true true = elim (validate_read_only parser text) [ ok _ ↦ ok tt | err e ↦ err e ]
  vetted text true false = validate_single_statement parser text
  vetted text false read_only = validate_single_statement parser text

  pub explain_sql : Bytes → Bool → Bytes
  explain_sql text true = codes "EXPLAIN ANALYZE " ++ text
  explain_sql text false = codes "EXPLAIN FORMAT=JSON " ++ text

  explained : Bytes → Option Bytes → Bool → Run SqlError (List Value)
  explained text database true =
      fetch_json_read_only driver h.query_timeout (pool_of h database) text
  explained text database false = fetch_json driver h.query_timeout (pool_of h database) text []

  pub explain_query : Option Bytes → Bytes → Bool → Run ToolError Response
  unfolding vetted explain_sql explained redact fails
  explain_query database text analyze = lift (fails (vetted text analyze h.read_only)) >>= λ _.
      sql (explained (explain_sql text analyze) database h.read_only) >>= redact >>= λ rows.
      lift (ok (query_response rows))

  pub write_query : Bytes → Option Bytes → Run ToolError Response
  unfolding redact
  write_query text database =
      sql (fetch_json driver h.query_timeout (pool_of h database) text []) >>= redact >>= λ rows.
      lift (ok (query_response rows))

  -- `if self.config.read_only { return Err(..) }`
  unless_read_only : Bool → Run ToolError Response → Run ToolError Response
  unless_read_only true m = lift (err (sql_failed read_only_violation))
  unless_read_only false m = m

  -- A statement without rows, and the message behind it.
  changes : Bytes → Bytes → Bytes → Run ToolError Response
  changes pool text message = sql (fetch_json driver h.query_timeout pool text []) >>= λ _.
      lift (ok (message_response message))

  pub drop_table : Option Bytes → Bytes → Run ToolError Response
  unfolding unless_read_only changes
  drop_table database table = unless_read_only h.read_only (
      changes (pool_of h database) (codes "DROP TABLE " ++ quote_ident table b'`')
        (codes "Table '" ++ table ++ codes "' dropped successfully."))

  dropping : Bytes → Bool → Run ToolError Response
  unfolding changes
  dropping database true = lift (
      err (
        sql_failed (
          query
            (codes "Cannot drop the currently connected database '" ++ database ++ codes "'."))))
  dropping database false =
      changes (pool_of h none) (codes "DROP DATABASE " ++ quote_ident database b'`')
        (codes "Database '" ++ database ++ codes "' dropped successfully.")

  pub drop_database : Bytes → Run ToolError Response
  unfolding unless_read_only dropping
  drop_database database =
      unless_read_only h.read_only
        (dropping database (eq_ignore_ascii_case (default_database_name h.name) database))

  creating : Bytes → Option Bytes → Run ToolError Response
  unfolding changes
  creating database (some name) =
      lift (ok (message_response (codes "Database '" ++ database ++ codes "' already exists.")))
  creating database none =
      changes (pool_of h none) (codes "CREATE DATABASE IF NOT EXISTS " ++ quote_ident database b'`')
        (codes "Database '" ++ database ++ codes "' created successfully.")

  pub create_database : Bytes → Run ToolError Response
  unfolding unless_read_only creating first_name
  create_database database = unless_read_only h.read_only (
      sql (
        fetch_json driver h.query_timeout (pool_of h none)
          (codes
            "SELECT CAST(SCHEMA_NAME AS CHAR) FROM information_schema.SCHEMATA WHERE SCHEMA_NAME = ?")
          (database ∷ []))
      >>= λ rows. creating database (first_name rows))
