-- ===== src/Backend/Mysql/Guarded.antt =====
-- crates/mysql/src: what read-only mode lets reach the server.
use dbmcp.Prelude.{
  ℕ, Bytes, codes, ◌≡◌, refl, sym, subst, ◌⊎◌, inl, inr, List, [], ◌++◌, Bool, true, false, Option,
  none, some, ok, All, arith,
}
use dbmcp.Pii.Redactor.Json.{Value}
use dbmcp.Server.Listing.{Cursor, bound_limit, bound_offset}
use dbmcp.Sql.Pagination.{with_limit_offset}
use dbmcp.Sql.Validation.{
  StatementKind, select, non_select, Parser, validate_read_only, validate_single_statement,
}
use dbmcp.Sql.Validation.ReadOnly.{Result-cases}
use dbmcp.Backend.{
  Driver, Sent, Run, ◌>>=◌, lift, read_only_begin, fetch_json_read_only, ToolSpec, from_specs,
  route,
}
use dbmcp.Backend.Mysql.{
  ToolError, MysqlHandler, Response, read_response, query_response, pool_of, sql, page_of, redact,
  paginated, fetched, read_query, vetted, explain_sql, explained, explain_query, drop_table,
  drop_database, create_database, unless_read_only,
}
use dbmcp.Backend.Mysql.Calls.{
  Call, reading, explaining, writing, dropping_table, dropping_database, creating_database,
  unless_pinned, is_pinned, invoke, routed, tools, call,
}
use dbmcp.Backend.Mysql.Sends.{Sends, bind-Sends, checked-Sends, sql-Sends, fetch-Sends}

module _ (driver : Driver) (parser : Parser) (to_string : ℕ → Bytes) (h : MysqlHandler) where
  -- Where the text of a statement comes from: the query of the caller, which has passed the check of
  -- read-only mode, paged where it is a query, or the caller's text behind one of the two prefixes:
  -- with ANALYZE it has passed the check of read-only mode, without it the one for a single statement.
  abbrev pub From : Call → Bytes → Type 0
  From (reading text database cursor) s =
      ((validate_read_only parser text ≡ ok select)
        × (s
            ≡ with_limit_offset to_string text (bound_limit (page_of h cursor))
                (bound_offset (page_of h cursor))))
      ⊎ ((validate_read_only parser text ≡ ok non_select) × (s ≡ text))
  From (explaining database text true) s =
      ((kind : StatementKind) × (validate_read_only parser text ≡ ok kind))
      × (s ≡ codes "EXPLAIN ANALYZE " ++ text)
  From (explaining database text false) s =
      (validate_single_statement parser text ≡ ok tt) × (s ≡ codes "EXPLAIN FORMAT=JSON " ++ text)
  From (writing text database) s = ⊥
  From (dropping_table database table) s = ⊥
  From (dropping_database database) s = ⊥
  From (creating_database database) s = ⊥

  abbrev pub Guarded : Call → Sent → Type 0
  Guarded c s = (s.transaction ≡ some (codes "START TRANSACTION READ ONLY")) × From c s.sql

  redact-Sends :
      {B : Type 0} (P : Sent → Type 0) (rows : List Value) (f : Value → Run ToolError B)
      → ((a : Value) → Sends P (f a))
      → Sends P (redact driver parser to_string h rows >>= f)
  unfolding redact
  redact-Sends P rows f hf = bind-Sends P (redact driver parser to_string h rows) f (λ _ k. k) hf

  fetched-Sends :
      (c : Call) (text : Bytes) (database : Option Bytes) (cursor : Option Cursor)
      (kind : StatementKind)
      → ((s : Bytes) → From (reading text none cursor) s → From c s)
      → validate_read_only parser text ≡ ok kind
      → Sends (Guarded c) (fetched driver parser to_string h text database cursor kind)
  unfolding fetched paginated sql
  fetched-Sends c text database cursor select from ok_kind = λ log k.
      let page = page_of h cursor in
      let s = with_limit_offset to_string text (bound_limit page) (bound_offset page) in
      sql-Sends (Guarded c) (fetch_json_read_only driver h.query_timeout (pool_of h database) s)
        (fetch-Sends (Guarded c) driver h.query_timeout (pool_of h database) s
          (refl, from s (inl (ok_kind, refl))))
        log k
  fetched-Sends c text database cursor non_select from ok_kind =
      bind-Sends (Guarded c)
        (sql (fetch_json_read_only driver h.query_timeout (pool_of h database) text))
        (λ rows. lift (ok (rows, none)))
        (sql-Sends (Guarded c)
          (fetch_json_read_only driver h.query_timeout (pool_of h database) text)
          (fetch-Sends (Guarded c) driver h.query_timeout (pool_of h database) text
            (refl, from text (inr (ok_kind, refl)))))
        (λ _ _ k. k)

  reading-Sends :
      (text : Bytes) (database database' : Option Bytes) (cursor : Option Cursor)
      → Sends
          (Guarded (reading text database' cursor))
          (read_query driver parser to_string h text database cursor)
  unfolding read_query
  reading-Sends text database database' cursor =
      let c : Call = reading text database' cursor in
      checked-Sends (Guarded c) (validate_read_only parser text) _ λ kind ok_kind.
        bind-Sends (Guarded c) (fetched driver parser to_string h text database cursor kind)
          (λ found. redact driver parser to_string h found.0 >>= λ rows.
            lift (ok (read_response rows found.1)))
          (fetched-Sends c text database cursor kind (λ _ from. from) ok_kind)
          (λ found. redact-Sends (Guarded c) found.0 _ (λ _ _ k. k))

  explained-Sends :
      (P : Sent → Type 0) (text : Bytes) (database : Option Bytes) (b : Bool)
      → b ≡ true
      → P (record {
        transaction = some read_only_begin;
        pool = pool_of h database;
        sql = text;
        binds = [];
      })
      → Sends P (explained driver parser to_string h text database b)
  unfolding explained
  explained-Sends P text database true ro p =
      fetch-Sends P driver h.query_timeout (pool_of h database) text p
  explained-Sends P text database false ro p = cc

  explain-From :
      (database : Option Bytes) (text : Bytes) (analyze : Bool)
      → vetted driver parser to_string h text analyze true ≡ ok tt
      → From (explaining database text analyze) (explain_sql driver parser to_string h text analyze)
  unfolding vetted explain_sql
  explain-From database text false passed = (passed, refl)
  explain-From database text true passed = elim (Result-cases (validate_read_only parser text)) [
    | inl (kind, e) ↦ ((kind, e), refl)
    | inr (e, failed) ↦ absurd (ground arith)
  ]

  explaining-Sends :
      (database database' : Option Bytes) (text : Bytes) (analyze : Bool)
      → h.read_only ≡ true
      → Sends
          (Guarded (explaining database' text analyze))
          (explain_query driver parser to_string h database text analyze)
  unfolding explain_query redact
  explaining-Sends database database' text analyze ro =
      let c : Call = explaining database' text analyze in
      let s = explain_sql driver parser to_string h text analyze in
      let m = sql (explained driver parser to_string h s database h.read_only) in
      checked-Sends (Guarded c) (vetted driver parser to_string h text analyze h.read_only) _
        λ _ passed.
          bind-Sends (Guarded c) (m >>= redact driver parser to_string h)
            (λ rows. lift (ok (query_response rows)))
            (bind-Sends (Guarded c) m (redact driver parser to_string h)
              (sql-Sends (Guarded c) (explained driver parser to_string h s database h.read_only) (
                explained-Sends (Guarded c) s database h.read_only ro (
                  refl,
                  explain-From database' text analyze (
                      subst (λ b. vetted driver parser to_string h text analyze b ≡ ok tt) ro
                        passed),
                )))
              (λ _ _ k. k))
            (λ _ _ k. k)

  unless-Sends :
      (P : Sent → Type 0) (b : Bool) (m : Run ToolError Response)
      → b ≡ true
      → Sends P (unless_read_only driver parser to_string h b m)
  unfolding unless_read_only
  unless-Sends P true m ro = λ _ k. k
  unless-Sends P false m ro = cc

  abbrev ReadsOnly : Call → Type 0
  ReadsOnly (writing text database) = ⊥
  ReadsOnly (reading text database cursor) = Unit
  ReadsOnly (explaining database text analyze) = Unit
  ReadsOnly (dropping_table database table) = Unit
  ReadsOnly (dropping_database database) = Unit
  ReadsOnly (creating_database database) = Unit

  invoke-Sends :
      (c : Call) (pinned : Bool)
      → h.read_only ≡ true
      → ReadsOnly c
      → Sends (Guarded c) (invoke driver parser to_string h pinned c)
  unfolding invoke drop_table drop_database create_database
  invoke-Sends (reading text database cursor) pinned ro reads =
      reading-Sends text (unless_pinned driver parser to_string h pinned database) database cursor
  invoke-Sends (explaining database text analyze) pinned ro reads =
      explaining-Sends (unless_pinned driver parser to_string h pinned database) database text
        analyze ro
  invoke-Sends (writing text database) pinned ro reads = absurd reads
  invoke-Sends (dropping_table database table) pinned ro reads =
      unless-Sends (Guarded (dropping_table database table)) h.read_only _ ro
  invoke-Sends (dropping_database database) pinned ro reads =
      unless-Sends (Guarded (dropping_database database)) h.read_only _ ro
  invoke-Sends (creating_database database) pinned ro reads =
      unless-Sends (Guarded (creating_database database)) h.read_only _ ro

  -- Read-only mode has no route for `writeQuery`.
  unrouted :
      (read_only pinned : Bool)
      → read_only ≡ true
      → route (codes "writeQuery") (from_specs tools read_only pinned) ≡ none
  unfolding route from_specs tools
  unrouted true true ro = refl
  unrouted true false ro = refl
  unrouted false pinned ro = cc

  routed-Sends :
      (c : Call) (spec : Option ToolSpec)
      → h.read_only ≡ true
      → ReadsOnly c
      → Sends (Guarded c) (routed driver parser to_string h c spec)
  unfolding routed
  routed-Sends c none ro reads = λ _ k. k
  routed-Sends c (some spec) ro reads = invoke-Sends c spec.pinned ro reads

  calls : (c : Call) → h.read_only ≡ true → Sends (Guarded c) (call driver parser to_string h c)
  unfolding call routed
  calls (writing text database) ro =
      subst
        (λ o.
          Sends (Guarded (writing text database))
            (routed driver parser to_string h (writing text database) o))
        (sym (unrouted h.read_only (is_pinned driver parser to_string h h.name) ro)) (λ _ k. k)
  calls (reading text database cursor) ro = routed-Sends (reading text database cursor) _ ro tt
  calls (explaining database text analyze) ro =
      routed-Sends (explaining database text analyze) _ ro tt
  calls (dropping_table database table) ro = routed-Sends (dropping_table database table) _ ro tt
  calls (dropping_database database) ro = routed-Sends (dropping_database database) _ ro tt
  calls (creating_database database) ro = routed-Sends (creating_database database) _ ro tt

-- In read-only mode, whatever tool is called and whatever the database answers, each statement that
-- is sent is in a transaction begun as read only, and is the caller's query, which has passed the
-- check of read-only mode, paged where it is a query, or the caller's text behind `EXPLAIN ANALYZE`,
-- where it has passed the same check, or behind `EXPLAIN FORMAT=JSON`, where it is a single statement.
pub call-Guarded :
    (driver : Driver) (parser : Parser) (to_string : ℕ → Bytes) (h : MysqlHandler) (c : Call)
    → h.read_only ≡ true
    → All (Guarded driver parser to_string h c) (call driver parser to_string h c []).1
call-Guarded driver parser to_string h c ro = calls driver parser to_string h c ro [] tt
