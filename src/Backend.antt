-- ===== src/Backend.antt =====
-- crates/sql/src/connection.rs and timeout.rs, and the registry of crates/server/src/tool.rs. The
-- driver is a parameter: what it answers to a statement, after what was sent before.
pub mod Mysql
use dbmcp.Prelude.{
  ℕ, ltb, Bytes, codes, List, [], ◌∷◌, ◌++◌, Bool, true, not, ◌&&◌, ◌||◌, Option, none, some,
  Result, ok, err, bytes_eq, if◌then◌else◌,
}
use dbmcp.Pii.Redactor.Json.{Value}
use dbmcp.Sql.Error.{SqlError, query_timeout, query, connection}

-- `sqlx::Error`, by what it prints.
pub data DriverError : Type 0 where
  io tls protocol pool_timed_out pool_closed worker_crashed other_error : Bytes → DriverError

-- A statement on its way to the server: the text that began its transaction, if it is in one, the
-- database of its pool, and the text with what is bound to it.
pub record Sent : Type 0 where
  pub transaction : Option Bytes
  pub pool : Bytes
  pub sql : Bytes
  pub binds : List Bytes

-- `elapsed` says whether the deadline of a statement passes, and the seconds.
pub record Driver : Type 0 where
  pub begin_with : List Sent → Bytes → Result (Unit {0}) DriverError
  pub fetch_all : List Sent → Sent → Result (List Value) DriverError
  pub rollback : List Sent → Result (Unit {0}) DriverError
  pub elapsed : List Sent → Bytes → Option ℕ

-- What was sent is kept, the latest last, whatever comes of a step.
abbrev pub Run : Type 0 → Type 0 → Type 0
Run E A = List Sent → Result A E × List Sent

infixl 5 ◌>>=◌
abbrev pub ◌>>=◌ : {E A B : Type 0} → Run E A → (A → Run E B) → Run E B
◌>>=◌ m f log = let (r, log') = m log in elim r [ ok a ↦ f a log' | err e ↦ (err e, log') ]

abbrev pub lift : {E A : Type 0} → Result A E → Run E A
lift r log = (r, log)

-- The errors of `execute_with_timeout`.
sql_error : DriverError → SqlError
sql_error (io e) = connection e
sql_error (tls e) = connection e
sql_error (protocol e) = connection e
sql_error (pool_timed_out e) = connection e
sql_error (pool_closed e) = connection e
sql_error (worker_crashed e) = connection e
sql_error (other_error e) = query e

in_time : {A : Type 0} → Bytes → Option ℕ → Result A DriverError → Result A SqlError
unfolding sql_error
in_time sql (some secs) r = err (query_timeout secs sql)
in_time sql none (ok a) = ok a
in_time sql none (err e) = err (sql_error e)

abbrev pub read_only_begin : Bytes
read_only_begin = codes "START TRANSACTION READ ONLY"

module _ (driver : Driver) where
  -- A statement counts as sent also where the deadline passes.
  unfoldable pub execute_with_timeout :
      {A : Type 0} → ℕ → Bytes → Run DriverError A → Run SqlError A
  unfolding in_time
  execute_with_timeout timeout_secs sql op log =
      let (r, log') = op log in
      (in_time sql (if ltb 0 timeout_secs then driver.elapsed log sql else none) r, log')

  unfoldable pub send : Sent → Run DriverError (List Value)
  send s log = (driver.fetch_all log s, log ++ s ∷ [])

  -- `Connection::fetch_json`; also `execute`, of which the callers drop the count, and
  -- `fetch_optional`, whose callers take the first row.
  unfoldable pub fetch_json : ℕ → Bytes → Bytes → List Bytes → Run SqlError (List Value)
  unfolding execute_with_timeout send
  fetch_json timeout pool sql binds =
      execute_with_timeout timeout sql
        (send (record { transaction = none; pool = pool; sql = sql; binds = binds }))

  ended : List Value → Result (Unit {0}) DriverError → Result (List Value) DriverError
  ended rows (ok _) = ok rows
  ended rows (err e) = err e

  unfoldable pub begin_read_only : Run DriverError (Unit {0})
  begin_read_only log = (driver.begin_with log read_only_begin, log)

  unfoldable pub roll_back : List Value → Run DriverError (List Value)
  unfolding ended
  roll_back rows log = (ended rows (driver.rollback log), log)

  -- `Connection::fetch_json_read_only`
  unfoldable pub fetch_json_read_only : ℕ → Bytes → Bytes → Run SqlError (List Value)
  unfolding execute_with_timeout send begin_read_only roll_back
  fetch_json_read_only timeout pool sql =
      let s : Sent = record {
        transaction = some read_only_begin;
        pool = pool;
        sql = sql;
        binds = [];
      } in
      execute_with_timeout timeout sql (begin_read_only >>= λ _. send s >>= roll_back)

-- `ToolSpec`, by the name of the tool.
pub record ToolSpec : Type 0 where
  pub name : Bytes
  pub pinned : Bool
  pub read_only : Bool

bool_eq : Bool → Bool → Bool
bool_eq a b = if a then b else not b

-- `from_specs`: the tools that the mode allows.
unfoldable pub from_specs : List ToolSpec → Bool → Bool → List ToolSpec
unfolding bool_eq
from_specs [] read_only pinned = []
from_specs (spec ∷ specs) read_only pinned =
    let rest = from_specs specs read_only pinned in
    if (not spec.read_only || not read_only) && bool_eq spec.pinned pinned
    then spec ∷ rest
    else rest

-- The route of a name.
unfoldable pub route : Bytes → List ToolSpec → Option ToolSpec
unfolding bytes_eq
route name [] = none
route name (spec ∷ specs) =
    let later = route name specs in if bytes_eq spec.name name then some spec else later
