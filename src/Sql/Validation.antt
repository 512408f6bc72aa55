-- ===== src/Sql/Validation.antt =====
-- crates/sql/src/validation.rs over the parser of `sqlparser`
pub mod ReadOnly
pub mod Accepts
mod Tests
use dbmcp.Prelude.{
  ℕ, suc, zero, ◌<◌, ◌≡◌, Bytes, codes, List, [], ◌∷◌, ◌++◌, Bool, true, false, ◌||◌, Option, none,
  some, Result, ok, err, ◌>>=◌, trim, split_once, if◌then◌else◌,
}
use dbmcp.Sql.Error.{SqlError, read_only_violation, into_outfile_blocked, multi_statement, query}
use dbmcp.Sql.Functions.{NamePart, dangerous_function}

pub data StatementKind : Type 0 where
  select non_select : StatementKind

-- The statements that only read and are no queries.
pub data ReadStatement : Type 0 where
  show_tables show_columns show_create show_variable show_variables show_status : ReadStatement
  show_databases show_schemas show_collation show_functions show_views : ReadStatement
  show_objects explain_table use_statement : ReadStatement

-- What the code matches a `Statement` against.
pub data View (Statement : Type 0) : Type 0 where
  query_view : View Statement
  explain : Statement → View Statement
  reads : ReadStatement → View Statement
  other_view : View Statement

-- What a `Visitor` is called on.
pub data Node (Statement : Type 0) : Type 0 where
  -- a statement
  statement : Statement → Node Statement
  -- a `SELECT`, and whether it has an `INTO`
  select_node : Bool → Node Statement
  -- a function call's name
  function_call : List NamePart → Node Statement
  -- a table with its name, and whether it has arguments
  table : List NamePart → Bool → Node Statement
  -- `TableFactor::Function`
  table_function : List NamePart → Node Statement
  -- anything else
  other_node : Node Statement

-- The parser, and `str::to_uppercase`, which maps by the tables of Unicode.
pub record Parser : Type 1 where
  pub Statement : Type 0
  pub view : Statement → View Statement
  -- the nodes in the order of `Visit::visit`
  pub nodes : Statement → List (Node Statement)
  -- how deep a statement's tree is
  pub depth : Statement → ℕ
  pub parse_sql : Bytes → Result (List Statement) Bytes
  pub to_uppercase : Bytes → Bytes

abbrev parse_error : Bytes
parse_error = codes "SQL parse error: "

abbrev no_statement : Bytes
no_statement = codes "Query must contain a statement"

-- `str::contains`
contains : Bytes → Bytes → Bool
unfolding split_once
contains s part = elim (split_once part s) [ none ↦ false | some _ ↦ true ]

-- `Option::ok_or`
ok_or : {A : Type 0} → Option A → SqlError → Result A SqlError
ok_or none e = err e
ok_or (some a) e = ok a

-- `Vec::pop`
pop : {A : Type 0} → List A → Option A
pop [] = none
pop (a ∷ []) = some a
pop (a ∷ b ∷ l) = pop (b ∷ l)

-- The check for `INTO OUTFILE` and `INTO DUMPFILE` on the uppercased text.
pub mentions_outfile : Bytes → Bool
unfolding contains
mentions_outfile upper =
    contains upper (codes "INTO OUTFILE") || contains upper (codes "INTO DUMPFILE")

-- `Result<(), SqlError>`
abbrev pub Checked : Type 0
Checked = Result {0, 0} Unit SqlError

-- `Ok(())`, or the error.
none_found : Option SqlError → Checked
none_found none = ok tt
none_found (some e) = err e

module _ (parser : Parser) where
  open parser use {Statement, view, nodes, depth, parse_sql, to_uppercase}

  -- `DataModifyingQueryChecker`: whether it breaks at a node.
  pub breaks_modifying : Node Statement → Bool
  breaks_modifying (statement s) = elim (view s) [ query_view ↦ false | _ ↦ true ]
  breaks_modifying (select_node into) = into
  breaks_modifying _ = false

  -- `stmt.visit(…).is_break()`
  visit_modifying : List (Node Statement) → Bool
  unfolding breaks_modifying
  visit_modifying [] = false
  visit_modifying (n ∷ ns) =
      let rest = visit_modifying ns in if breaks_modifying n then true else rest

  pub check_data_modifying_queries : Statement → Checked
  unfolding visit_modifying
  check_data_modifying_queries stmt =
      if visit_modifying (nodes stmt) then err read_only_violation else ok tt

  -- `DangerousFunctionChecker`: what it finds at a node.
  pub found_at : Node Statement → Option SqlError
  unfolding dangerous_function
  found_at (function_call name) = dangerous_function name
  found_at (table name true) = dangerous_function name
  found_at (table_function name) = dangerous_function name
  found_at _ = none

  -- The visit stops at the first find.
  visit_dangerous : List (Node Statement) → Option SqlError
  unfolding found_at
  visit_dangerous [] = none
  visit_dangerous (n ∷ ns) =
      let rest = visit_dangerous ns in elim (found_at n) [ none ↦ rest | some e ↦ some e ]

  pub check_dangerous_functions : Statement → Checked
  unfolding visit_dangerous none_found
  check_dangerous_functions stmt = none_found (visit_dangerous (nodes stmt))

  -- `classify`, with fuel for the statements that `EXPLAIN` wraps.
  pub classify_within : ℕ → Statement → Result StatementKind SqlError
  unfolding check_data_modifying_queries check_dangerous_functions
  classify_within zero stmt = err read_only_violation
  classify_within (suc fuel) stmt = elim (view stmt) [
    | query_view ↦ do
      _ ← check_data_modifying_queries stmt
      _ ← check_dangerous_functions stmt
      ok select
    | explain inner ↦ do _ ← classify_within fuel inner; ok non_select
    | other_view ↦ err read_only_violation
    | reads _ ↦ ok non_select
  ]

  -- A statement that `EXPLAIN` wraps is less deep, so the depth is fuel enough.
  unfoldable pub classify : Statement → Result StatementKind SqlError
  unfolding classify_within
  classify stmt = classify_within (suc (depth stmt)) stmt

  single : List Statement → Result (Option Statement) SqlError
  unfolding pop
  single (s ∷ t ∷ ss) = err multi_statement
  single ss = ok (pop ss)

  parsed : Result (List Statement) Bytes → Result (List Statement) SqlError
  parsed (ok ss) = ok ss
  parsed (err e) = err (query (parse_error ++ e))

  pub parse_single : Bytes → Result (Option Statement) SqlError
  unfolding single parsed
  parse_single sql = do statements ← parsed (parse_sql sql); single statements

  read_only_of : Bytes → Result StatementKind SqlError
  unfolding parse_single classify ok_or mentions_outfile
  read_only_of [] = err read_only_violation
  read_only_of (c ∷ trimmed) =
      if mentions_outfile (to_uppercase (c ∷ trimmed)) then err into_outfile_blocked else do
        found ← parse_single (c ∷ trimmed)
        stmt ← ok_or found read_only_violation
        classify stmt

  unfoldable pub validate_read_only : Bytes → Result StatementKind SqlError
  unfolding read_only_of trim
  validate_read_only sql = read_only_of (trim sql)

  unfoldable pub validate_single_statement : Bytes → Checked
  unfolding parse_single ok_or trim
  validate_single_statement sql = do
    found ← parse_single (trim sql)
    _ ← ok_or found (query no_statement)
    ok tt
