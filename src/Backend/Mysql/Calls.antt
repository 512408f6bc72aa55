-- ===== src/Backend/Mysql/Calls.antt =====
-- crates/mysql/src/handler.rs: the registry of the tools, and a call of one of the modelled by its name.
use dbmcp.Prelude.{
  ℕ, Bytes, String, codes, List, [], ◌∷◌, Bool, true, false, Option, none, some, err,
}
use dbmcp.Server.Listing.{Cursor}
use dbmcp.Sql.Validation.{Parser}
use dbmcp.Backend.{Driver, Run, lift, ToolSpec, from_specs, route}
use dbmcp.Backend.Mysql.{
  ToolError, no_such_tool, MysqlHandler, Response, read_query, explain_query, write_query,
  drop_table, drop_database, create_database,
}

abbrev row : String → Bool → Bool → ToolSpec
row name pinned read_only = record { name = codes name; pinned = pinned; read_only = read_only }

-- `TOOLS`
unfoldable pub tools : List ToolSpec
tools =
    row "listDatabases" false false
    ∷ row "listTables" true false
    ∷ row "listTables" false false
    ∷ row "listViews" true false
    ∷ row "listViews" false false
    ∷ row "listTriggers" true false
    ∷ row "listTriggers" false false
    ∷ row "listFunctions" true false
    ∷ row "listFunctions" false false
    ∷ row "listProcedures" true false
    ∷ row "listProcedures" false false
    ∷ row "readQuery" true false
    ∷ row "readQuery" false false
    ∷ row "explainQuery" true false
    ∷ row "explainQuery" false false
    ∷ row "createDatabase" false true
    ∷ row "dropDatabase" false true
    ∷ row "dropTable" true true
    ∷ row "dropTable" false true
    ∷ row "writeQuery" true true
    ∷ row "writeQuery" false true
    ∷ []

-- The calls that are modelled, with their parameters.
pub data Call : Type 0 where
  reading : (text : Bytes) → (database : Option Bytes) → (cursor : Option Cursor) → Call
  explaining : (database : Option Bytes) → (text : Bytes) → (analyze : Bool) → Call
  writing : (text : Bytes) → (database : Option Bytes) → Call
  dropping_table : (database : Option Bytes) → (table : Bytes) → Call
  dropping_database : (database : Bytes) → Call
  creating_database : (database : Bytes) → Call

abbrev pub name_of : Call → Bytes
name_of (reading text database cursor) = codes "readQuery"
name_of (explaining database text analyze) = codes "explainQuery"
name_of (writing text database) = codes "writeQuery"
name_of (dropping_table database table) = codes "dropTable"
name_of (dropping_database database) = codes "dropDatabase"
name_of (creating_database database) = codes "createDatabase"

module _ (driver : Driver) (parser : Parser) (to_string : ℕ → Bytes) (h : MysqlHandler) where
  pub is_pinned : Option Bytes → Bool
  is_pinned none = false
  is_pinned (some name) = true

  -- `invoke` of the tools: a pinned one passes no database.
  pub unless_pinned : Bool → Option Bytes → Option Bytes
  unless_pinned true database = none
  unless_pinned false database = database

  unfoldable pub invoke : Bool → Call → Run ToolError Response
  unfolding unless_pinned read_query explain_query write_query drop_table drop_database
      create_database
  invoke pinned (reading text database cursor) =
      read_query driver parser to_string h text (unless_pinned pinned database) cursor
  invoke pinned (explaining database text analyze) =
      explain_query driver parser to_string h (unless_pinned pinned database) text analyze
  invoke pinned (writing text database) =
      write_query driver parser to_string h text (unless_pinned pinned database)
  invoke pinned (dropping_table database table) =
      drop_table driver parser to_string h (unless_pinned pinned database) table
  invoke pinned (dropping_database database) = drop_database driver parser to_string h database
  invoke pinned (creating_database database) = create_database driver parser to_string h database

  unfoldable pub routed : Call → Option ToolSpec → Run ToolError Response
  unfolding invoke
  routed c none = lift (err (no_such_tool (name_of c)))
  routed c (some spec) = invoke spec.pinned c

  -- A call of a tool by its name, over the registry that `new` makes.
  unfoldable pub call : Call → Run ToolError Response
  unfolding routed tools route from_specs is_pinned
  call c = routed c (route (name_of c) (from_specs tools h.read_only (is_pinned h.name)))
