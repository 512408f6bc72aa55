-- ===== src/Sql/Functions.antt =====
-- crates/sql/src/validation.rs: the names of dangerous functions
pub mod Names
mod Tests
use dbmcp.Prelude.{
  Bytes, codes, List, [], ◌∷◌, map, Bool, ◌||◌, Option, none, some, any, bytes_eq, strip_prefix,
  to_ascii_lowercase, if◌then◌else◌,
}
use dbmcp.Sql.Error.{SqlError, load_file_blocked, dangerous_function_blocked}

-- `sqlparser`'s `ObjectNamePart`, as the code reads it: an identifier's value, or a part that only
-- prints.
pub data NamePart : Type 0 where
  identifier : Bytes → NamePart
  printed : Bytes → NamePart

abbrev load_file : Bytes
load_file = codes "load_file"

abbrev dangerous_functions : List Bytes
dangerous_functions = map codes (
    "load_file" ∷ "get_lock" ∷ "pg_cancel_backend" ∷ "pg_terminate_backend" ∷ "pg_reload_conf"
    ∷ "pg_rotate_logfile" ∷ "pg_switch_wal" ∷ "pg_promote" ∷ "pg_log_backend_memory_contexts"
    ∷ "pg_logical_emit_message" ∷ "pg_read_file" ∷ "pg_read_binary_file" ∷ "pg_ls_dir"
    ∷ "pg_stat_file" ∷ "lo_import" ∷ "lo_export" ∷ "setval" ∷ "readfile" ∷ "writefile"
    ∷ "load_extension" ∷ [])

abbrev dangerous_function_prefixes : List Bytes
dangerous_function_prefixes = map codes (
    "dblink" ∷ "pg_advisory" ∷ "pg_try_advisory" ∷ "pg_create_" ∷ "pg_drop_" ∷ "pg_copy_"
    ∷ "pg_replication_" ∷ "pg_stat_reset" ∷ "pg_wal_replay_" ∷ "pg_backup_" ∷ [])

-- `slice::last`
last : List NamePart → Option NamePart
last [] = none
last (p ∷ []) = some p
last (p ∷ q ∷ ps) = last (q ∷ ps)

-- `str::starts_with`
starts_with : Bytes → Bytes → Bool
unfolding strip_prefix
starts_with func prefix = elim (strip_prefix prefix func) [
  | some rest ↦ Bool.true
  | none ↦ Bool.false
]

text_of : NamePart → Bytes
text_of (identifier value) = value
text_of (printed shown) = shown

-- `DANGEROUS_FUNCTIONS.contains(func)`
listed : Bytes → Bool
unfolding bytes_eq
listed func = any (λ name. bytes_eq name func) dangerous_functions

prefixed : Bytes → Bool
unfolding starts_with
prefixed func = any (λ prefix. starts_with func prefix) dangerous_function_prefixes

verdict : Bytes → Option SqlError
unfolding listed prefixed bytes_eq
verdict func =
    if bytes_eq func load_file
    then some load_file_blocked
    else if listed func || prefixed func
    then some (dangerous_function_blocked func)
    else none

lowered : NamePart → Bytes
unfolding to_ascii_lowercase text_of
lowered part = map to_ascii_lowercase (text_of part)

unfoldable pub dangerous_function : List NamePart → Option SqlError
unfolding last verdict lowered
dangerous_function name = elim (last name) [ none ↦ none | some part ↦ verdict (lowered part) ]
