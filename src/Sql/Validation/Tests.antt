-- ===== src/Sql/Validation/Tests.antt =====
-- Read-only mode at a small parser, which knows two texts.
use dbmcp.Prelude.{
  ℕ, suc, ◌<◌, ◌≡◌, refl, Bytes, codes, List, [], ◌∷◌, map, Result, ok, err, false, arith, trim,
  bytes_eq, to_ascii_uppercase, if◌then◌else◌, none,
}
use dbmcp.Sql.Error.{read_only_violation, load_file_blocked, into_outfile_blocked}
use dbmcp.Sql.Functions.{NamePart, identifier, dangerous_function}
use dbmcp.Sql.Validation.{
  non_select, View, query_view, explain, other_view, Node, statement, function_call, Parser,
  mentions_outfile, validate_read_only,
}
use dbmcp.Sql.Validation.ReadOnly.{ReadOnly, of_query, of_explain}
use dbmcp.Sql.Validation.Accepts.{validate_read_only-ReadOnly, ReadOnly-validate_read_only}

-- A query that calls one function, a `DELETE`, and an `EXPLAIN`.
data Sample : Type 0 where
  calls : List NamePart → Sample
  deletes : Sample
  explains : Sample → Sample

abbrev sample_view : Sample → View Sample
sample_view (calls name) = query_view
sample_view deletes = other_view
sample_view (explains s) = explain s

abbrev sample_nodes : Sample → List (Node Sample)
sample_nodes (calls name) = statement (calls name) ∷ function_call name ∷ []
sample_nodes deletes = statement deletes ∷ []
sample_nodes (explains s) = statement (explains s) ∷ sample_nodes s

abbrev sample_depth : Sample → ℕ
sample_depth (calls name) = 0
sample_depth deletes = 0
sample_depth (explains s) = suc (sample_depth s)

abbrev version : Sample
version = calls (identifier (codes "version") ∷ [])

abbrev reads_file : Sample
reads_file = calls (identifier (codes "pg_catalog") ∷ identifier (codes "LOAD_FILE") ∷ [])

abbrev sample_parse : Bytes → Result (List Sample) Bytes
sample_parse s =
    if bytes_eq s (codes "EXPLAIN SELECT version()")
    then ok (explains version ∷ [])
    else if bytes_eq s (codes "SELECT LOAD_FILE()")
    then ok (reads_file ∷ [])
    else if bytes_eq s (codes "EXPLAIN DELETE")
    then ok (explains deletes ∷ [])
    else err (codes "syntax")

abbrev sample_parser : Parser
sample_parser = record {
  Statement = Sample;
  view = sample_view;
  nodes = sample_nodes;
  depth = sample_depth;
  parse_sql = sample_parse;
  to_uppercase = map to_ascii_uppercase;
}

abbrev text : Bytes
text = codes " EXPLAIN SELECT version() "

lets_through : validate_read_only sample_parser text ≡ ok non_select
unfolding validate_read_only bytes_eq to_ascii_uppercase
lets_through = refl

-- A qualified call in another case.
blocks_load_file :
    validate_read_only sample_parser (codes "SELECT LOAD_FILE()") ≡ err load_file_blocked
unfolding validate_read_only bytes_eq to_ascii_uppercase
blocks_load_file = refl

blocks_explained_delete :
    validate_read_only sample_parser (codes "EXPLAIN DELETE") ≡ err read_only_violation
unfolding validate_read_only bytes_eq to_ascii_uppercase
blocks_explained_delete = refl

blocks_outfile :
    validate_read_only sample_parser (codes "select 1 into outfile") ≡ err into_outfile_blocked
unfolding validate_read_only bytes_eq to_ascii_uppercase
blocks_outfile = refl

trimmed : trim text ≡ codes "EXPLAIN SELECT version()"
unfolding trim
trimmed = refl

not_blank : trim text ≡ [] → ⊥
unfolding trim
not_blank h = ground arith

clear : mentions_outfile (map to_ascii_uppercase (trim text)) ≡ false
unfolding mentions_outfile to_ascii_uppercase trim
clear = refl

parses : sample_parse (trim text) ≡ ok (explains version ∷ [])
unfolding bytes_eq trim
parses = refl

allowed : dangerous_function (identifier (codes "version") ∷ []) ≡ none
unfolding dangerous_function
allowed = refl

version-ReadOnly : ReadOnly sample_parser (explains version) non_select
version-ReadOnly = of_explain refl (of_query refl (refl, (allowed, tt)))

less_deep : (s t : Sample) → sample_view s ≡ explain t → sample_depth t < sample_depth s
less_deep (calls name) t h = absurd (ground arith)
less_deep deletes t h = absurd (ground arith)
less_deep (explains s) t h = ground arith

validate_read_only-ReadOnly_example :
    (mentions_outfile (map to_ascii_uppercase (trim text)) ≡ false)
    × ((s : Sample) × (sample_parse (trim text) ≡ ok (s ∷ []))
        × ReadOnly sample_parser s non_select)
validate_read_only-ReadOnly_example =
    validate_read_only-ReadOnly sample_parser text non_select lets_through

ReadOnly-validate_read_only_example : validate_read_only sample_parser text ≡ ok non_select
ReadOnly-validate_read_only_example =
    ReadOnly-validate_read_only sample_parser text (explains version) non_select less_deep not_blank
      clear parses version-ReadOnly
