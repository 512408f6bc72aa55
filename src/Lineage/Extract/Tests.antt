-- ===== src/Lineage/Extract/Tests.antt =====
-- `MERGE` that sets a column twice, and two statements at once.
use dbmcp.Prelude.{◌≡◌, refl, Bytes, codes, [], ◌∷◌, none, some, ok, err}
use dbmcp.Lineage.Model.{TableRef, Lineage, multi_statement}
use dbmcp.Lineage.Ast.{ObjectName, compound_identifier, table, Events, no_events, pre_visit_expr}
use dbmcp.Lineage.Resolve.Positions.{Placed}
use dbmcp.Lineage.Statement.{Assignment, update_set, Statement, merge_statement, other_statement}
use dbmcp.Lineage.Extract.{extract}
use dbmcp.Lineage.Extract.Places.{extract-Placed}

abbrev named : Bytes → ObjectName
named name = record { parts = some name ∷ []; printed = name }

abbrev from_s : Bytes → Events
from_s column = pre_visit_expr (compound_identifier (codes "s" ∷ column ∷ [])) no_events

abbrev sets : Bytes → Assignment
sets column = record { target = some (named (codes "a")); value = from_s column }

abbrev merge : Statement
merge = merge_statement (record {
  target_factor = table (named (codes "t")) none;
  source_factor = table (named (codes "s")) none;
  clauses = update_set (sets (codes "x") ∷ []) ∷ update_set (sets (codes "y") ∷ []) ∷ [];
})

abbrev bare : Bytes → TableRef
bare name = record { database = none; schema = none; name = name }

abbrev merge_lineage : Lineage
merge_lineage = record {
  columns =
      record {
        name = some (codes "a");
        position = 0;
        sources =
            record { table = bare (codes "s"); column = codes "x" }
            ∷ record { table = bare (codes "s"); column = codes "y" }
            ∷ [];
      }
      ∷ [];
  tables = bare (codes "s") ∷ [];
  target = some (bare (codes "t"));
}

merges : extract (ok (merge ∷ [])) ≡ ok merge_lineage
unfolding extract
merges = refl

two_statements : extract (ok (merge ∷ other_statement ∷ [])) ≡ err multi_statement
unfolding extract
two_statements = refl

extract-Placed_example : Placed 0 merge_lineage.columns
extract-Placed_example = extract-Placed (ok (merge ∷ [])) merge_lineage merges
