-- ===== src/Pii/Redactor/Spans.antt =====
-- crates/pii/src/redact.rs: the statistics, and the rewriting of one string.
use dbmcp.Prelude.{ℕ, ◌+◌, ◌%◌, Bytes, List, [], ◌∷◌, ◌++◌, Option, some, if◌then◌else◌}
use dbmcp.Prelude.Opt.{◌>>=◌}
use dbmcp.Pii.Entity.{Entity, entity_eq}
use dbmcp.Pii.Score.{Score}
use dbmcp.Pii.Result.{RecognizerResult}
use dbmcp.Pii.Overlap.{resolve}
use dbmcp.Pii.Operators.{Digests}
use dbmcp.Pii.Anonymizer.{OperatorConfig, OperatorResult, anonymize}
use dbmcp.Pii.Analyzer.{at_least}

-- `by_entity` has the entities in the order they were first met in.
pub record RedactionStats : Type 0 where
  pub total : ℕ
  pub by_entity : List (Entity × ℕ)
  pub string_leaves_scanned : ℕ

abbrev pub no_stats : RedactionStats
no_stats = record { total = 0; by_entity = []; string_leaves_scanned = 0 }

-- `+= 1` on a `u64`
unfoldable pub increment : ℕ → ℕ
increment n = (n + 1) % 18446744073709551616

-- `*by_entity.entry(e).or_insert(0) += 1`
unfoldable pub count : Entity → List (Entity × ℕ) → List (Entity × ℕ)
unfolding increment entity_eq
count e [] = (e, increment 0) ∷ []
count e ((d, n) ∷ counts) =
    let rest = count e counts in if entity_eq e d then (d, increment n) ∷ counts else (d, n) ∷ rest

unfoldable pub count_all : List OperatorResult → RedactionStats → RedactionStats
unfolding count increment
count_all [] stats = stats
count_all (op ∷ ops) stats = count_all ops (record {
  total = increment stats.total;
  by_entity = count op.entity_type stats.by_entity;
  string_leaves_scanned = stats.string_leaves_scanned;
})

-- `merge_spans`
unfoldable pub merge_spans :
    List RecognizerResult → List RecognizerResult → Score → List RecognizerResult
unfolding at_least resolve
merge_spans regex ner min_score = resolve (regex ++ at_least min_score ner)

unfoldable pub scanned : RedactionStats → RedactionStats
unfolding increment
scanned stats = record {
  total = stats.total;
  by_entity = stats.by_entity;
  string_leaves_scanned = increment stats.string_leaves_scanned;
}

module _ (digests : Digests) (config : OperatorConfig) where
  -- `operations.is_empty()` of what `anonymize` returned.
  unfoldable pub applied :
      Bytes → List OperatorResult → Bytes → RedactionStats → Bytes × RedactionStats
  unfolding count_all
  applied s [] text stats = (s, stats)
  applied s (op ∷ ops) text stats = (text, count_all (op ∷ ops) stats)

  -- `apply_spans`
  unfoldable pub apply_spans :
      Bytes → List RecognizerResult → RedactionStats → Option (Bytes × RedactionStats)
  unfolding applied
  apply_spans s results stats = do
    anon ← anonymize digests s config results
    some (applied s anon.operations anon.text stats)

  -- `if !results.is_empty() { apply_spans(…) }`
  unfoldable pub apply_found :
      Bytes → List RecognizerResult → RedactionStats → Option (Bytes × RedactionStats)
  unfolding apply_spans
  apply_found s [] stats = some (s, stats)
  apply_found s (r ∷ rs) stats = apply_spans s (r ∷ rs) stats
