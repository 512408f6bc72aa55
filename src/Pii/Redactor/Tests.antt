-- ===== src/Pii/Redactor/Tests.antt =====
-- Rows with strings at several depths.
use dbmcp.Prelude.{
  ℕ, ◌≡◌, ◌≢◌, ◌+◌, ◌%◌, refl, inl, Bytes, codes, List, [], ◌∷◌, Option, some, none, ok, err, All,
  arith, true,
}
use dbmcp.Prelude.Opt.{◌>>=◌}
use dbmcp.Pii.Entity.{phone_number}
use dbmcp.Pii.Anonymizer.{from, pii_replace}
use dbmcp.Pii.Analyzer.Samples.{
  sample_digests, no_libraries, sample_unicode, half_sum, phones, with_settings, scores,
  half_is_positive, settled,
}
use dbmcp.Pii.Redactor.Json.{
  null, number, string, array, object, Items, no_items, item, no_fields, field, Loc,
}
use dbmcp.Pii.Redactor.Walk.{walk_rows, run-walk_rows}
use dbmcp.Pii.Redactor.Leaves.{leaves_items}
use dbmcp.Pii.Redactor.Redacts.{redacted_items, ranges_items, apply-redacted}
use dbmcp.Pii.Redactor.Defers.{texts_rows, apply-fails}
use dbmcp.Pii.Redactor.Spans.{RedactionStats, no_stats}
use dbmcp.Pii.Redactor.{
  Gathered, Redactor, Engine, inference_failed, run, row_frames, weight_items, visit_leaf, apply,
  redact_rows, task_panicked,
}

abbrev rows : Items
rows =
    item
      (object (
        field (codes "phone") (string (codes "my phone 415")) (
          field (codes "n") (number (codes "42"))
            (field (codes "list") (array (item (string (codes "none here")) no_items)) no_fields))))
      (item null no_items)

abbrev regex_only : Redactor
regex_only = record {
  recognizers = phones ∷ [];
  engine = none;
  operator = from pii_replace;
  opts = with_settings;
}

abbrev failing : Engine
failing texts = err (codes "shape")

abbrev with_engine : Redactor
with_engine = record regex_only { engine = some failing }

abbrev nothing : Gathered
nothing = record { stats = no_stats; slots = [] }

abbrev leaf_of : Redactor → Loc → List Bytes → Bytes → Gathered → Option (Bytes × Gathered)
leaf_of redactor = visit_leaf no_libraries sample_unicode half_sum sample_digests redactor

run-walk_rows_example :
    run (leaf_of regex_only) (weight_items rows) (row_frames 0 rows) [] (array rows) nothing
    ≡ (walk_rows (leaf_of regex_only) 0 rows nothing >>= λ r. some (array r.0, r.1))
run-walk_rows_example = run-walk_rows (leaf_of regex_only) rows nothing

redacts :
    (stats : RedactionStats) × (apply no_libraries sample_unicode half_sum sample_digests regex_only
        rows
      ≡ ok (
        array (
            item
              (object (
                field (codes "phone") (string (codes "my phone <PHONE_NUMBER>")) (
                  field (codes "n") (number (codes "42")) (
                    field
                      (codes "list")
                      (array (item (string (codes "none here")) no_items))
                      no_fields))))
              (item null no_items)),
        stats,
      ))
    × (stats.by_entity ≡ (phone_number, 1) ∷ [])
    × (stats.string_leaves_scanned ≡ 2)
unfolding apply dbmcp.Prelude.is_char_boundary dbmcp.Prelude.slice dbmcp.Pii.Validators.validate
    dbmcp.Pii.Anonymizer.anonymize dbmcp.Pii.Operators.apply dbmcp.Pii.Anonymizer.select from
    dbmcp.Pii.Operators.default_for dbmcp.Pii.Entity.placeholder
redacts = (_, refl, refl, refl)

apply-redacted_example :
    (stats : RedactionStats) × (apply no_libraries sample_unicode half_sum sample_digests regex_only
        rows
      ≡ ok (
        array
            (redacted_items no_libraries sample_unicode half_sum sample_digests regex_only [] rows),
        stats,
      ))
    × (stats.total
        ≡ ranges_items no_libraries sample_unicode half_sum sample_digests regex_only [] rows
          % 18446744073709551616)
    × (stats.string_leaves_scanned ≡ leaves_items rows % 18446744073709551616)
apply-redacted_example =
    apply-redacted no_libraries sample_unicode half_sum sample_digests regex_only refl
      half_is_positive settled (scores, tt) rows

some_text : texts_rows rows ≢ []
unfolding texts_rows
some_text e = ground arith

apply-fails_example :
    apply no_libraries sample_unicode half_sum sample_digests with_engine rows
    ≡ err (inference_failed (codes "shape"))
apply-fails_example =
    apply-fails no_libraries sample_unicode half_sum sample_digests with_engine failing refl
      half_is_positive settled (scores, tt) rows (codes "shape") some_text refl

blocking_task_dies :
    redact_rows no_libraries sample_unicode half_sum sample_digests
      (λ e. [])
      (some with_engine)
      (some (codes "cancelled"))
      rows
    ≡ err (task_panicked (codes "cancelled"))
unfolding redact_rows
blocking_task_dies = refl
