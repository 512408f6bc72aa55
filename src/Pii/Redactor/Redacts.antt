-- ===== src/Pii/Redactor/Redacts.antt =====
-- crates/pii/src/redact.rs without the engine: what becomes of the rows, and of the statistics.
use dbmcp.Prelude.{
  ℕ, suc, ◌+◌, ◌%◌, ◌≡◌, refl, sym, ap, ◌∙◌, Bytes, List, [], ◌∷◌, ◌++◌, length, Option, some, none,
  ok, All, arith,
}
use dbmcp.Pii.Score.{Score, InUnit}
use dbmcp.Pii.Result.{RecognizerResult}
use dbmcp.Pii.Overlap.{resolve}
use dbmcp.Pii.Operators.{Digests}
use dbmcp.Pii.Validators.{Libraries}
use dbmcp.Pii.Words.{Unicode}
use dbmcp.Pii.Context.Scores.{NotNegative}
use dbmcp.Pii.Anonymizer.{OperatorConfig}
use dbmcp.Pii.Anonymizer.Rewrites.{rewritten, origin, anonymize-rewrites}
use dbmcp.Pii.Anonymizer.Rewrites
use dbmcp.Pii.Analyzer.{analyze_with_context}
use dbmcp.Pii.Analyzer.Redacts.{
  Registered, SettledContext, All-fst, analyze-resolve, analyze-redacts,
}
use dbmcp.Pii.Redactor.Json.{
  Value, null, bool, number, string, array, object, Items, no_items, item, Fields, no_fields, field,
  Loc,
}
use dbmcp.Pii.Redactor.Leaves.{
  increments, total-count_all, length-map_eq, apply_found-rewritten, leaves, leaves_items,
  leaves_fields,
}
use dbmcp.Pii.Redactor.Walk.{below, walk, walk_items, walk_fields, walk_rows, run-walk_rows}
use dbmcp.Pii.Redactor.Spans.{count_all, no_stats, RedactionStats, scanned}
use dbmcp.Pii.Redactor.{Gathered, Redactor, defer, visit_leaf, infer, unwinding, caught, apply}

or_nothing : Option (List RecognizerResult) → List RecognizerResult
or_nothing none = []
or_nothing (some rs) = rs

module _ (libraries : Libraries) (unicode : Unicode) (add : ℕ → ℕ → ℕ) (digests : Digests)
    (redactor : Redactor) where
  -- What the analysis finds in a leaf below the keys whose words are in the path.
  unfoldable pub found : List Bytes → Bytes → List RecognizerResult
  unfolding or_nothing analyze_with_context
  found path s =
      or_nothing
        (analyze_with_context libraries unicode add redactor.recognizers s path redactor.opts)

  -- Each leaf rewritten by what is found in it; the keys and the other values stay.
  unfoldable mutual
    unfolding found

    pub redacted : List Bytes → Value → Value
    redacted path null = null
    redacted path (bool b) = bool b
    redacted path (number n) = number n
    redacted path (string s) = string (rewritten digests s redactor.operator 0 (found path s))
    redacted path (array vs) = array (redacted_items path vs)
    redacted path (object fs) = object (redacted_fields path fs)

    pub redacted_items : List Bytes → Items → Items
    redacted_items path no_items = no_items
    redacted_items path (item v vs) = item (redacted path v) (redacted_items path vs)

    pub redacted_fields : List Bytes → Fields → Fields
    redacted_fields path no_fields = no_fields
    redacted_fields path (field k v fs) =
        field k (redacted (below path k) v) (redacted_fields path fs)

  -- How many ranges are rewritten.
  unfoldable mutual
    unfolding found

    pub ranges : List Bytes → Value → ℕ
    ranges path null = 0
    ranges path (bool b) = 0
    ranges path (number n) = 0
    ranges path (string s) = length (found path s)
    ranges path (array vs) = ranges_items path vs
    ranges path (object fs) = ranges_fields path fs

    pub ranges_items : List Bytes → Items → ℕ
    ranges_items path no_items = 0
    ranges_items path (item v vs) = ranges path v + ranges_items path vs

    pub ranges_fields : List Bytes → Fields → ℕ
    ranges_fields path no_fields = 0
    ranges_fields path (field k v fs) = ranges (below path k) v + ranges_fields path fs

  -- The counters after so many ranges and leaves, with nothing deferred.
  Counts : Gathered → ℕ → ℕ → Type 0
  Counts g a b =
      (g.stats.total ≡ a % 18446744073709551616)
      × (g.stats.string_leaves_scanned ≡ b % 18446744073709551616)
      × (g.slots ≡ [])

  module _ (inline : redactor.engine ≡ none)
      (sum : (a b : Score) → InUnit a → InUnit b → NotNegative (add a.bits b.bits))
      (settled : SettledContext libraries unicode add redactor.opts.context)
      (registered : All (Registered libraries unicode add) redactor.recognizers) where
    abbrev leaf : Loc → List Bytes → Bytes → Gathered → Option (Bytes × Gathered)
    leaf = visit_leaf libraries unicode add digests redactor

    leaf-redacted :
        (loc : Loc) (path : List Bytes) (s : Bytes) (g : Gathered) (a b : ℕ)
        → Counts g a b
        → (g' : Gathered) × (leaf loc path s g
            ≡ some (rewritten digests s redactor.operator 0 (found path s), g'))
          × Counts g' (a + length (found path s)) (b + 1)
    unfolding visit_leaf defer found Counts scanned
    leaf-redacted loc path s g a b (total, seen, slots) =
        let config : OperatorConfig = redactor.operator in
        let (rs, _, e, fits, _, _, _) =
          analyze-redacts libraries unicode add redactor.recognizers s path redactor.opts digests
            config sum settled registered in
        let settled_rs : resolve rs ≡ rs =
          analyze-resolve libraries unicode add redactor.recognizers s path redactor.opts rs e in
        let (out, an, text, ops_of) =
          anonymize-rewrites digests s config rs
            (All-fst libraries unicode add s redactor.opts.min_score rs fits) in
        let (ops, done, n) =
          apply_found-rewritten digests config s rs out (scanned g.stats) an
            (text ∙ ap (rewritten digests s config 0) settled_rs)
            (length-map_eq origin (Rewrites.applied digests s config) out.operations (resolve rs)
                ops_of
              ∙ ap length settled_rs) in
        let (t, l) = total-count_all ops (scanned g.stats) a total in
        (
          record { stats = count_all ops (scanned g.stats); slots = g.slots },
          rw (e, inline, done) refl,
          (
            rw e (t ∙ ap (λ m. (a + m) % 18446744073709551616) n),
            l ∙ increments b g.stats.string_leaves_scanned seen,
            slots,
          ),
        )

    counted : (g : Gathered) (a a' b b' : ℕ) → a ≡ a' → b ≡ b' → Counts g a b → Counts g a' b'
    unfolding Counts
    counted g a a' b b' e f h = rw (sym e, sym f) h

    mutual
      unfolding walk redacted ranges leaves

      walk-redacted :
          (loc : Loc) (path : List Bytes) (v : Value) (g : Gathered) (a b : ℕ)
          → Counts g a b
          → (g' : Gathered) × (walk leaf loc path v g ≡ some (redacted path v, g'))
            × Counts g' (a + ranges path v) (b + leaves v)
      walk-redacted loc path null g a b h =
          (g, refl, counted g a _ b _ (omega arith) (omega arith) h)
      walk-redacted loc path (bool x) g a b h =
          (g, refl, counted g a _ b _ (omega arith) (omega arith) h)
      walk-redacted loc path (number n) g a b h =
          (g, refl, counted g a _ b _ (omega arith) (omega arith) h)
      walk-redacted loc path (string s) g a b h =
          let (g', e, k) = leaf-redacted loc path s g a b h in (g', rw e refl, k)
      walk-redacted loc path (array vs) g a b h =
          let (g', e, k) = walk_items-redacted loc path 0 vs g a b h in (g', rw e refl, k)
      walk-redacted loc path (object fs) g a b h =
          let (g', e, k) = walk_fields-redacted loc path 0 fs g a b h in (g', rw e refl, k)

      walk_items-redacted :
          (loc : Loc) (path : List Bytes) (i : ℕ) (vs : Items) (g : Gathered) (a b : ℕ)
          → Counts g a b
          → (g' : Gathered) × (walk_items leaf loc path i vs g ≡ some (redacted_items path vs, g'))
            × Counts g' (a + ranges_items path vs) (b + leaves_items vs)
      walk_items-redacted loc path i no_items g a b h =
          (g, refl, counted g a _ b _ (omega arith) (omega arith) h)
      walk_items-redacted loc path i (item v vs) g a b h =
          let (g', e, k) = walk_items-redacted loc path (suc i) vs g a b h in
          let (g'', e', k') = walk-redacted (loc ++ i ∷ []) path v g' _ _ k in
          (g'', rw (e, e') refl, counted g'' _ _ _ _ (omega arith) (omega arith) k')

      walk_fields-redacted :
          (loc : Loc) (path : List Bytes) (i : ℕ) (fs : Fields) (g : Gathered) (a b : ℕ)
          → Counts g a b
          → (g' : Gathered) × (walk_fields leaf loc path i fs g
              ≡ some (redacted_fields path fs, g'))
            × Counts g' (a + ranges_fields path fs) (b + leaves_fields fs)
      walk_fields-redacted loc path i no_fields g a b h =
          (g, refl, counted g a _ b _ (omega arith) (omega arith) h)
      walk_fields-redacted loc path i (field key v fs) g a b h =
          let (g', e, k) = walk_fields-redacted loc path (suc i) fs g a b h in
          let (g'', e', k') = walk-redacted (loc ++ i ∷ []) (below path key) v g' _ _ k in
          (g'', rw (e, e') refl, counted g'' _ _ _ _ (omega arith) (omega arith) k')

    walk_rows-redacted :
        (i : ℕ) (vs : Items) (g : Gathered) (a b : ℕ)
        → Counts g a b
        → (g' : Gathered) × (walk_rows leaf i vs g ≡ some (redacted_items [] vs, g'))
          × Counts g' (a + ranges_items [] vs) (b + leaves_items vs)
    unfolding walk_rows redacted ranges leaves
    walk_rows-redacted i no_items g a b h =
        (g, refl, counted g a _ b _ (omega arith) (omega arith) h)
    walk_rows-redacted i (item v vs) g a b h =
        let (g', e, k) = walk-redacted (i ∷ []) [] v g a b h in
        let (g'', e', k') = walk_rows-redacted (suc i) vs g' _ _ k in
        (g'', rw (e, e') refl, counted g'' _ _ _ _ (omega arith) (omega arith) k')

    -- Without an engine, where the scores of the patterns and of the settings are in range and no sum
    -- of two scores is negative, redaction returns, whatever the rows and whatever matches the
    -- expressions answer: each string, at any depth, has the ranges that the analysis finds in it
    -- under the words of the keys above it rewritten by their operators, and the keys, the other
    -- values and the shape stay. The statistics count those ranges and the strings, modulo `2 ^ 64`.
    pub apply-redacted :
        (rows : Items)
        → (stats : RedactionStats) × (apply libraries unicode add digests redactor rows
            ≡ ok (array (redacted_items [] rows), stats))
          × (stats.total ≡ ranges_items [] rows % 18446744073709551616)
          × (stats.string_leaves_scanned ≡ leaves_items rows % 18446744073709551616)
    unfolding apply caught unwinding infer Counts
    apply-redacted rows =
        let g : Gathered = record { stats = no_stats; slots = [] } in
        let (g', e, (t, l, _)) = walk_rows-redacted 0 rows g 0 0 (refl, refl, refl) in
        (
          g'.stats,
          rw (run-walk_rows leaf rows g, e, inline) refl,
          t ∙ ap (λ n. n % 18446744073709551616) (omega arith),
          l ∙ ap (λ n. n % 18446744073709551616) (omega arith),
        )
