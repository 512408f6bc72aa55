-- ===== src/Pii/Redactor/Defers.antt =====
-- crates/pii/src/redact.rs with an engine: what the batch has, and its failure.
use dbmcp.Prelude.{
  ℕ, suc, ◌≡◌, ◌≢◌, refl, sym, ap, ◌∙◌, Bytes, List, [], ◌∷◌, ◌++◌, map, map-append, append_assoc,
  append-nil, Option, some, err, All,
}
use dbmcp.Pii.Score.{Score, InUnit}
use dbmcp.Pii.Operators.{Digests}
use dbmcp.Pii.Validators.{Libraries}
use dbmcp.Pii.Words.{Unicode}
use dbmcp.Pii.Context.Scores.{NotNegative}
use dbmcp.Pii.Analyzer.Redacts.{Registered, SettledContext, analyze-redacts}
use dbmcp.Pii.Redactor.Json.{
  Value, null, bool, number, string, array, object, Items, no_items, item, Fields, no_fields, field,
  Loc,
}
use dbmcp.Pii.Redactor.Walk.{below, walk, walk_items, walk_fields, walk_rows, run-walk_rows}
use dbmcp.Pii.Redactor.Spans.{no_stats, scanned}
use dbmcp.Pii.Redactor.{
  LeafSlot, Gathered, Redactor, Engine, inference_failed, defer, visit_leaf, on_batch, infer,
  unwinding, caught, apply,
}

-- The strings of a value, in the order the walk meets them: the last child first.
unfoldable mutual
  pub texts : Value → List Bytes
  texts null = []
  texts (bool b) = []
  texts (number n) = []
  texts (string s) = s ∷ []
  texts (array vs) = texts_items vs
  texts (object fs) = texts_fields fs

  pub texts_items : Items → List Bytes
  texts_items no_items = []
  texts_items (item v vs) = texts_items vs ++ texts v

  pub texts_fields : Fields → List Bytes
  texts_fields no_fields = []
  texts_fields (field k v fs) = texts_fields fs ++ texts v

-- Of the rows, the first comes first.
unfoldable pub texts_rows : Items → List Bytes
unfolding texts
texts_rows no_items = []
texts_rows (item v vs) = texts v ++ texts_rows vs

module _ (libraries : Libraries) (unicode : Unicode) (add : ℕ → ℕ → ℕ) (digests : Digests)
    (redactor : Redactor) where
  -- The texts that are deferred.
  deferred : Gathered → List Bytes
  deferred g = map (λ l. l.text) g.slots

  module _ (engine : Engine) (attached : redactor.engine ≡ some engine)
      (sum : (a b : Score) → InUnit a → InUnit b → NotNegative (add a.bits b.bits))
      (settled : SettledContext libraries unicode add redactor.opts.context)
      (registered : All (Registered libraries unicode add) redactor.recognizers) where
    abbrev leaf : Loc → List Bytes → Bytes → Gathered → Option (Bytes × Gathered)
    leaf = visit_leaf libraries unicode add digests redactor

    -- Behind the texts deferred before, those of the value.
    abbrev Defers : {A : Type 0} → Option (A × Gathered) → Gathered → List Bytes → Type 0
    Defers {A} returned g more =
        (v : A) × (g' : Gathered) × (returned ≡ some (v, g')) × (deferred g' ≡ deferred g ++ more)

    leaf-Defers :
        (loc : Loc) (path : List Bytes) (s : Bytes) (g : Gathered)
        → Defers (leaf loc path s g) g (s ∷ [])
    unfolding visit_leaf defer deferred
    leaf-Defers loc path s g =
        let (rs, _, e, _, _, _, _) =
          analyze-redacts libraries unicode add redactor.recognizers s path redactor.opts digests
            redactor.operator sum settled registered in
        let after : Gathered = record {
          stats = scanned g.stats;
          slots = g.slots ++ record { slot = loc; text = s; regex = rs } ∷ [];
        } in
        ([], after, rw (e, attached) refl, map-append (λ l. l.text) g.slots _)

    both :
        (g g' g'' : Gathered) (xs ys : List Bytes)
        → deferred g' ≡ deferred g ++ xs
        → deferred g'' ≡ deferred g' ++ ys
        → deferred g'' ≡ deferred g ++ (xs ++ ys)
    both g g' g'' xs ys e f = f ∙ ap (λ zs. zs ++ ys) e ∙ append_assoc (deferred g) xs ys

    mutual
      unfolding walk texts

      walk-Defers :
          (loc : Loc) (path : List Bytes) (v : Value) (g : Gathered)
          → Defers (walk leaf loc path v g) g (texts v)
      walk-Defers loc path null g = (_, _, refl, sym (append-nil _))
      walk-Defers loc path (bool b) g = (_, _, refl, sym (append-nil _))
      walk-Defers loc path (number n) g = (_, _, refl, sym (append-nil _))
      walk-Defers loc path (string s) g =
          let (s', g', e, k) = leaf-Defers loc path s g in (string s', g', rw e refl, k)
      walk-Defers loc path (array vs) g =
          let (vs', g', e, k) = walk_items-Defers loc path 0 vs g in (array vs', g', rw e refl, k)
      walk-Defers loc path (object fs) g =
          let (fs', g', e, k) = walk_fields-Defers loc path 0 fs g in (object fs', g', rw e refl, k)

      walk_items-Defers :
          (loc : Loc) (path : List Bytes) (i : ℕ) (vs : Items) (g : Gathered)
          → Defers (walk_items leaf loc path i vs g) g (texts_items vs)
      walk_items-Defers loc path i no_items g = (_, _, refl, sym (append-nil _))
      walk_items-Defers loc path i (item v vs) g =
          let (vs', g', e, k) = walk_items-Defers loc path (suc i) vs g in
          let (v', g'', e', k') = walk-Defers (loc ++ i ∷ []) path v g' in
          (item v' vs', g'', rw (e, e') refl, both g g' g'' (texts_items vs) (texts v) k k')

      walk_fields-Defers :
          (loc : Loc) (path : List Bytes) (i : ℕ) (fs : Fields) (g : Gathered)
          → Defers (walk_fields leaf loc path i fs g) g (texts_fields fs)
      walk_fields-Defers loc path i no_fields g = (_, _, refl, sym (append-nil _))
      walk_fields-Defers loc path i (field key v fs) g =
          let (fs', g', e, k) = walk_fields-Defers loc path (suc i) fs g in
          let (v', g'', e', k') = walk-Defers (loc ++ i ∷ []) (below path key) v g' in
          (field key v' fs', g'', rw (e, e') refl, both g g' g'' (texts_fields fs) (texts v) k k')

    walk_rows-Defers :
        (i : ℕ) (vs : Items) (g : Gathered) → Defers (walk_rows leaf i vs g) g (texts_rows vs)
    unfolding walk_rows texts_rows
    walk_rows-Defers i no_items g = (_, _, refl, sym (append-nil _))
    walk_rows-Defers i (item v vs) g =
        let (v', g', e, k) = walk-Defers (i ∷ []) [] v g in
        let (vs', g'', e', k') = walk_rows-Defers (suc i) vs g' in
        (item v' vs', g'', rw (e, e') refl, both g g' g'' (texts v) (texts_rows vs) k k')

    infer-fails :
        (slots : List LeafSlot) (rows : Value) (g : Gathered) (e : Bytes)
        → map (λ l. l.text) slots ≢ []
        → engine (map (λ l. l.text) slots) ≡ err e
        → infer digests redactor redactor.engine slots rows g.stats
          ≡ some (err (inference_failed e))
    unfolding infer on_batch
    infer-fails [] rows g e some_text failed = absurd (some_text refl)
    infer-fails (l ∷ slots) rows g e some_text failed = rw (attached, failed) refl

    -- With an engine attached, the texts of all the strings of the rows, at any depth, go to it in one
    -- batch; where it fails on them, so does the redaction, with its error, and no row is returned.
    pub apply-fails :
        (rows : Items) (e : Bytes)
        → texts_rows rows ≢ []
        → engine (texts_rows rows) ≡ err e
        → apply libraries unicode add digests redactor rows ≡ err (inference_failed e)
    unfolding apply caught unwinding deferred
    apply-fails rows e some_text failed =
        let g : Gathered = record { stats = no_stats; slots = [] } in
        let (rows', g', w, k) = walk_rows-Defers 0 rows g in
        let bad = infer-fails g'.slots (array rows') g' e (rw k some_text) (rw k failed) in
        rw (run-walk_rows leaf rows g, w, bad) refl
