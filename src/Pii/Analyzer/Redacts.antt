-- ===== src/Pii/Analyzer/Redacts.antt =====
-- crates/pii/src/analyzer.rs: from the analysis to the anonymized text.
use dbmcp.Prelude.{
  ℕ, ◌≤◌, ◌≡◌, refl, subst, Bytes, List, [], ◌∷◌, ◌++◌, inl, inr, Bool-cases, Option, none, some,
  arith, leb, leb→le, All, All-append,
}
use dbmcp.Prelude.Opt.{◌>>=◌}
use dbmcp.Pii.Score.{Score, InUnit, rank}
use dbmcp.Pii.Result.{RecognizerResult}
use dbmcp.Pii.Overlap.{resolve}
use dbmcp.Pii.Overlap.Disjoint.{Disjoint, resolve-Disjoint, resolve-All}
use dbmcp.Pii.Overlap.Order.{resolve-resolve}
use dbmcp.Pii.Operators.{Digests}
use dbmcp.Pii.Validators.{Libraries}
use dbmcp.Pii.Words.{Unicode}
use dbmcp.Pii.Recognizers.{Recognizer}
use dbmcp.Pii.Recognizers.Fits.{Sound, analyze-total}
use dbmcp.Pii.Context.{ContextSettings}
use dbmcp.Pii.Context.Scores.{NotNegative}
use dbmcp.Pii.Context.Boosts.{Settled, SumNotNegative, apply_context_boost-total}
use dbmcp.Pii.Anonymizer.{OperatorConfig, AnonymizedText, anonymize}
use dbmcp.Pii.Anonymizer.Rewrites.{Fits, rewritten, anonymize-rewrites}
use dbmcp.Pii.Analyzer.{AnalyzeOptions, at_least, boosted, hits_of, analyze_with_context}

module _ (libraries : Libraries) (unicode : Unicode) (add : ℕ → ℕ → ℕ) where
  -- The scores of a recognizer's patterns are in range.
  abbrev pub Registered : Recognizer → Type 0
  Registered rec = All (λ p. InUnit p.score) rec.regexes

  abbrev pub SettledContext : Option ContextSettings → Type 0
  SettledContext none = Unit
  SettledContext (some settings) = Settled unicode add settings

  boosted-total :
      (text : Bytes) (external : List Bytes) (context : Option ContextSettings) (rec : Recognizer)
      (hits : List RecognizerResult)
      → SumNotNegative unicode add
      → SettledContext context
      → All (Sound text) hits
      → (rs : List RecognizerResult) × (boosted libraries unicode add text external context rec hits
          ≡ some rs)
        × All (Sound text) rs
  unfolding boosted
  boosted-total text external none rec hits _ _ h = (hits, refl, h)
  boosted-total text external (some settings) rec hits sum settled h =
      let (rs, e, k) =
        apply_context_boost-total unicode add text hits rec external settings sum settled.0
          settled.1 h in
      (rs, e, k)

  hits_of-total :
      (text : Bytes) (external : List Bytes) (context : Option ContextSettings)
      (recs : List Recognizer)
      → SumNotNegative unicode add
      → SettledContext context
      → All Registered recs
      → (rs : List RecognizerResult) × (hits_of libraries unicode add text external context recs
          ≡ some rs)
        × All (Sound text) rs
  unfolding hits_of
  hits_of-total text external context [] _ _ _ = ([], refl, tt)
  hits_of-total text external context (rec ∷ recs) sum settled (h, hs) =
      let (hits, e, k) = analyze-total libraries rec text h in
      let (here, e', k') = boosted-total text external context rec hits sum settled k in
      let (rest, e'', k'') = hits_of-total text external context recs sum settled hs in
      (here ++ rest, rw (e, e', e'') refl, All-append (Sound text) here rest k' k'')

  at_least-All :
      (text : Bytes) (floor : Score) (rs : List RecognizerResult)
      → All (Sound text) rs
      → All (λ r. Fits text r × (rank floor ≤ rank r.score)) (at_least floor rs)
  unfolding at_least
  at_least-All text floor [] _ = tt
  at_least-All text floor (r ∷ rs) ((fits, _), hs) =
      let rest = at_least-All text floor rs hs in
      elim (Bool-cases (leb (rank floor) (rank r.score))) [
        | inl e ↦ rw e ((fits, leb→le _ _ e), rest)
        | inr e ↦ rw e rest
      ]

  pub All-fst :
      (text : Bytes) (floor : Score) (rs : List RecognizerResult)
      → All (λ r. Fits text r × (rank floor ≤ rank r.score)) rs
      → All (Fits text) rs
  All-fst text floor [] _ = tt
  All-fst text floor (r ∷ rs) ((h, _), hs) = (h, All-fst text floor rs hs)

  resolved :
      (floor : Score) (raw : Option (List RecognizerResult)) (rs : List RecognizerResult)
      → (raw >>= λ hits. some (resolve (at_least floor hits))) ≡ some rs
      → resolve rs ≡ rs
  resolved floor none rs e = ground arith
  resolved floor (some hits) rs e =
      let same : resolve (at_least floor hits) ≡ rs = ground arith in
      subst (λ us. resolve us ≡ us) same (resolve-resolve (at_least floor hits))

  -- The overlap resolution of an analysis is itself.
  pub analyze-resolve :
      (recs : List Recognizer) (text : Bytes) (external : List Bytes) (opts : AnalyzeOptions)
      (rs : List RecognizerResult)
      → analyze_with_context libraries unicode add recs text external opts ≡ some rs
      → resolve rs ≡ rs
  unfolding analyze_with_context
  analyze-resolve recs text external opts rs e =
      resolved opts.min_score (hits_of libraries unicode add text external opts.context recs) rs e

  -- Where the scores of the patterns and of the settings are in range and no sum of two scores is
  -- negative, the analysis returns, whatever matches the expressions answer. Its results are ranges
  -- of the text that are not empty and cut no character, no two of them overlap, and none is below
  -- the least score. Anonymizing the text by them returns the text with each of them rewritten by its
  -- entity's operator.
  pub analyze-redacts :
      (recs : List Recognizer) (text : Bytes) (external : List Bytes) (opts : AnalyzeOptions)
      (digests : Digests) (config : OperatorConfig)
      → ((a b : Score) → InUnit a → InUnit b → NotNegative (add a.bits b.bits))
      → SettledContext opts.context
      → All Registered recs
      → (rs : List RecognizerResult) × (out : AnonymizedText) × (analyze_with_context libraries
            unicode add recs text external opts
          ≡ some rs)
        × All (λ r. Fits text r × (rank opts.min_score ≤ rank r.score)) rs
        × Disjoint rs
        × (anonymize digests text config rs ≡ some out)
        × (out.text ≡ rewritten digests text config 0 rs)
  unfolding analyze_with_context
  analyze-redacts recs text external opts digests config sum settled h =
      let (raw, e, k) = hits_of-total text external opts.context recs sum settled h in
      let kept : List RecognizerResult = at_least opts.min_score raw in
      let good : All (λ r. Fits text r × (rank opts.min_score ≤ rank r.score)) (resolve kept) =
        resolve-All (λ r. Fits text r × (rank opts.min_score ≤ rank r.score)) kept
          (at_least-All text opts.min_score raw k) in
      let (out, a, t, _) =
        anonymize-rewrites digests text config (resolve kept)
          (All-fst text opts.min_score (resolve kept) good) in
      (
        resolve kept,
        out,
        rw e refl,
        good,
        resolve-Disjoint kept,
        a,
        subst (λ rs. out.text ≡ rewritten digests text config 0 rs) (resolve-resolve kept) t,
      )
