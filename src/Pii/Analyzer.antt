-- ===== src/Pii/Analyzer.antt =====
-- crates/pii/src/analyzer.rs. The built-in recognizers, whose expressions are regular expressions,
-- are the parameter `registry`; the ML engine that can be attached is left out.
pub mod Redacts
pub mod Categories
pub mod Samples
mod Tests
use dbmcp.Prelude.{
  ℕ, Bytes, List, [], ◌∷◌, ◌++◌, Bool, true, false, Option, none, some, Result, ok, err, any, leb,
  if◌then◌else◌,
}
use dbmcp.Prelude.Opt.{◌>>=◌}
use dbmcp.Pii.Category.{Category, category_eq}
use dbmcp.Pii.Score.{Score, rank}
use dbmcp.Pii.Result.{RecognizerResult}
use dbmcp.Pii.Overlap.{resolve}
use dbmcp.Pii.Validators.{Libraries}
use dbmcp.Pii.Words.{Unicode}
use dbmcp.Pii.Recognizers.{Recognizer, analyze}
use dbmcp.Pii.Context.{ContextSettings, apply_context_boost}

pub record AnalyzeOptions : Type 0 where
  pub min_score : Score
  pub context : Option ContextSettings

pub data AnalyzerBuildError : Type 0 where
  empty_category : Category → AnalyzerBuildError

-- `filter(|r| r.score >= opts.min_score)`
unfoldable pub at_least : Score → List RecognizerResult → List RecognizerResult
unfolding rank
at_least floor [] = []
at_least floor (r ∷ rs) =
    let rest = at_least floor rs in if leb (rank floor) (rank r.score) then r ∷ rest else rest

module _ (libraries : Libraries) (unicode : Unicode) (add : ℕ → ℕ → ℕ) where
  -- The hits of one recognizer, boosted where the options have a context.
  boosted :
      Bytes
      → List Bytes
      → Option ContextSettings
      → Recognizer
      → List RecognizerResult
      → Option (List RecognizerResult)
  unfolding apply_context_boost
  boosted text external (some settings) rec hits =
      apply_context_boost unicode add text hits rec external settings
  boosted text external none rec hits = some hits

  hits_of :
      Bytes → List Bytes → Option ContextSettings → List Recognizer → Option (List RecognizerResult)
  unfolding boosted analyze
  hits_of text external context [] = some []
  hits_of text external context (rec ∷ recs) = do
    hits ← analyze libraries rec text
    here ← boosted text external context rec hits
    rest ← hits_of text external context recs
    some (here ++ rest)

  unfoldable pub analyze_with_context :
      List Recognizer → Bytes → List Bytes → AnalyzeOptions → Option (List RecognizerResult)
  unfolding hits_of at_least resolve
  analyze_with_context recognizers text external opts = do
    raw ← hits_of text external opts.context recognizers
    some (resolve (at_least opts.min_score raw))

-- `Vec::contains`
pub contains : List Category → Category → Bool
unfolding category_eq
contains cats c = any (λ d. category_eq d c) cats

-- `Builder::categories`: each category once, in the order of the first.
distinct : List Category → List Category → List Category
unfolding contains
distinct out [] = out
distinct out (c ∷ cats) =
    let skip = distinct out cats in
    let take = distinct (out ++ c ∷ []) cats in if contains out c then skip else take

tagged : List Category → List Recognizer → List Recognizer
unfolding contains
tagged cats [] = []
tagged cats (r ∷ rs) =
    let rest = tagged cats rs in if contains cats r.category then r ∷ rest else rest

-- The loop that looks for a category without recognizers.
check_categories : List Recognizer → List Category → Result (List Recognizer) AnalyzerBuildError
unfolding category_eq
check_categories kept [] = ok kept
check_categories kept (c ∷ cats) =
    let rest = check_categories kept cats in
    if any (λ r. category_eq r.category c) kept then rest else err (empty_category c)

-- `Builder::build` for the categories that were set, if any.
unfoldable pub build :
    List Recognizer → Option (List Category) → Result (List Recognizer) AnalyzerBuildError
unfolding tagged check_categories
build registry none = ok registry
build registry (some cats) = check_categories (tagged cats registry) cats

or_defaults : List Recognizer → Result (List Recognizer) AnalyzerBuildError → List Recognizer
or_defaults registry (ok recognizers) = recognizers
or_defaults registry (err e) = registry

-- `Analyzer::from_config`
unfoldable pub from_config : List Recognizer → Option (List Category) → List Recognizer
unfolding build distinct or_defaults
from_config registry none = registry
from_config registry (some cats) = or_defaults registry (build registry (some (distinct [] cats)))
