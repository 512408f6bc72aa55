-- ===== src/Pii/Anonymizer.antt =====
-- crates/pii/src/anonymizer.rs, with `OperatorResult` of result.rs. The text is its UTF-8 bytes; a
-- `none` is a panic.
pub mod Steps
pub mod Rewrites
pub mod Audit
mod Tests
use dbmcp.Prelude.{
  ℕ, Bytes, List, [], ◌∷◌, ◌++◌, Bool, not, ◌||◌, Option, none, some, ltb, if◌then◌else◌, length,
  drop, slice, is_char_boundary,
}
use dbmcp.Prelude.Opt.{◌>>=◌}
use dbmcp.Pii.Entity.{Entity, entity_eq}
use dbmcp.Pii.Operators.{
  Digests, Operator, OperatorKind, redact, hash, sha256, default_for, default_mask, kind, apply,
}
use dbmcp.Pii.Result.{RecognizerResult}
use dbmcp.Pii.Overlap.{resolve}

pub record OperatorConfig : Type 0 where
  pub per_entity : List (Entity × Operator)
  pub default : Option Operator

-- `HashMap::get`
get : List (Entity × Operator) → Entity → Option Operator
unfolding entity_eq
get [] entity = none
get ((e, op) ∷ m) entity = if entity_eq e entity then some op else get m entity

-- The fallbacks of `OperatorConfig::select`.
select_from : Option Operator → Option Operator → Entity → Operator
select_from (some op) default entity = op
select_from none (some op) entity = op
select_from none none entity = default_for entity

unfoldable pub select : OperatorConfig → Entity → Operator
unfolding get select_from
select config entity = select_from (get config.per_entity entity) config.default entity

-- `dbmcp_config::PiiOperator`
pub data PiiOperator : Type 0 where
  pii_replace pii_mask pii_redact pii_hash : PiiOperator

default_of : PiiOperator → Option Operator
default_of pii_replace = none
default_of pii_mask = some default_mask
default_of pii_redact = some redact
default_of pii_hash = some (hash sha256)

-- `OperatorConfig::from`
unfoldable pub from : PiiOperator → OperatorConfig
unfolding default_of
from op = record { per_entity = []; default = default_of op }

pub record OperatorResult : Type 0 where
  pub entity_type : Entity
  pub operator : OperatorKind
  pub original_start : ℕ
  pub original_end : ℕ
  pub new_start : ℕ
  pub new_end : ℕ

pub record AnonymizedText : Type 0 where
  pub text : Bytes
  pub operations : List OperatorResult

-- The variables of the loop.
pub record Progress : Type 0 where
  pub new_text : Bytes
  pub operations : List OperatorResult
  pub cursor : ℕ

abbrev pub start_of : Progress
start_of = record { new_text = []; operations = []; cursor = 0 }

module _ (digests : Digests) (text : Bytes) (config : OperatorConfig) where
  -- The test behind which a result is skipped.
  pub skips : ℕ → RecognizerResult → Bool
  skips cursor r =
      ltb r.start cursor
      || ltb r.end r.start
      || ltb (length text) r.end
      || not (is_char_boundary text r.start)
      || not (is_char_boundary text r.end)

  -- What a result that is not skipped adds, with the gap before it and its own text.
  pub rewrite : Progress → RecognizerResult → Bytes → Bytes → Progress
  rewrite p r gap span =
      let before = p.new_text ++ gap in
      let operator = select config r.entity_type in
      let after = before ++ apply digests operator span in
      record {
        new_text = after;
        operations =
            p.operations
            ++ record {
              entity_type = r.entity_type;
              operator = kind operator;
              original_start = r.start;
              original_end = r.end;
              new_start = length before;
              new_end = length after;
            }
              ∷ [];
        cursor = r.end;
      }

  pub step : Progress → RecognizerResult → Option Progress
  step p r = if skips p.cursor r then some p else do
    gap ← slice text p.cursor r.start
    span ← slice text r.start r.end
    some (rewrite p r gap span)

  pub loop : Progress → List RecognizerResult → Option Progress
  loop p [] = some p
  loop p (r ∷ rs) = do p' ← step p r; loop p' rs

  -- The text behind the last result.
  pub finish : Progress → Option AnonymizedText
  finish p = do
    tail ← slice text p.cursor (length text)
    some (record { text = p.new_text ++ tail; operations = p.operations })

  -- `anonymize` behind the overlap resolution.
  pub anonymize_spans : List RecognizerResult → Option AnonymizedText
  anonymize_spans [] = some (record { text = text; operations = [] })
  anonymize_spans (r ∷ rs) = do p ← loop start_of (r ∷ rs); finish p

  unfoldable pub anonymize : List RecognizerResult → Option AnonymizedText
  unfolding anonymize_spans loop step skips rewrite finish
  anonymize results = anonymize_spans (resolve results)
