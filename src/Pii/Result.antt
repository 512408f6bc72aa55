-- ===== src/Pii/Result.antt =====
-- crates/pii/src/result.rs
use dbmcp.Prelude.{ℕ, Bytes, Option}
use dbmcp.Pii.Entity.{Entity}
use dbmcp.Pii.Outcome.{ValidationOutcome}
use dbmcp.Pii.Score.{Score}

pub record AnalysisExplanation : Type 0 where
  pub recognizer_name : Bytes
  pub pattern_name : Option Bytes
  pub original_score : Score
  pub validation : ValidationOutcome
  pub final_score : Score
  pub supportive_keyword : Option Bytes

-- `end` is exclusive; both are byte offsets.
pub record RecognizerResult : Type 0 where
  pub entity_type : Entity
  pub start : ℕ
  pub end : ℕ
  pub score : Score
  pub explanation : AnalysisExplanation
