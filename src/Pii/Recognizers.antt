-- ===== src/Pii/Recognizers.antt =====
-- crates/pii/src/recognizers/mod.rs, with `Pattern` of pattern.rs. The regular expressions are
-- parameters: each pattern holds what `find_iter` of its expression answers.
pub mod Fits
use dbmcp.Prelude.{
  ℕ, Bytes, codes, List, [], ◌∷◌, ◌++◌, Bool, not, ◌||◌, Option, none, some, Result, ok, err, leb,
  slice, is_char_boundary, if◌then◌else◌,
}
use dbmcp.Prelude.Opt.{◌>>=◌}
use dbmcp.Pii.Outcome.{ValidationOutcome, valid, invalid, unknown}
use dbmcp.Pii.Entity.{Entity, as_str}
use dbmcp.Pii.Category.{Category, personal}
use dbmcp.Pii.Score.{Score, max_score, min_score, score_eq}
use dbmcp.Pii.Result.{RecognizerResult}
use dbmcp.Pii.Validators.{Libraries, Validator, noop, validate}

pub record Pattern : Type 0 where
  pub name : Bytes
  pub score : Score
  -- the matches in a text, `none` for an error at match time
  pub find_iter : Bytes → List (Option (ℕ × ℕ))

pub data RecognizerError : Type 0 where
  empty_pattern_list : RecognizerError

pub record Recognizer : Type 0 where
  pub entity_type : Entity
  pub name : Bytes
  pub regexes : List Pattern
  pub validator : Validator
  pub category : Category
  pub context : List Bytes

unfoldable pub new : Entity → List Pattern → Result Recognizer RecognizerError
unfolding as_str
new entity [] = err empty_pattern_list
new entity (p ∷ ps) = ok (record {
  entity_type = entity;
  name = as_str entity ++ codes "Recognizer";
  regexes = p ∷ ps;
  validator = noop;
  category = personal;
  context = [];
})

unfoldable pub with_validator : Recognizer → Validator → Recognizer
with_validator r v = record r { validator = v }

unfoldable pub with_name : Recognizer → Bytes → Recognizer
with_name r n = record r { name = n }

unfoldable pub with_category : Recognizer → Category → Recognizer
with_category r c = record r { category = c }

-- A release build, in which the assertions on the words are left out.
unfoldable pub with_context : Recognizer → List Bytes → Recognizer
with_context r words = record r { context = words }

-- `match validation`; `none` is the early return.
final_of : ValidationOutcome → Score → Option Score
final_of valid original = some max_score
final_of invalid original = none
final_of unknown original = some original

module _ (libraries : Libraries) (r : Recognizer) where
  result_of : Pattern → ℕ → ℕ → ValidationOutcome → Score → RecognizerResult
  result_of regex start end validation final = record {
    entity_type = r.entity_type;
    start = start;
    end = end;
    score = final;
    explanation = record {
      recognizer_name = r.name;
      pattern_name = some regex.name;
      original_score = regex.score;
      validation = validation;
      final_score = final;
      supportive_keyword = none;
    };
  }

  -- Behind the validation.
  scored : Pattern → ℕ → ℕ → ValidationOutcome → Option RecognizerResult
  unfolding final_of result_of
  scored regex start end validation = do
    final ← final_of validation regex.score
    if score_eq final min_score then none else some (result_of regex start end validation final)

  -- `none` is a panic, `some none` a match that is dropped.
  pub build_result : Pattern → ℕ → ℕ → Bytes → Option (Option RecognizerResult)
  unfolding scored
  build_result regex start end text =
      if leb end start || not (is_char_boundary text start) || not (is_char_boundary text end)
      then some none
      else do
        candidate ← slice text start end
        some (scored regex start end (validate libraries r.validator candidate))

  kept : Option RecognizerResult → List RecognizerResult → List RecognizerResult
  kept none rs = rs
  kept (some x) rs = x ∷ rs

  -- `filter_map` over the matches of one pattern.
  of_matches : Pattern → Bytes → List (Option (ℕ × ℕ)) → Option (List RecognizerResult)
  unfolding build_result kept
  of_matches regex text [] = some []
  of_matches regex text (none ∷ ms) = of_matches regex text ms
  of_matches regex text (some (start, end) ∷ ms) = do
    found ← build_result regex start end text
    rest ← of_matches regex text ms
    some (kept found rest)

  of_regexes : Bytes → List Pattern → Option (List RecognizerResult)
  unfolding of_matches
  of_regexes text [] = some []
  of_regexes text (p ∷ ps) = do
    found ← of_matches p text (p.find_iter text)
    rest ← of_regexes text ps
    some (found ++ rest)

  unfoldable pub analyze : Bytes → Option (List RecognizerResult)
  unfolding of_regexes
  analyze text = of_regexes text r.regexes
