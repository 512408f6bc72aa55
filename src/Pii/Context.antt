-- ===== src/Pii/Context.antt =====
-- crates/pii/src/context.rs. The sum of two `f32` is a parameter; the other operations work on
-- numbers that are not negative. A `none` is a panic.
mod Keywords
mod Nearby
pub mod Lifts
pub mod Scores
pub mod Boosts
use Prim.Native.Nat.{min}
use dbmcp.Prelude.{
  ℕ, zero, suc, ◌+◌, ◌-◌, Bytes, List, [], ◌∷◌, ◌++◌, Bool, Option, none, some, Result, ok, err,
  take, drop, length, any, ltb, ◌==◌, bytes_eq, slice, is_char_boundary, if◌then◌else◌,
}
use dbmcp.Prelude.Opt.{◌>>=◌}
use dbmcp.Pii.Score.{Score, PatternError, max_score, new, score_eq, rank}
use dbmcp.Pii.Result.{RecognizerResult}
use dbmcp.Pii.Recognizers.{Recognizer}
use dbmcp.Pii.Words.{Unicode, words, first_word}

pub record ContextSettings : Type 0 where
  pub similarity_factor : Score
  pub min_score_with_context : Score
  pub prefix_words : ℕ
  pub suffix_words : ℕ

-- `ContextSettings::default`: 0.35 and 0.4 as `f32`.
abbrev pub default_settings : ContextSettings
default_settings = record {
  similarity_factor = record { bits = 0x3eb33333 };
  min_score_with_context = record { bits = 0x3ecccccd };
  prefix_words = 5;
  suffix_words = 0;
}

-- The loop of `safe_left_boundary`, down from an offset in the text.
left_from : Bytes → ℕ → ℕ
left_from text zero = zero
left_from text (suc s) =
    let lower = left_from text s in if is_char_boundary text (suc s) then suc s else lower

unfoldable pub safe_left_boundary : Bytes → ℕ → ℕ
unfolding left_from
safe_left_boundary text start = left_from text (min start (length text))

-- The loop of `safe_right_boundary`; the fuel is the way to the end of the text.
right_from : Bytes → ℕ → ℕ → ℕ
right_from text zero e = e
right_from text (suc fuel) e =
    let higher = right_from text fuel (e + 1) in if is_char_boundary text e then e else higher

unfoldable pub safe_right_boundary : Bytes → ℕ → ℕ
unfolding right_from
safe_right_boundary text end = let e = min end (length text) in right_from text (length text - e) e

-- The first keyword that stands among the words.
find_keyword : List Bytes → List Bytes → Option Bytes
unfolding bytes_eq
find_keyword words [] = none
find_keyword words (kw ∷ keywords) =
    let later = find_keyword words keywords in
    if any (λ w. bytes_eq w kw) words then some kw else later

unfoldable pub find_supportive_keyword : List Bytes → List Bytes → List Bytes → Option Bytes
unfolding find_keyword
find_supportive_keyword window external keywords = find_keyword (window ++ external) keywords

-- `f32::max` and `f32::min` of numbers that are not negative.
unfoldable pub f32_max : ℕ → ℕ → ℕ
unfolding rank
f32_max a b = if ltb (rank (record { bits = a })) (rank (record { bits = b })) then b else a

f32_min : ℕ → ℕ → ℕ
unfolding rank
f32_min a b = if ltb (rank (record { bits = b })) (rank (record { bits = a })) then b else a

-- `Result::expect`
expect : Result Score PatternError → Option Score
expect (ok s) = some s
expect (err e) = none

-- The words of an option, in front of others.
pushed : Option Bytes → List Bytes
pushed none = []
pushed (some w) = w ∷ []

module _ (unicode : Unicode) (add : ℕ → ℕ → ℕ) where
  -- The words behind the match.
  add_suffix : Bytes → ℕ → ℕ → List Bytes → Option (List Bytes)
  unfolding words
  add_suffix text safe_end suffix out = if suffix == 0 then some out else do
    behind ← slice text safe_end (length text)
    some (out ++ take suffix (words unicode behind))

  pub collect_window : Bytes → ℕ → ℕ → ℕ → ℕ → Option (List Bytes)
  unfolding safe_left_boundary safe_right_boundary words first_word pushed add_suffix
  collect_window text start end prefix suffix = do
    let safe_start = safe_left_boundary text start
    let safe_end = safe_right_boundary text end
    before ← slice text 0 safe_start
    let prefix_words = words unicode before
    own ← slice text safe_start safe_end
    let out =
        drop (length prefix_words - (prefix + 1)) prefix_words ++ pushed (first_word unicode own)
    add_suffix text safe_end suffix out

  pub boost_score : Score → Score → Score → Option Score
  unfolding f32_max f32_min expect new
  boost_score current factor floor =
      let raw = add current.bits factor.bits in
      expect (new (f32_min (f32_max raw floor.bits) max_score.bits))

  -- A result with a new score and the keyword that supports it.
  boosted_by : RecognizerResult → Score → Bytes → RecognizerResult
  boosted_by r boosted hit = record r {
    score = boosted;
    explanation = record r.explanation { final_score = boosted; supportive_keyword = some hit };
  }

  supported : RecognizerResult → ContextSettings → Option Bytes → Option RecognizerResult
  unfolding boost_score boosted_by
  supported r settings none = some r
  supported r settings (some hit) = do
    boosted ← boost_score r.score settings.similarity_factor settings.min_score_with_context
    some (boosted_by r boosted hit)

  pub boost_one :
      Bytes → RecognizerResult → List Bytes → List Bytes → ContextSettings → Option RecognizerResult
  unfolding collect_window find_supportive_keyword supported
  boost_one text r keywords external settings = if score_eq r.score max_score then some r else do
    window ← collect_window text r.start r.end settings.prefix_words settings.suffix_words
    supported r settings (find_supportive_keyword window external keywords)

  boost_all :
      Bytes
      → List RecognizerResult
      → List Bytes
      → List Bytes
      → ContextSettings
      → Option (List RecognizerResult)
  unfolding boost_one
  boost_all text [] keywords external settings = some []
  boost_all text (r ∷ rs) keywords external settings = do
    r' ← boost_one text r keywords external settings
    rs' ← boost_all text rs keywords external settings
    some (r' ∷ rs')

  pub boost_unless_empty :
      List Bytes
      → List Bytes
      → Bytes
      → List RecognizerResult
      → ContextSettings
      → Option (List RecognizerResult)
  unfolding boost_all
  boost_unless_empty [] [] text results settings = some results
  boost_unless_empty keywords external text results settings =
      boost_all text results keywords external settings

  unfoldable pub apply_context_boost :
      Bytes
      → List RecognizerResult
      → Recognizer
      → List Bytes
      → ContextSettings
      → Option (List RecognizerResult)
  unfolding boost_unless_empty
  apply_context_boost text results recognizer external settings =
      boost_unless_empty recognizer.context external text results settings
