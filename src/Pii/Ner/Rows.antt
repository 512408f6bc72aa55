-- ===== src/Pii/Ner/Rows.antt =====
-- crates/pii/src/ner.rs: the decoding of one row of logits. The arithmetic of `f32` is a parameter, and
-- so is what the tokenizer says of the tokens.
pub mod Allowed
use dbmcp.Prelude.{
  ℕ, suc, ◌*◌, ◌-◌, Bytes, codes, List, [], ◌∷◌, ◌++◌, map, Bool, true, ◌&&◌, leb, length, Option,
  none, some, any, take, drop, get_elem?, if◌then◌else◌,
}
use dbmcp.Pii.Entity.{Entity, entity_eq}
use dbmcp.Pii.Result.{RecognizerResult}
use dbmcp.Pii.Score.{Score}
use dbmcp.Pii.Ner.{TokenTag, outside, parse_bio, aggregate_words, decode_spans, span_to_result}

-- The `f32` operations that the softmax uses, on bit patterns: `inverse p` is `1.0 / p`, and `sum_start`
-- is what `Sum` starts from.
pub record F32 : Type 0 where
  pub gt : ℕ → ℕ → Bool
  pub sub : ℕ → ℕ → ℕ
  pub exp : ℕ → ℕ
  pub add : ℕ → ℕ → ℕ
  pub inverse : ℕ → ℕ
  pub sum_start : ℕ
  pub neg_infinity : ℕ

-- What the decoder reads of a `tokenizers::Encoding`.
pub record Encoding : Type 0 where
  pub ids : List ℕ
  pub offsets : List (ℕ × ℕ)
  pub word_ids : List (Option ℕ)

pub record NerEngine : Type 0 where
  pub id2label : List Bytes
  pub threshold : Score
  pub allowed : List Entity

unfoldable pub set_allowed : List Entity → NerEngine → NerEngine
set_allowed entities engine = record engine { allowed = entities }

-- `self.allowed.contains(&e)`, with `is_none_or`
unfoldable pub entity_allowed : NerEngine → Option Entity → Bool
unfolding entity_eq
entity_allowed engine none = true
entity_allowed engine (some e) = any (entity_eq e) engine.allowed

-- The entity of a tag, filtered by the categories.
unfoldable pub filtered : NerEngine → Option Entity → Option Entity
unfolding entity_allowed
filtered engine entity = if entity_allowed engine entity then entity else none

-- `<[T]>::get` of a range
range_or_empty : List ℕ → ℕ → ℕ → List ℕ
range_or_empty row from to =
    if leb from to && leb to (length row) then take (to - from) (drop from row) else []

-- `get(t).copied().flatten()`
flatten : Option (Option ℕ) → Option ℕ
flatten none = none
flatten (some id) = id

or_outside : Option Bytes → Bytes
or_outside none = codes "O"
or_outside (some label) = label

or_zero : Option (ℕ × ℕ) → ℕ × ℕ
or_zero none = (0, 0)
or_zero (some offset) = offset

module _ (f32 : F32) where
  -- The loop over the logits, from `i`.
  best_from : ℕ → List ℕ → ℕ → ℕ → ℕ × ℕ
  best_from i [] best best_val = (best, best_val)
  best_from i (v ∷ logits) best best_val =
      let kept = best_from (suc i) logits best best_val in
      let taken = best_from (suc i) logits i v in if f32.gt v best_val then taken else kept

  -- `.map(|&v| (v - best_val).exp()).sum()`
  sum_from : ℕ → ℕ → List ℕ → ℕ
  sum_from best_val acc [] = acc
  sum_from best_val acc (v ∷ logits) =
      sum_from best_val (f32.add acc (f32.exp (f32.sub v best_val))) logits

  prob_of : ℕ → ℕ
  prob_of sum = if f32.gt sum 0 then f32.inverse sum else 0

  unfoldable pub softmax_argmax : List ℕ → ℕ × ℕ
  unfolding best_from sum_from prob_of
  softmax_argmax [] = (0, 0)
  softmax_argmax (v ∷ logits) =
      let (best, best_val) = best_from 0 (v ∷ logits) 0 f32.neg_infinity in
      (best, prob_of (sum_from best_val f32.sum_start (v ∷ logits)))

  -- The tag of a token of a word.
  labelled : NerEngine → ℕ → ℕ → ℕ × ℕ → TokenTag
  unfolding parse_bio filtered or_outside
  labelled engine best prob (start, end) =
      let (entity, is_begin) = parse_bio (or_outside (get_elem? engine.id2label best)) in
      record {
        entity = filtered engine entity;
        is_begin = is_begin;
        score = prob;
        start = start;
        end = end;
      }

  tag_of : NerEngine → List ℕ → Encoding → ℕ → Option ℕ → TokenTag
  unfolding softmax_argmax labelled range_or_empty or_zero
  tag_of engine logit_rows enc t none = outside
  tag_of engine logit_rows enc t (some id) =
      let num_labels = length engine.id2label in
      let (best, prob) =
        softmax_argmax (range_or_empty logit_rows (t * num_labels) (suc t * num_labels)) in
      labelled engine best prob (or_zero (get_elem? enc.offsets t))

  -- The rounds for the tokens from `t`, one for each id that is left.
  tags_from : NerEngine → List ℕ → Encoding → ℕ → List ℕ → List TokenTag
  unfolding tag_of flatten
  tags_from engine logit_rows enc t [] = []
  tags_from engine logit_rows enc t (id ∷ ids) =
      tag_of engine logit_rows enc t (flatten (get_elem? enc.word_ids t))
      ∷ tags_from engine logit_rows enc (suc t) ids

  unfoldable pub decode_row :
      NerEngine → List ℕ → Encoding → List RecognizerResult → List RecognizerResult
  unfolding tags_from aggregate_words decode_spans span_to_result
  decode_row engine logit_rows enc out =
      let tags = tags_from engine logit_rows enc 0 enc.ids in
      out ++ map span_to_result (decode_spans (aggregate_words tags enc.word_ids) engine.threshold)
