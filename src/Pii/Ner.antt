-- ===== src/Pii/Ner.antt =====
-- crates/pii/src/ner.rs: the labels of a model and the way from the tags of its tokens to spans. The
-- tokenizer and the session that runs the model are not modelled; the score of a tag is the bit
-- pattern of a probability, so not negative.
pub mod Spans
pub mod Rows
mod Tests
use dbmcp.Prelude.{
  ℕ, zero, suc, Bytes, codes, List, [], ◌∷◌, ◌++◌, Bool, true, false, not, ◌&&◌, ◌||◌, ◌==◌, ltb,
  leb, Option, none, some, Result, ok, err, any, bytes_eq, strip_prefix, if◌then◌else◌,
}
use dbmcp.Pii.Context.{f32_max}
use dbmcp.Pii.Entity.{Entity, entity_eq}
use dbmcp.Pii.Outcome.{ValidationOutcome}
use dbmcp.Pii.Result.{RecognizerResult}
use dbmcp.Pii.Score.{Score, PatternError, new, rank}

-- `NerError::Load` for an index that is out of range; the other loads are not modelled.
pub data NerError : Type 0 where
  out_of_range : ℕ → NerError

-- The loop of `parse_id2label` over the map that was read, which is in the order of its keys.
unfoldable pub indexed : ℕ → List (ℕ × Bytes) → Result (List Bytes) NerError
indexed expected [] = ok []
indexed expected ((idx, label) ∷ cfg) =
    let rest = indexed (suc expected) cfg in
    if idx == expected
    then elim rest [ ok labels ↦ ok (label ∷ labels) | err e ↦ err e ]
    else err (out_of_range idx)

abbrev pub ner_entities : List Entity
ner_entities =
    Entity.person ∷ Entity.location ∷ Entity.organization ∷ Entity.nrp ∷ Entity.facility ∷ []

-- The arms of the `match`, in order.
unfoldable pub entity_for_core : Bytes → Option Entity
unfolding bytes_eq
entity_for_core core =
    if bytes_eq core (codes "PER") || bytes_eq core (codes "PERSON")
    then some Entity.person
    else if bytes_eq core (codes "LOC") || bytes_eq core (codes "GPE")
    then some Entity.location
    else if bytes_eq core (codes "ORG") || bytes_eq core (codes "ORGANIZATION")
    then some Entity.organization
    else if bytes_eq core (codes "NORP") || bytes_eq core (codes "NRP")
    then some Entity.nrp
    else if bytes_eq core (codes "FAC")
    then some Entity.facility
    else none

-- What `parse_bio` makes of what stands behind `B-`, if the label has it, and behind `I-`.
bio_of : Option Bytes → Option Bytes → Option Entity × Bool
unfolding entity_for_core
bio_of (some core) _ = (entity_for_core core, true)
bio_of none (some core) = (entity_for_core core, false)
bio_of none none = (none, false)

unfoldable pub parse_bio : Bytes → Option Entity × Bool
unfolding bio_of strip_prefix
parse_bio label = bio_of (strip_prefix (codes "B-") label) (strip_prefix (codes "I-") label)

-- `Option::is_some`
is_some : Option Entity → Bool
is_some none = false
is_some (some e) = true

unfoldable pub has_supported_entity : List Bytes → Bool
unfolding is_some parse_bio
has_supported_entity labels = any (λ label. is_some (parse_bio label).0) labels

pub record TokenTag : Type 0 where
  pub entity : Option Entity
  pub is_begin : Bool
  pub score : ℕ
  pub start : ℕ
  pub end : ℕ

abbrev pub outside : TokenTag
outside = record { entity = none; is_begin = false; score = 0; start = 0; end = 0 }

pub record Span : Type 0 where
  pub entity : Entity
  pub start : ℕ
  pub end : ℕ
  pub score : Score

pub record OpenSpan : Type 0 where
  pub entity : Entity
  pub start : ℕ
  pub end : ℕ
  pub max_score : ℕ

-- The change of `out.last_mut()` by a further subword.
extend_last : TokenTag → List TokenTag → List TokenTag
unfolding f32_max
extend_last tag [] = []
extend_last tag (last ∷ []) =
    record last { end = tag.end; score = f32_max last.score tag.score } ∷ []
extend_last tag (first ∷ next ∷ out) = first ∷ extend_last tag (next ∷ out)

-- `current == Some(id)`
is_current : Option ℕ → ℕ → Bool
is_current none id = false
is_current (some current) id = current == id

-- One round of `aggregate_words`, on `current` and `out`.
unfoldable pub word_step : TokenTag → Option ℕ → Option ℕ × List TokenTag → Option ℕ × List TokenTag
unfolding extend_last is_current
word_step tag none (current, out) = (none, out ++ outside ∷ [])
word_step tag (some id) (current, out) =
    if is_current current id then (current, extend_last tag out) else (some id, out ++ tag ∷ [])

words_loop : List TokenTag → List (Option ℕ) → Option ℕ × List TokenTag → Option ℕ × List TokenTag
unfolding word_step
words_loop [] wids s = s
words_loop (tag ∷ tags) [] s = s
words_loop (tag ∷ tags) (wid ∷ wids) s = words_loop tags wids (word_step tag wid s)

unfoldable pub aggregate_words : List TokenTag → List (Option ℕ) → List TokenTag
unfolding words_loop
aggregate_words tags word_ids = (words_loop tags word_ids (none, [])).1

-- What `flush` pushes for a span that is not empty.
scored : OpenSpan → Score → Result Score PatternError → List Span
unfolding rank
scored o threshold (err e) = []
scored o threshold (ok score) =
    if leb (rank threshold) (rank score)
    then record { entity = o.entity; start = o.start; end = o.end; score = score } ∷ []
    else []

-- What `flush` pushes.
unfoldable pub flushed : Option OpenSpan → Score → List Span
unfolding scored new
flushed none threshold = []
flushed (some o) threshold = if leb o.end o.start then [] else scored o threshold (new o.max_score)

unfoldable pub flush : List Span → Option OpenSpan → Score → List Span
unfolding flushed
flush spans open_span threshold = spans ++ flushed open_span threshold

-- `!tag.is_begin && open.as_ref().is_some_and(|o| o.entity == entity)`
continues : Bool → Option OpenSpan → Entity → Bool
unfolding entity_eq
continues is_begin none entity = false
continues is_begin (some o) entity = not is_begin && entity_eq o.entity entity

-- The open span that starts at a tag, and the one that a tag continues.
opened : Entity → TokenTag → OpenSpan
opened entity tag = record {
  entity = entity;
  start = tag.start;
  end = tag.end;
  max_score = tag.score;
}

continued : TokenTag → Option OpenSpan → Option OpenSpan
unfolding f32_max
continued tag none = none
continued tag (some o) =
    some (record o { end = tag.end; max_score = f32_max o.max_score tag.score })

tag_entity :
    Option Entity → Score → TokenTag → List Span × Option OpenSpan → List Span × Option OpenSpan
unfolding flush continues opened continued
tag_entity none threshold tag (spans, open_span) = (flush spans open_span threshold, none)
tag_entity (some entity) threshold tag (spans, open_span) =
    if continues tag.is_begin open_span entity
    then (spans, continued tag open_span)
    else (flush spans open_span threshold, some (opened entity tag))

-- One round of `decode_spans`.
unfoldable pub tag_step :
    Score → TokenTag → List Span × Option OpenSpan → List Span × Option OpenSpan
unfolding tag_entity
tag_step threshold tag s = tag_entity tag.entity threshold tag s

-- The rounds, and the last flush.
unfoldable pub decode_from : List TokenTag → Score → List Span × Option OpenSpan → List Span
unfolding tag_step flush
decode_from [] threshold (spans, open_span) = flush spans open_span threshold
decode_from (tag ∷ tags) threshold s = decode_from tags threshold (tag_step threshold tag s)

unfoldable pub decode_spans : List TokenTag → Score → List Span
unfolding decode_from
decode_spans tags threshold = decode_from tags threshold ([], none)

unfoldable pub span_to_result : Span → RecognizerResult
span_to_result span = record {
  entity_type = span.entity;
  start = span.start;
  end = span.end;
  score = span.score;
  explanation = record {
    recognizer_name = codes "BertNerRecognizer";
    pattern_name = none;
    original_score = span.score;
    validation = ValidationOutcome.unknown;
    final_score = span.score;
    supportive_keyword = none;
  };
}
