-- ===== src/Pii/Ner/Rows/Allowed.antt =====
-- crates/pii/src/ner.rs: the entities that the decoder emits.
use dbmcp.Prelude.{
  ℕ, suc, ◌≡◌, refl, List, [], ◌∷◌, ◌++◌, map, Bool, true, false, Option, none, some, Result, ok,
  err, leb, All, All-append, if◌then◌else◌,
}
use dbmcp.Pii.Entity.{Entity}
use dbmcp.Pii.Entity.Equality.{OneOf, any-OneOf}
use dbmcp.Pii.Score.{Score, PatternError, new, rank}
use dbmcp.Pii.Result.{RecognizerResult}
use dbmcp.Pii.Ner.{
  TokenTag, Span, OpenSpan, outside, extend_last, is_current, word_step, words_loop,
  aggregate_words, scored, flushed, flush, continues, continued, opened, tag_entity, tag_step,
  decode_from, decode_spans, span_to_result,
}
use dbmcp.Pii.Ner.Rows.{
  F32, Encoding, NerEngine, entity_allowed, filtered, labelled, tag_of, tags_from, decode_row,
}

module _ (P : Entity → Type 0) where
  EntityOk : Option Entity → Type 0
  EntityOk none = Unit
  EntityOk (some e) = P e

  OpenOk : Option OpenSpan → Type 0
  OpenOk none = Unit
  OpenOk (some o) = P o.entity

  abbrev TagOk : TokenTag → Type 0
  TagOk tag = EntityOk tag.entity

  abbrev SpanOk : Span → Type 0
  SpanOk s = P s.entity

  spans_if :
      (b : Bool) (xs ys : List Span)
      → All SpanOk xs
      → All SpanOk ys
      → All SpanOk (if b then xs else ys)
  spans_if true xs ys hx _ = hx
  spans_if false xs ys _ hy = hy

  scored-Ok :
      (o : OpenSpan) (threshold : Score) (r : Result Score PatternError)
      → P o.entity
      → All SpanOk (scored o threshold r)
  unfolding scored
  scored-Ok o threshold (err e) h = tt
  scored-Ok o threshold (ok s) h = spans_if (leb (rank threshold) (rank s)) (_ ∷ []) [] (h, tt) tt

  flushed-Ok :
      (o : Option OpenSpan) (threshold : Score) → OpenOk o → All SpanOk (flushed o threshold)
  unfolding flushed OpenOk
  flushed-Ok none threshold h = tt
  flushed-Ok (some o) threshold h =
      spans_if (leb o.end o.start) [] (scored o threshold (new o.max_score)) tt
        (scored-Ok o threshold (new o.max_score) h)

  abbrev StateOk : List Span × Option OpenSpan → Type 0
  StateOk s = All SpanOk s.0 × OpenOk s.1

  continued-Ok : (tag : TokenTag) (o : Option OpenSpan) → OpenOk o → OpenOk (continued tag o)
  unfolding continued OpenOk
  continued-Ok tag none h = tt
  continued-Ok tag (some o) h = h

  if-Ok :
      (b : Bool) (x y : List Span × Option OpenSpan)
      → StateOk x
      → StateOk y
      → StateOk (if b then x else y)
  if-Ok true x y hx _ = hx
  if-Ok false x y _ hy = hy

  tag_entity-Ok :
      (e : Option Entity) (threshold : Score) (tag : TokenTag) (s : List Span × Option OpenSpan)
      → EntityOk e
      → StateOk s
      → StateOk (tag_entity e threshold tag s)
  unfolding tag_entity flush EntityOk OpenOk opened
  tag_entity-Ok none threshold tag (spans, o) _ (hs, ho) =
      (All-append SpanOk spans (flushed o threshold) hs (flushed-Ok o threshold ho), tt)
  tag_entity-Ok (some e) threshold tag (spans, o) h (hs, ho) =
      if-Ok (continues tag.is_begin o e) (spans, continued tag o)
        (spans ++ flushed o threshold, some (opened e tag)) (hs, continued-Ok tag o ho)
        (All-append SpanOk spans (flushed o threshold) hs (flushed-Ok o threshold ho), h)

  decode_from-Ok :
      (tags : List TokenTag) (threshold : Score) (s : List Span × Option OpenSpan)
      → All TagOk tags
      → StateOk s
      → All SpanOk (decode_from tags threshold s)
  unfolding decode_from flush tag_step
  decode_from-Ok [] threshold (spans, o) _ (hs, ho) =
      All-append SpanOk spans (flushed o threshold) hs (flushed-Ok o threshold ho)
  decode_from-Ok (tag ∷ tags) threshold s (h, hs) hst =
      decode_from-Ok tags threshold (tag_step threshold tag s) hs
        (tag_entity-Ok tag.entity threshold tag s h hst)

  extend_last-Ok :
      (tag : TokenTag) (out : List TokenTag) → All TagOk out → All TagOk (extend_last tag out)
  unfolding extend_last
  extend_last-Ok tag [] h = tt
  extend_last-Ok tag (last ∷ []) h = h
  extend_last-Ok tag (first ∷ next ∷ out) (h, hs) = (h, extend_last-Ok tag (next ∷ out) hs)

  if_words :
      (b : Bool) (x y : Option ℕ × List TokenTag)
      → All TagOk x.1
      → All TagOk y.1
      → All TagOk (if b then x else y).1
  if_words true x y hx _ = hx
  if_words false x y _ hy = hy

  word_step-Ok :
      (tag : TokenTag) (wid : Option ℕ) (s : Option ℕ × List TokenTag)
      → TagOk tag
      → All TagOk s.1
      → All TagOk (word_step tag wid s).1
  unfolding word_step EntityOk
  word_step-Ok tag none (current, out) _ hs = All-append TagOk out (outside ∷ []) hs (tt, tt)
  word_step-Ok tag (some id) (current, out) h hs =
      if_words (is_current current id) (current, extend_last tag out) (some id, out ++ tag ∷ [])
        (extend_last-Ok tag out hs) (All-append TagOk out (tag ∷ []) hs (h, tt))

  words_loop-Ok :
      (tags : List TokenTag) (wids : List (Option ℕ)) (s : Option ℕ × List TokenTag)
      → All TagOk tags
      → All TagOk s.1
      → All TagOk (words_loop tags wids s).1
  unfolding words_loop
  words_loop-Ok [] wids s _ h = h
  words_loop-Ok (tag ∷ tags) [] s _ h = h
  words_loop-Ok (tag ∷ tags) (wid ∷ wids) s (ht, hts) h =
      words_loop-Ok tags wids (word_step tag wid s) hts (word_step-Ok tag wid s ht h)

  entity_if : (b : Bool) (e : Entity) → (b ≡ true → P e) → EntityOk (if b then some e else none)
  unfolding EntityOk
  entity_if true e h = h refl
  entity_if false e h = tt

-- The entity is one of those that the engine is set to.
abbrev pub Allowed : NerEngine → Entity → Type 0
Allowed engine e = OneOf e engine.allowed

entity_allowed-Allowed :
    (engine : NerEngine) (e : Entity) → entity_allowed engine (some e) ≡ true → Allowed engine e
unfolding entity_allowed
entity_allowed-Allowed engine e h = any-OneOf e engine.allowed h

filtered-Ok :
    (engine : NerEngine) (e : Option Entity) → EntityOk (Allowed engine) (filtered engine e)
unfolding filtered EntityOk
filtered-Ok engine none = tt
filtered-Ok engine (some e) =
    entity_if (Allowed engine) (entity_allowed engine (some e)) e (entity_allowed-Allowed engine e)

module _ (f32 : F32) (engine : NerEngine) where
  tag_of-Ok :
      (row : List ℕ) (enc : Encoding) (t : ℕ) (wid : Option ℕ)
      → TagOk (Allowed engine) (tag_of f32 engine row enc t wid)
  unfolding tag_of labelled EntityOk
  tag_of-Ok row enc t none = tt
  tag_of-Ok row enc t (some id) = filtered-Ok engine _

  tags_from-Ok :
      (row : List ℕ) (enc : Encoding) (t : ℕ) (ids : List ℕ)
      → All (TagOk (Allowed engine)) (tags_from f32 engine row enc t ids)
  unfolding tags_from
  tags_from-Ok row enc t [] = tt
  tags_from-Ok row enc t (id ∷ ids) = (tag_of-Ok row enc t _, tags_from-Ok row enc (suc t) ids)

  results-Ok :
      (spans : List Span)
      → All (SpanOk (Allowed engine)) spans
      → All (λ r. Allowed engine r.entity_type) (map span_to_result spans)
  unfolding span_to_result
  results-Ok [] h = tt
  results-Ok (s ∷ spans) (h, hs) = (h, results-Ok spans hs)

-- Whatever the logits are, the results that a row adds are of entities in the list of those that are
-- allowed, where the results before it are.
pub decode_row-Allowed :
    (f32 : F32) (engine : NerEngine) (row : List ℕ) (enc : Encoding) (out : List RecognizerResult)
    → All (λ r. Allowed engine r.entity_type) out
    → All (λ r. Allowed engine r.entity_type) (decode_row f32 engine row enc out)
unfolding decode_row aggregate_words decode_spans OpenOk
decode_row-Allowed f32 engine row enc out h =
    let tags = tags_from f32 engine row enc 0 enc.ids in
    let words = aggregate_words tags enc.word_ids in
    All-append _ out (map span_to_result (decode_spans words engine.threshold)) h (
      results-Ok f32 engine (decode_spans words engine.threshold) (
        decode_from-Ok (Allowed engine) words engine.threshold ([], none)
          (words_loop-Ok (Allowed engine) tags enc.word_ids (none, [])
            (tags_from-Ok f32 engine row enc 0 enc.ids) tt)
          (tt, tt)))
