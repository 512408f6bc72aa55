-- ===== src/Pii/Ner/Spans.antt =====
-- crates/pii/src/ner.rs: what spans the decoder emits.
use dbmcp.Prelude.{
  ℕ, ◌≤◌, ◌<◌, ◌≡◌, refl, sym, ap, ◌∙◌, List, [], ◌∷◌, ◌++◌, append-nil, append_assoc, subst, Bool,
  true, false, Option, none, some, Result, ok, err, leb, All, All-append, if◌then◌else◌, arith,
}
use dbmcp.Pii.Entity.{Entity}
use dbmcp.Pii.Score.{Score, PatternError, new, rank, max_score, new-in_range}
use dbmcp.Pii.Ner.{
  TokenTag, Span, OpenSpan, scored, flushed, flush, tag_entity, tag_step, decode_from, decode_spans,
  continues, continued, opened,
}

-- A span that the decoder may emit: not empty, and with a score from the threshold up.
abbrev pub Kept : Score → Span → Type 0
Kept threshold s =
    (s.start < s.end) × (rank threshold ≤ rank s.score) × (rank s.score ≤ rank max_score)

All-if :
    (P : Span → Type 0) (b : Bool) (xs ys : List Span)
    → (b ≡ true → All P xs)
    → (b ≡ false → All P ys)
    → All P (if b then xs else ys)
All-if P true xs ys h _ = h refl
All-if P false xs ys _ h = h refl

above : (a b : ℕ) → leb a b ≡ true → a ≤ b
above a b h = ground arith

below : (a b : ℕ) → leb a b ≡ false → b < a
below a b h = ground arith

scored-Kept :
    (o : OpenSpan) (threshold : Score) (r : Result Score PatternError)
    → o.start < o.end
    → ((s : Score) → r ≡ ok s → rank s ≤ rank max_score)
    → All (Kept threshold) (scored o threshold r)
unfolding scored
scored-Kept o threshold (err e) _ _ = tt
scored-Kept o threshold (ok s) h most =
    All-if (Kept threshold) (leb (rank threshold) (rank s)) _ []
      (λ e. ((h, above (rank threshold) (rank s) e, most s refl), tt)) (λ _. tt)

flushed-Kept :
    (o : Option OpenSpan) (threshold : Score) → All (Kept threshold) (flushed o threshold)
unfolding flushed
flushed-Kept none threshold = tt
flushed-Kept (some o) threshold =
    All-if (Kept threshold) (leb o.end o.start) [] _ (λ _. tt)
      (λ e.
        scored-Kept o threshold (new o.max_score) (below o.end o.start e)
          (λ s h. (new-in_range o.max_score h).2))

abbrev State : Type 0
State = List Span × Option OpenSpan

front_if :
    (b : Bool) (spans : List Span) (x y u v : State)
    → x ≡ (spans ++ u.0, u.1)
    → y ≡ (spans ++ v.0, v.1)
    → (if b then x else y) ≡ (spans ++ (if b then u else v).0, (if b then u else v).1)
front_if true spans x y u v hx _ = hx
front_if false spans x y u v _ hy = hy

-- One round adds to what was pushed before, and nothing else depends on that.
tag_entity-front :
    (e : Option Entity) (threshold : Score) (tag : TokenTag) (spans : List Span)
    (o : Option OpenSpan)
    → tag_entity e threshold tag (spans, o)
      ≡ (spans ++ (tag_entity e threshold tag ([], o)).0, (tag_entity e threshold tag ([], o)).1)
unfolding tag_entity flush
tag_entity-front none threshold tag spans o = refl
tag_entity-front (some entity) threshold tag spans o =
    let here = flushed o threshold in
    let longer = continued tag o in
    let next = some (opened entity tag) in
    front_if (continues tag.is_begin o entity) spans (spans, longer) (spans ++ here, next)
      ([], longer) (here, next) (ap (λ l. (l, longer)) (sym (append-nil spans))) refl

first_if :
    (P : Span → Type 0) (b : Bool) (x y : State)
    → All P x.0
    → All P y.0
    → All P (if b then x else y).0
first_if P true x y hx _ = hx
first_if P false x y _ hy = hy

tag_entity-Kept :
    (e : Option Entity) (threshold : Score) (tag : TokenTag) (o : Option OpenSpan)
    → All (Kept threshold) (tag_entity e threshold tag ([], o)).0
unfolding tag_entity flush
tag_entity-Kept none threshold tag o = flushed-Kept o threshold
tag_entity-Kept (some entity) threshold tag o =
    first_if (Kept threshold) (continues tag.is_begin o entity) ([], continued tag o)
      (flushed o threshold, some (opened entity tag)) tt (flushed-Kept o threshold)

-- What was pushed before stays in front.
decode_from-front :
    (tags : List TokenTag) (threshold : Score) (spans : List Span) (o : Option OpenSpan)
    → decode_from tags threshold (spans, o) ≡ spans ++ decode_from tags threshold ([], o)
unfolding decode_from tag_step flush
decode_from-front [] threshold spans o = refl
decode_from-front (tag ∷ tags) threshold spans o =
    let (here, next) = tag_step threshold tag ([], o) in
    ap (decode_from tags threshold) (tag_entity-front tag.entity threshold tag spans o)
    ∙ decode_from-front tags threshold (spans ++ here) next
    ∙ append_assoc spans here (decode_from tags threshold ([], next))
    ∙ ap (λ l. spans ++ l) (sym (decode_from-front tags threshold here next))

decode_from-Kept :
    (tags : List TokenTag) (threshold : Score) (o : Option OpenSpan)
    → All (Kept threshold) (decode_from tags threshold ([], o))
unfolding decode_from tag_step flush
decode_from-Kept [] threshold o = flushed-Kept o threshold
decode_from-Kept (tag ∷ tags) threshold o =
    let (here, next) = tag_step threshold tag ([], o) in
    subst (All (Kept threshold)) (sym (decode_from-front tags threshold here next)) (
      All-append (Kept threshold) here (decode_from tags threshold ([], next))
        (tag_entity-Kept tag.entity threshold tag o) (decode_from-Kept tags threshold next))

-- Every span that is decoded, from whatever tags, is not empty and reaches the threshold.
pub decode_spans-Kept :
    (tags : List TokenTag) (threshold : Score) → All (Kept threshold) (decode_spans tags threshold)
unfolding decode_spans
decode_spans-Kept tags threshold = decode_from-Kept tags threshold none

decode_from-outside :
    (before : List TokenTag) (tag : TokenTag) (behind : List TokenTag) (threshold : Score)
    (s : List Span × Option OpenSpan)
    → tag.entity ≡ none
    → decode_from (before ++ tag ∷ behind) threshold s
      ≡ decode_from before threshold s ++ decode_from behind threshold ([], none)
unfolding decode_from tag_step tag_entity
decode_from-outside [] tag behind threshold (spans, o) h =
    ap (λ e. decode_from behind threshold (tag_entity e threshold tag (spans, o))) h
    ∙ decode_from-front behind threshold (flush spans o threshold) none
decode_from-outside (t ∷ before) tag behind threshold s h =
    decode_from-outside before tag behind threshold (tag_step threshold t s) h

-- A tag without an entity separates: what stands before it and behind it is decoded apart.
pub decode_spans-outside :
    (before : List TokenTag) (tag : TokenTag) (behind : List TokenTag) (threshold : Score)
    → tag.entity ≡ none
    → decode_spans (before ++ tag ∷ behind) threshold
      ≡ decode_spans before threshold ++ decode_spans behind threshold
unfolding decode_spans
decode_spans-outside before tag behind threshold h =
    decode_from-outside before tag behind threshold ([], none) h
