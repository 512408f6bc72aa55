-- ===== src/Pii/Ner/Tests.antt =====
-- crates/pii/src/ner.rs: the labels and the decoder at examples.
use dbmcp.Prelude.{
  ℕ, codes, ◌≡◌, refl, List, [], ◌∷◌, ◌++◌, Bool, true, false, none, some, ok, err, All, ltb,
}
use dbmcp.Pii.Entity.{Entity, person, location}
use dbmcp.Pii.Score.{Score}
use dbmcp.Pii.Ner.{
  TokenTag, Span, outside, out_of_range, indexed, parse_bio, span_to_result, has_supported_entity,
  aggregate_words, decode_spans,
}
use dbmcp.Pii.Ner.Spans.{Kept, decode_spans-Kept, decode_spans-outside}
use dbmcp.Pii.Ner.Rows.{F32, Encoding, NerEngine, decode_row}
use dbmcp.Pii.Ner.Rows.Allowed.{Allowed, decode_row-Allowed}

abbrev half : Score
half = record { bits = 0x3f000000 }

abbrev tag : Entity → Bool → ℕ → ℕ → ℕ → TokenTag
tag e b p i j = record { entity = some e; is_begin = b; score = p; start = i; end = j }

abbrev high : ℕ
high = 0x3f666666

abbrev low : ℕ
low = 0x3e99999a

-- Two subwords of a word, and a word that continues it.
abbrev name : List TokenTag
name = tag person true low 0 2 ∷ tag person false high 2 4 ∷ tag person false low 5 9 ∷ []

abbrev place : List TokenTag
place = tag location true low 10 12 ∷ tag location true high 12 20 ∷ []

person_span :
    decode_spans name half
    ≡ record { entity = person; start = 0; end = 9; score = record { bits = high } } ∷ []
unfolding decode_spans
person_span = refl

place_span :
    decode_spans place half
    ≡ record { entity = location; start = 12; end = 20; score = record { bits = high } } ∷ []
unfolding decode_spans
place_span = refl

words_of_name :
    aggregate_words name (some 0 ∷ some 0 ∷ none ∷ []) ≡ tag person true high 0 4 ∷ outside ∷ []
unfolding aggregate_words
words_of_name = refl

begin_label : parse_bio (codes "B-GPE") ≡ (some location, true)
unfolding parse_bio
begin_label = refl

unsupported : has_supported_entity (codes "O" ∷ codes "B-DATE" ∷ []) ≡ false
unfolding has_supported_entity
unsupported = refl

in_order :
    indexed 0 ((0, codes "O") ∷ (1, codes "B-PER") ∷ []) ≡ ok (codes "O" ∷ codes "B-PER" ∷ [])
unfolding indexed
in_order = refl

index_missing : indexed 0 ((0, codes "O") ∷ (2, codes "B-PER") ∷ []) ≡ err (out_of_range 2)
unfolding indexed
index_missing = refl

decode_spans-Kept_example : All (Kept half) (decode_spans (name ++ place) half)
decode_spans-Kept_example = decode_spans-Kept (name ++ place) half

decode_spans-outside_example :
    decode_spans (name ++ outside ∷ place) half ≡ decode_spans name half ++ decode_spans place half
decode_spans-outside_example = decode_spans-outside name outside place half refl

-- An arithmetic in which every softmax has the probability 1.0.
abbrev toy : F32
toy = record {
  gt = λ a b. ltb b a;
  sub = λ a b. 0;
  exp = λ x. 0x3f800000;
  add = λ a b. 0x3f800000;
  inverse = λ p. p;
  sum_start = 0;
  neg_infinity = 0;
}

abbrev people_only : NerEngine
people_only = record {
  id2label = codes "O" ∷ codes "B-PER" ∷ codes "B-LOC" ∷ [];
  threshold = half;
  allowed = person ∷ [];
}

abbrev encoding : Encoding
encoding = record {
  ids = 101 ∷ 7 ∷ 8 ∷ [];
  offsets = (0, 0) ∷ (0, 4) ∷ (5, 9) ∷ [];
  word_ids = none ∷ some 0 ∷ some 1 ∷ [];
}

-- A special token, a person and a location.
abbrev logits : List ℕ
logits = 9 ∷ 1 ∷ 1 ∷ 1 ∷ 9 ∷ 1 ∷ 1 ∷ 1 ∷ 9 ∷ []

abbrev found : Span
found = record { entity = person; start = 0; end = 4; score = record { bits = 0x3f800000 } }

person_alone : decode_row toy people_only logits encoding [] ≡ span_to_result found ∷ []
unfolding decode_row span_to_result
person_alone = refl

decode_row-Allowed_example :
    All (λ r. Allowed people_only r.entity_type) (decode_row toy people_only logits encoding [])
decode_row-Allowed_example = decode_row-Allowed toy people_only logits encoding [] tt
