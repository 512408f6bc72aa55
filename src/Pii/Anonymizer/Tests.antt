-- ===== src/Pii/Anonymizer/Tests.antt =====
-- Anonymizing a text at an example of the tests.
use dbmcp.Prelude.{
  ℕ, ◌≡◌, refl, Bytes, codes, List, [], ◌∷◌, ◌++◌, map, some, none, All, arith, is_char_boundary,
  true,
}
use dbmcp.Pii.Entity.{url}
use dbmcp.Pii.Outcome.{unknown}
use dbmcp.Pii.Result.{RecognizerResult}
use dbmcp.Pii.Overlap.{resolve}
use dbmcp.Pii.Operators.{Digests}
use dbmcp.Pii.Anonymizer.{
  PiiOperator, pii_mask, pii_hash, pii_redact, pii_replace, from, OperatorConfig, AnonymizedText,
  anonymize,
}
use dbmcp.Pii.Anonymizer.Audit.{Reads, anonymize-Reads}
use dbmcp.Pii.Anonymizer.Rewrites.{Fits, origin, rewritten, applied, anonymize-rewrites}

-- Digests that are the text itself.
abbrev pub sample_digests : Digests
sample_digests = record { sha256_digest = λ s. s; sha512_digest = λ s. s }

abbrev text : Bytes
text = codes "a www.b c"

abbrev found : RecognizerResult
found = record {
  entity_type = url;
  start = 2;
  end = 7;
  score = record { bits = 0x3f000000 };
  explanation = record {
    recognizer_name = codes "UrlRecognizer";
    pattern_name = none;
    original_score = record { bits = 0x3f000000 };
    validation = unknown;
    final_score = record { bits = 0x3f000000 };
    supportive_keyword = none;
  };
}

fits : All (Fits text) (found ∷ [])
unfolding is_char_boundary
fits = ((omega arith, omega arith, refl, refl), tt)

masks :
    (out : AnonymizedText) × (anonymize sample_digests text (from pii_mask) (found ∷ []) ≡ some out)
    × (out.text ≡ codes "a ***** c")
unfolding anonymize from resolve is_char_boundary dbmcp.Prelude.slice dbmcp.Pii.Operators.apply
    dbmcp.Pii.Anonymizer.select dbmcp.Pii.Operators.default_mask dbmcp.Pii.Operators.Mask.apply
    mathlib.Core.List.flatten dbmcp.Pii.Operators.Mask.chars
masks = (_, refl, refl)

anonymize-Reads_example :
    (out : AnonymizedText) × (anonymize sample_digests text (from pii_mask) (found ∷ []) ≡ some out)
    × All (Reads sample_digests text (from pii_mask) out.text) out.operations
anonymize-Reads_example = anonymize-Reads sample_digests text (from pii_mask) (found ∷ [])

anonymize-rewrites_example :
    (out : AnonymizedText) × (anonymize sample_digests text (from pii_mask) (found ∷ []) ≡ some out)
    × (out.text ≡ rewritten sample_digests text (from pii_mask) 0 (resolve (found ∷ [])))
    × (map origin out.operations
        ≡ map (applied sample_digests text (from pii_mask)) (resolve (found ∷ [])))
anonymize-rewrites_example =
    anonymize-rewrites sample_digests text (from pii_mask) (found ∷ []) fits
