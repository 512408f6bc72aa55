-- ===== src/Pii/Analyzer/Tests.antt =====
-- The analysis of a text by one recognizer.
use dbmcp.Prelude.{
  ◌≢◌, any, ℕ, ◌≡◌, ◌≤◌, ◌+◌, refl, inl, inr, Bytes, codes, List, [], ◌∷◌, ◌++◌, map, some, none,
  Option, ok, err, false, All, arith, is_char_boundary, true, bytes_eq, not,
}
use dbmcp.Pii.Category.{category_eq, financial, personal}
use dbmcp.Pii.Entity.{url, phone_number}
use dbmcp.Pii.Outcome.{unknown}
use dbmcp.Pii.Score.{rank}
use dbmcp.Pii.Result.{RecognizerResult}
use dbmcp.Pii.Overlap.Disjoint.{Disjoint}
use dbmcp.Pii.Validators.{noop}
use dbmcp.Pii.Words.{push_key_words}
use dbmcp.Pii.Analyzer.Categories.{build-tagged}
use dbmcp.Pii.Recognizers.{
  empty_pattern_list, new, with_name, with_validator, with_category, with_context, analyze,
}
use dbmcp.Pii.Recognizers.Fits.{Sound, analyze-total}
use dbmcp.Pii.Context.{default_settings, apply_context_boost}
use dbmcp.Pii.Context.Lifts.{AllLifted, apply_context_boost-Lifted}
use dbmcp.Pii.Anonymizer.{AnonymizedText, anonymize, from, pii_replace}
use dbmcp.Pii.Anonymizer.Rewrites.{Fits, rewritten}
use dbmcp.Pii.Analyzer.{analyze_with_context, contains, build, empty_category, from_config}
use dbmcp.Pii.Analyzer.Redacts.{analyze-redacts}
use dbmcp.Pii.Analyzer.Samples.{
  sample_digests, no_libraries, sample_unicode, half_sum, high_sum, high_sum_no_lower, text, digits,
  phones, with_settings, scores, half_is_positive, settled,
}

analyze-total_example :
    (rs : List RecognizerResult) × (analyze no_libraries phones text ≡ some rs)
    × All (Sound text) rs
analyze-total_example = analyze-total no_libraries phones text scores

abbrev hit : RecognizerResult
hit = record {
  entity_type = phone_number;
  start = 9;
  end = 12;
  score = record { bits = 0x3dcccccd };
  explanation = record {
    recognizer_name = codes "PhoneRecognizer";
    pattern_name = none;
    original_score = record { bits = 0x3dcccccd };
    validation = unknown;
    final_score = record { bits = 0x3dcccccd };
    supportive_keyword = none;
  };
}

hit-Sound : All (Sound text) (hit ∷ [])
unfolding is_char_boundary
hit-Sound = (((omega arith, omega arith, refl, refl), inl (omega arith)), tt)

boosts :
    (rs : List RecognizerResult) × (apply_context_boost sample_unicode half_sum text
        (hit ∷ [])
        phones
        []
        default_settings
      ≡ some rs)
    × (map (λ r. r.score) rs ≡ record { bits = 0x3f000000 } ∷ [])
unfolding apply_context_boost dbmcp.Prelude.slice is_char_boundary
boosts = (_, refl, refl)

apply_context_boost-Lifted_example :
    (rs : List RecognizerResult) × (apply_context_boost sample_unicode high_sum text
        (hit ∷ [])
        phones
        []
        default_settings
      ≡ some rs)
    × All (Sound text) rs
    × AllLifted sample_unicode high_sum text phones.context [] default_settings (hit ∷ []) rs
apply_context_boost-Lifted_example =
    apply_context_boost-Lifted sample_unicode high_sum text (hit ∷ []) phones [] default_settings
      high_sum_no_lower settled.0 settled.1 hit-Sound

analyze-redacts_example :
    (rs : List RecognizerResult) × (out : AnonymizedText) × (analyze_with_context no_libraries
        sample_unicode half_sum
        (phones ∷ [])
        text
        []
        with_settings
      ≡ some rs)
    × All (λ r. Fits text r × (rank with_settings.min_score ≤ rank r.score)) rs
    × Disjoint rs
    × (anonymize sample_digests text (from pii_replace) rs ≡ some out)
    × (out.text ≡ rewritten sample_digests text (from pii_replace) 0 rs)
analyze-redacts_example =
    analyze-redacts no_libraries sample_unicode half_sum (phones ∷ []) text [] with_settings
      sample_digests (from pii_replace) half_is_positive settled (scores, tt)

no_patterns : new url [] ≡ err empty_pattern_list
unfolding new
no_patterns = refl

builds :
    (new url (digits ∷ [])
      ≡ ok (
          with_context
            (with_category
              (with_validator
                (with_name (record phones { entity_type = url }) (codes "URLRecognizer"))
                noop)
              personal)
            []))
unfolding new with_context with_category with_validator with_name
builds = refl

no_recognizer_for : build (phones ∷ []) (some (financial ∷ [])) ≡ err (empty_category financial)
unfolding build
no_recognizer_for = refl

falls_back : from_config (phones ∷ []) (some (financial ∷ financial ∷ [])) ≡ phones ∷ []
unfolding from_config
falls_back = refl

key_words_of :
    push_key_words [] (codes "Customer_e-mail")
    ≡ (codes "customer" ∷ codes "e" ∷ codes "mail" ∷ [], 3)
unfolding push_key_words
key_words_of = refl

builds_personal : build (phones ∷ []) (some (personal ∷ [])) ≡ ok (phones ∷ [])
unfolding build
builds_personal = refl

build-tagged_example :
    All (λ r. contains (personal ∷ []) r.category ≡ true) (phones ∷ [])
    × All (λ c. any (λ r. category_eq r.category c) (phones ∷ []) ≡ true) (personal ∷ [])
build-tagged_example = build-tagged (phones ∷ []) (personal ∷ []) (phones ∷ []) builds_personal
