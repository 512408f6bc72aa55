-- ===== src/Pii/Analyzer/Samples.antt =====
-- A recognizer, and what the tests take for the libraries.
use Prim.Native.Nat.{max}
use dbmcp.Prelude.{
  ℕ, ◌%◌, ◌^◌, ◌≤◌, inl, Bytes, codes, [], ◌∷◌, some, none, false, All, arith, bytes_eq, not,
}
use dbmcp.Pii.Category.{personal}
use dbmcp.Pii.Entity.{phone_number}
use dbmcp.Pii.Score.{Score, InUnit, rank}
use dbmcp.Pii.Operators.{Digests}
use dbmcp.Pii.Validators.{Libraries, noop}
use dbmcp.Pii.Words.{Unicode}
use dbmcp.Pii.Recognizers.{Recognizer, Pattern}
use dbmcp.Pii.Context.{default_settings}
use dbmcp.Pii.Context.Scores.{NotNegative}
use dbmcp.Pii.Analyzer.{AnalyzeOptions}

abbrev pub sample_digests : Digests
sample_digests = record { sha256_digest = λ s. s; sha512_digest = λ s. s }

abbrev pub no_libraries : Libraries
no_libraries = record {
  ip_from_str = λ s. false;
  base64_decode = λ s. none;
  header_alg = λ s. none;
  base58check = λ s n. false;
  bech32_hrp = λ s. none;
}

-- Every character but the space is alphanumeric, and in lower case.
abbrev pub sample_unicode : Unicode
sample_unicode = record {
  is_alphanumeric = λ c. not (bytes_eq c (codes " "));
  to_lowercase = λ c. c;
}

-- A sum that is always 0.5.
abbrev pub half_sum : ℕ → ℕ → ℕ
half_sum a b = 0x3f000000

-- A sum that is the higher of the two.
abbrev pub high_sum : ℕ → ℕ → ℕ
high_sum a b = max (a % 2 ^ 31) (b % 2 ^ 31)

abbrev pub text : Bytes
text = codes "my phone 415"

abbrev pub digits : Pattern
digits = record {
  name = codes "p";
  score = record { bits = 0x3dcccccd };
  find_iter = λ s. some (9, 12) ∷ none ∷ [];
}

abbrev pub phones : Recognizer
phones = record {
  entity_type = phone_number;
  name = codes "PhoneRecognizer";
  regexes = digits ∷ [];
  validator = noop;
  category = personal;
  context = codes "phone" ∷ [];
}

abbrev pub with_settings : AnalyzeOptions
with_settings = record { min_score = record { bits = 0x3ecccccd }; context = some default_settings }

pub scores : All (λ (p : Pattern). InUnit p.score) (digits ∷ [])
scores = (inl (omega arith), tt)

pub half_is_positive : (a b : Score) → InUnit a → InUnit b → NotNegative (half_sum a.bits b.bits)
half_is_positive a b _ _ = inl (omega arith)

pub high_sum_no_lower :
    (a b : Score)
    → InUnit a
    → InUnit b
    → NotNegative (high_sum a.bits b.bits)
      × (rank a ≤ rank (record { bits = high_sum a.bits b.bits }))
unfolding rank
high_sum_no_lower a b h k = ground arith

pub settled :
    InUnit default_settings.similarity_factor × InUnit default_settings.min_score_with_context
settled = (inl (omega arith), inl (omega arith))
