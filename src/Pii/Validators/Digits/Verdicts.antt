-- ===== src/Pii/Validators/Digits/Verdicts.antt =====
-- Validators that read a text by its digits alone, and the replacement of one digit.
use dbmcp.Prelude.{
  ℕ, ◌≤◌, ◌≡◌, ◌≢◌, ◌∙◌, refl, sym, Bytes, List, ◌∷◌, ◌++◌, Bool, true, false, arith, as_bytes,
}
use dbmcp.Pii.Outcome.{ValidationOutcome, valid, invalid, from_bool}
use dbmcp.Pii.Validators.Digits.{digit}
use dbmcp.Pii.Validators.Digits.Laws.{digits_of, IsDigit, digits_of-digit}

-- Two digits at one place that a test on the digits accepts are equal.
abbrev pub TellsApart : (List ℕ → Bool) → Type 0
TellsApart test =
    (xs ys : List ℕ) (d e : ℕ)
    → d ≤ 9
    → e ≤ 9
    → test (xs ++ d ∷ ys) ≡ true
    → test (xs ++ e ∷ ys) ≡ true
    → d ≡ e

from_bool-eq-valid : (b : Bool) → from_bool b ≡ valid → b ≡ true
unfolding from_bool
from_bool-eq-valid b h = ground arith

refuse : (b : Bool) → (b ≡ true → ⊥) → from_bool b ≡ invalid
unfolding from_bool
refuse true h = absurd (h refl)
refuse false h = refl

module _ (validate : Bytes → ValidationOutcome) (test : List ℕ → Bool)
    (reads_digits : (s : Bytes) → validate s ≡ from_bool (test (digits_of (as_bytes s))))
    (apart : TellsApart test) where
  -- Of two texts that differ in one digit at most one is valid, and the other is rejected.
  pub substitution :
      (pre post : Bytes) (b c : ℕ)
      → IsDigit b
      → IsDigit c
      → b ≢ c
      → validate (pre ++ b ∷ post) ≡ valid
      → validate (pre ++ c ∷ post) ≡ invalid
  unfolding digit
  substitution pre post b c hb hc ne h =
      reads_digits (pre ++ c ∷ post) ∙ refuse _ λ both. ne (digits_differ both)
    where
      digits_differ : test (digits_of (as_bytes (pre ++ c ∷ post))) ≡ true → b ≡ c
      digits_differ both =
          let old : test (digits_of (as_bytes (pre ++ b ∷ post))) ≡ true =
            from_bool-eq-valid _ (sym (reads_digits (pre ++ b ∷ post)) ∙ h) in
          let same : digit b ≡ digit c =
            apart (digits_of (as_bytes pre)) (digits_of (as_bytes post)) (digit b) (digit c)
              (omega arith) (omega arith) (rw (digits_of-digit pre post b hb) at old)
              (rw (digits_of-digit pre post c hc) at both) in
          omega arith
