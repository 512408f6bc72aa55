-- ===== src/Pii/Validators/AbaRoutingUsa/Laws.antt =====
-- A routing number in which one digit was replaced.
use dbmcp.Prelude.{
  ℕ, ◌%◌, ◌≡◌, ◌≢◌, Bytes, List, ◌∷◌, ◌++◌, Bool, ◌&&◌, arith, ◌==◌, length, length-append,
  as_bytes, All,
}
use dbmcp.Pii.Outcome.{valid, invalid, from_bool}
use dbmcp.Pii.Validators.Digits.{weighted}
use dbmcp.Pii.Validators.Digits.Laws.{digits_of, IsDigit, collect_digits-digits_of}
use dbmcp.Pii.Validators.Digits.Sums.{Detects, weighted-Detects}
use dbmcp.Pii.Validators.Digits.Verdicts.{TellsApart, substitution}
use dbmcp.Pii.Validators.AbaRoutingUsa.{weights, validate}

test : List ℕ → Bool
test ds = length ds == 9 && weighted ds weights % 10 == 0

validate-test : (s : Bytes) → validate s ≡ from_bool (test (digits_of (as_bytes s)))
unfolding validate test
validate-test s = ground (arith, collect_digits-digits_of 9 s)

weights-Detects : All (Detects 10) weights
weights-Detects = omega arith

test-apart : TellsApart test
unfolding test
test-apart xs ys d e hd he old new =
    weighted-Detects 10 xs ys weights d e 0 weights-Detects
      (ground (arith, length-append xs (d ∷ ys))) hd he (ground arith)

-- If a text is a valid routing number, the text with one digit replaced by another is rejected.
routing_number-substitution :
    (pre post : Bytes) (b c : ℕ)
    → IsDigit b
    → IsDigit c
    → b ≢ c
    → validate (pre ++ b ∷ post) ≡ valid
    → validate (pre ++ c ∷ post) ≡ invalid
routing_number-substitution = substitution validate test validate-test test-apart
