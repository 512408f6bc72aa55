-- ===== src/Pii/Validators/LuhnSinCan/Laws.antt =====
-- A Canadian SIN in which one digit was replaced.
use dbmcp.Prelude.{
  Bool, ℕ, ◌≡◌, ◌≢◌, Bytes, List, ◌∷◌, ◌++◌, Bool, ◌&&◌, arith, ◌==◌, length, as_bytes,
}
use dbmcp.Pii.Outcome.{valid, invalid, from_bool}
use dbmcp.Pii.Validators.Digits.Laws.{digits_of, IsDigit, collect_digits-digits_of}
use dbmcp.Pii.Validators.Digits.Verdicts.{TellsApart, substitution}
use dbmcp.Pii.Validators.Luhn.{luhn_passes}
use dbmcp.Pii.Validators.Luhn.Laws.{luhn_passes-apart}
use dbmcp.Pii.Validators.LuhnSinCan.{validate}

test : List ℕ → Bool
test ds = length ds == 9 && luhn_passes ds

validate-test : (s : Bytes) → validate s ≡ from_bool (test (digits_of (as_bytes s)))
unfolding validate test from_bool
validate-test s = ground (arith, collect_digits-digits_of 9 s)

test-apart : TellsApart test
unfolding test
test-apart xs ys d e hd he old new = luhn_passes-apart xs ys d e hd he (ground arith) (ground arith)

-- If a text is a valid social insurance number, the text with one digit replaced by another is
-- rejected.
pub social_insurance_number-substitution :
    (pre post : Bytes) (b c : ℕ)
    → IsDigit b
    → IsDigit c
    → b ≢ c
    → validate (pre ++ b ∷ post) ≡ valid
    → validate (pre ++ c ∷ post) ≡ invalid
social_insurance_number-substitution = substitution validate test validate-test test-apart
