-- ===== src/Pii/Validators/Mod11NhsGbr/Laws.antt =====
-- An NHS number in which one digit was replaced.
use dbmcp.Prelude.{
  Bool, get_or, take, ◌*◌, ℕ, ◌+◌, ◌*◌, ◌%◌, ◌≡◌, ◌≢◌, Bytes, List, [], ◌∷◌, ◌++◌, Bool, true,
  false, ◌&&◌, Option, none, some, arith, ◌==◌, length, length-append, take, get_or, as_bytes, All,
}
use dbmcp.Pii.Outcome.{valid, invalid, from_bool}
use dbmcp.Pii.Validators.Digits.{weighted}
use dbmcp.Pii.Validators.Digits.Laws.{digits_of, IsDigit, collect_digits-digits_of}
use dbmcp.Pii.Validators.Digits.Verdicts.{TellsApart, substitution}
use dbmcp.Pii.Validators.Digits.Sums.{Detects, weighted-Detects}
use dbmcp.Pii.Validators.Digits.{weighted}
use dbmcp.Pii.Validators.Mod11NhsGbr.{weights, check_digit, validate}

weighted-snoc :
    (ds ws : List ℕ) (w : ℕ)
    → weighted ds (ws ++ w ∷ []) ≡ weighted (take (length ws) ds) ws + get_or ds (length ws) 0 * w
unfolding weighted
weighted-snoc [] [] w = omega arith
weighted-snoc [] (v ∷ ws) w = omega arith
weighted-snoc (d ∷ []) [] w = omega arith
weighted-snoc (d ∷ e ∷ ds) [] w = omega arith
weighted-snoc (d ∷ ds) (v ∷ ws) w = omega (arith, weighted-snoc ds ws w)

has_check : Option ℕ → ℕ → Bool
has_check none d = false
has_check (some check) d = check == d

test : List ℕ → Bool
unfolding has_check
test ds = length ds == 10 && has_check (check_digit (weighted (take 9 ds) weights)) (get_or ds 9 0)

validate-test : (s : Bytes) → validate s ≡ from_bool (test (digits_of (as_bytes s)))
unfolding validate test from_bool
validate-test s = ground (arith, collect_digits-digits_of 10 s)

-- An accepted number has a sum, its check digit included, that 11 divides.
has_check-sum : (sum d : ℕ) → has_check (check_digit sum) d ≡ true → (sum + d * 1) % 11 ≡ 0
unfolding has_check check_digit
has_check-sum sum d h = ground arith

test-sum : (ds : List ℕ) → test ds ≡ true → weighted ds (weights ++ 1 ∷ []) % 11 ≡ 0
unfolding test
test-sum ds h =
    rw (weighted-snoc ds weights 1)
      (has_check-sum (weighted (take 9 ds) weights) (get_or ds 9 0) (ground arith))

weights-Detects : All (Detects 11) (weights ++ 1 ∷ [])
weights-Detects = omega arith

test-length : (ds : List ℕ) → test ds ≡ true → length ds ≡ 10
unfolding test
test-length ds h = ground arith

test-apart : TellsApart test
test-apart xs ys d e hd he old new =
    weighted-Detects 11 xs ys (weights ++ 1 ∷ []) d e 0 weights-Detects
      (omega (arith, test-length (xs ++ d ∷ ys) old, length-append xs (d ∷ ys))) hd he
      (omega (arith, test-sum (xs ++ d ∷ ys) old, test-sum (xs ++ e ∷ ys) new))

-- If a text is a valid NHS number, the text with one digit replaced by another is rejected.
nhs_number-substitution :
    (pre post : Bytes) (b c : ℕ)
    → IsDigit b
    → IsDigit c
    → b ≢ c
    → validate (pre ++ b ∷ post) ≡ valid
    → validate (pre ++ c ∷ post) ≡ invalid
nhs_number-substitution = substitution validate test validate-test test-apart
