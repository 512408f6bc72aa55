-- ===== src/Pii/Validators/TaxIdDeu/Laws.antt =====
-- A German tax number in which one digit was replaced.
use dbmcp.Prelude.{
  zero, suc, Bool, get_or, take, ◌-◌, not, ℕ, zero, suc, ◌-◌, ◌≤◌, ◌≡◌, ◌≢◌, Bytes, List, [], ◌∷◌,
  ◌++◌, Bool, true, ◌&&◌, arith, ◌==◌, if◌then◌else◌, length, length-append, take, get_or, as_bytes,
}
use dbmcp.Pii.Outcome.{valid, invalid, from_bool}
use dbmcp.Pii.Validators.Digits.Laws.{digits_of, IsDigit, collect_digits-digits_of}
use dbmcp.Pii.Validators.Digits.Verdicts.{TellsApart, substitution}
use dbmcp.Pii.Validators.TaxIdDeu.{round, product_of, crowded, validate}

-- The test of the check digit behind `n` digits, from a running product.
check_from : ℕ → ℕ → List ℕ → Bool
unfolding product_of
check_from n product ds =
    let last = product_of (take n ds) product in
    (if 11 - last == 10 then 0 else 11 - last) == get_or ds n 0

abbrev InRange : ℕ → Type 0
InRange p = (1 ≤ p) × (p ≤ 10)

round-InRange : (p d : ℕ) → InRange (round p d)
unfolding round
round-InRange p d = ground arith

round-apart : (p q d : ℕ) → InRange p → InRange q → round p d ≡ round q d → p ≡ q
unfolding round
round-apart p q d hp hq same = ground arith

round-digit-apart : (p d e : ℕ) → d ≤ 9 → e ≤ 9 → round p d ≡ round p e → d ≡ e
unfolding round
round-digit-apart p d e hd he same = ground arith

-- Two products that the same digits complete are equal.
check_from-apart :
    (n p q : ℕ) (ds : List ℕ)
    → InRange p
    → InRange q
    → check_from n p ds ≡ true
    → check_from n q ds ≡ true
    → p ≡ q
unfolding check_from
check_from-apart zero p q ds hp hq old new = ground arith
check_from-apart (suc n) p q [] hp hq old new = ground arith
check_from-apart (suc n) p q (d ∷ ds) hp hq old new =
    round-apart p q d hp hq (
      check_from-apart n (round p d) (round q d) ds (round-InRange p d) (round-InRange q d) old new)

check_from-digit-apart :
    (n p : ℕ) (xs ys : List ℕ) (d e : ℕ)
    → length xs ≤ n
    → d ≤ 9
    → e ≤ 9
    → check_from n p (xs ++ d ∷ ys) ≡ true
    → check_from n p (xs ++ e ∷ ys) ≡ true
    → d ≡ e
unfolding check_from
check_from-digit-apart zero p [] ys d e room hd he old new = ground arith
check_from-digit-apart zero p (x ∷ xs) ys d e room hd he old new = absurd (omega arith)
check_from-digit-apart (suc n) p [] ys d e room hd he old new =
    round-digit-apart p d e hd he (
      check_from-apart n (round p d) (round p e) ys (round-InRange p d) (round-InRange p e) old new)
check_from-digit-apart (suc n) p (x ∷ xs) ys d e room hd he old new =
    check_from-digit-apart n (round p x) xs ys d e (omega arith) hd he old new

test : List ℕ → Bool
test ds =
    length ds == 11 && not (get_or ds 0 0 == 0) && not (crowded (take 10 ds)) && check_from 10 10 ds

validate-test : (s : Bytes) → validate s ≡ from_bool (test (digits_of (as_bytes s)))
unfolding validate test check_from
validate-test s = ground (arith, collect_digits-digits_of 11 s)

test-parts : (ds : List ℕ) → test ds ≡ true → (length ds ≡ 11) × (check_from 10 10 ds ≡ true)
unfolding test
test-parts ds h = ground arith

test-apart : TellsApart test
test-apart xs ys d e hd he old new =
    check_from-digit-apart 10 10 xs ys d e
      (omega (arith, (test-parts (xs ++ d ∷ ys) old).0, length-append xs (d ∷ ys))) hd he
      (test-parts (xs ++ d ∷ ys) old).1 (test-parts (xs ++ e ∷ ys) new).1

-- If a text is a valid German tax number, the text with one digit replaced by another is rejected.
tax_id-substitution :
    (pre post : Bytes) (b c : ℕ)
    → IsDigit b
    → IsDigit c
    → b ≢ c
    → validate (pre ++ b ∷ post) ≡ valid
    → validate (pre ++ c ∷ post) ≡ invalid
tax_id-substitution = substitution validate test validate-test test-apart
