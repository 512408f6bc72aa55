-- ===== src/Pii/Validators/Luhn/Laws.antt =====
-- The Luhn sum, and a card number in which one digit was replaced.
use native.Mathlib.Nat.{add-zero}
use native.Mathlib.Decide.{ℕ_discrete}
use mathlib.Core.List.{reverse-cons}
use dbmcp.Prelude.{
  Bool-cases, inl, inr, ne→==, ==→eq, sym, ap, suc, reverse, reverse-append, leb, append_assoc,
  append-nil, Bool, in_range, ℕ, suc, ◌+◌, ◌%◌, ◌≤◌, ◌≡◌, ◌≢◌, ◌∙◌, refl, sym, ap, Bytes, List, [],
  ◌∷◌, ◌++◌, append_assoc, append-nil, reverse, reverse-append, Bool, true, ◌&&◌, Option, none,
  some, arith, leb, ◌==◌, in_range, if◌then◌else◌, length, length-append, as_bytes, is_ascii_digit,
  Bool-cases, inl, inr, ne→==, ==→eq,
}
use dbmcp.Pii.Outcome.{valid, invalid, from_bool}
use dbmcp.Pii.Validators.Digits.{digit}
use dbmcp.Pii.Validators.Digits.Laws.{digits_of, IsDigit}
use dbmcp.Pii.Validators.Digits.Verdicts.{TellsApart, substitution}
use dbmcp.Pii.Validators.Luhn.{collect_at_most, term, sum_terms, luhn_passes, validate}

sum_terms-append :
    (xs ys : List ℕ) (i : ℕ)
    → sum_terms i (xs ++ ys) ≡ sum_terms i xs + sum_terms (i + length xs) ys
unfolding sum_terms
sum_terms-append [] ys i = rw add-zero (omega arith)
sum_terms-append (x ∷ xs) ys i =
    let next : i + 1 + length xs ≡ i + suc (length xs) = omega arith in
    rw (sum_terms-append xs ys (i + 1), next) (omega arith)

sum_terms-reverse :
    (xs ys : List ℕ) (d : ℕ)
    → sum_terms 0 (reverse (xs ++ d ∷ ys))
      ≡ sum_terms 0 (reverse ys)
        + (term (0 + length (reverse ys)) d + sum_terms (0 + length (reverse ys) + 1) (reverse xs))
sum_terms-reverse xs ys d =
    rw (reverse-append, reverse-cons, append_assoc)
      (sum_terms-append (reverse ys) (d ∷ reverse xs) 0 ∙ unfold sum_terms in refl)

term-apart :
    (i d e a b : ℕ)
    → d ≤ 9
    → e ≤ 9
    → (a + (term i d + b)) % 10 ≡ 0
    → (a + (term i e + b)) % 10 ≡ 0
    → d ≡ e
unfolding term
term-apart i d e a b hd he old new = ground arith

-- Two digits at one place that both make the Luhn sum right are equal.
pub luhn_passes-apart :
    (xs ys : List ℕ) (d e : ℕ)
    → d ≤ 9
    → e ≤ 9
    → luhn_passes (xs ++ d ∷ ys) ≡ true
    → luhn_passes (xs ++ e ∷ ys) ≡ true
    → d ≡ e
unfolding luhn_passes
luhn_passes-apart xs ys d e hd he old new =
    term-apart (0 + length (reverse ys)) d e (sum_terms 0 (reverse ys))
      (sum_terms (0 + length (reverse ys) + 1) (reverse xs)) hd he
      (sym (ap (λ (n : ℕ). n % 10) (sum_terms-reverse xs ys d)) ∙ ==→eq _ 0 old)
      (sym (ap (λ (n : ℕ). n % 10) (sum_terms-reverse xs ys e)) ∙ ==→eq _ 0 new)

push_at_most :
    (n d : ℕ) (ds out : List ℕ) (rest : Option (List ℕ))
    → length out ≤ n
    → (length (out ++ d ∷ []) ≤ n
        → rest
          ≡ (if leb (length ((out ++ d ∷ []) ++ ds)) n then some ((out ++ d ∷ []) ++ ds) else none))
    → (if length out == n then none else rest)
      ≡ (if leb (length (out ++ d ∷ ds)) n then some (out ++ d ∷ ds) else none)
push_at_most n d ds out rest h ih = elim (ℕ_discrete (length out) n) [
  | yes full ↦
      let longer : length (out ++ d ∷ ds) ≡ length out + suc (length ds) =
        length-append out (d ∷ ds) in
      ground arith
  | no room ↦
      rw (ne→== (length out) n room)
        (ih (omega (arith, length-append out (d ∷ []))) ∙ rw append_assoc)
]

collect_at_most-digits_of :
    (n : ℕ) (s : Bytes) (out : List ℕ)
    → length out ≤ n
    → collect_at_most n s out
      ≡ (if leb (length (out ++ digits_of s)) n then some (out ++ digits_of s) else none)
unfolding collect_at_most digits_of
collect_at_most-digits_of n [] out h = rw append-nil (ground arith)
collect_at_most-digits_of n (b ∷ s) out h = elim (Bool-cases (is_ascii_digit b)) [
  | inr e ↦ rw e (collect_at_most-digits_of n s out h)
  | inl e ↦ rw e (
      push_at_most n (digit b) (digits_of s) out _ h
        (collect_at_most-digits_of n s (out ++ digit b ∷ [])))
]

test : List ℕ → Bool
test ds = in_range 12 19 (length ds) && luhn_passes ds

validate-test : (s : Bytes) → validate s ≡ from_bool (test (digits_of (as_bytes s)))
unfolding validate test from_bool
validate-test s = ground (arith, collect_at_most-digits_of 19 (as_bytes s) [])

test-apart : TellsApart test
unfolding test
test-apart xs ys d e hd he old new = luhn_passes-apart xs ys d e hd he (ground arith) (ground arith)

-- If a text is a valid card number, the text with one digit replaced by another is rejected.
card_number-substitution :
    (pre post : Bytes) (b c : ℕ)
    → IsDigit b
    → IsDigit c
    → b ≢ c
    → validate (pre ++ b ∷ post) ≡ valid
    → validate (pre ++ c ∷ post) ≡ invalid
card_number-substitution = substitution validate test validate-test test-apart
