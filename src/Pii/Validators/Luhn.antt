-- ===== src/Pii/Validators/Luhn.antt =====
-- crates/pii/src/validators/luhn.rs
pub mod Laws
use dbmcp.Prelude.{
  ℕ, ◌+◌, ◌-◌, ◌*◌, ◌%◌, Bytes, List, [], ◌∷◌, ◌++◌, reverse, Bool, not, ◌&&◌, Option, none, some,
  ltb, ◌==◌, in_range, if◌then◌else◌, length, as_bytes, is_ascii_digit,
}
use dbmcp.Pii.Outcome.{ValidationOutcome, invalid, from_bool}
use dbmcp.Pii.Validators.Digits.{digit}

-- The loop of `validate`; the outer `none` stands for the early `Invalid`.
collect_at_most : ℕ → Bytes → List ℕ → Option (List ℕ)
unfolding is_ascii_digit digit
collect_at_most n [] out = some out
collect_at_most n (b ∷ s) out =
    let skip = collect_at_most n s out in
    let push = collect_at_most n s (out ++ digit b ∷ []) in
    if not (is_ascii_digit b) then skip else if length out == n then none else push

-- What the digit at index `i` from the right adds.
term : ℕ → ℕ → ℕ
term i d = if i % 2 == 0 then d else (let n = d * 2 in if ltb 9 n then n - 9 else n)

sum_terms : ℕ → List ℕ → ℕ
unfolding term
sum_terms i [] = 0
sum_terms i (d ∷ ds) = term i d + sum_terms (i + 1) ds

unfoldable pub luhn_passes : List ℕ → Bool
unfolding sum_terms
luhn_passes digits = sum_terms 0 (reverse digits) % 10 == 0

unfoldable pub validate : Bytes → ValidationOutcome
unfolding collect_at_most luhn_passes as_bytes from_bool
validate candidate = elim (collect_at_most 19 (as_bytes candidate) []) [
  | none ↦ invalid
  | some digits ↦ from_bool (in_range 12 19 (length digits) && luhn_passes digits)
]
