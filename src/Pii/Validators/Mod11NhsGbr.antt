-- ===== src/Pii/Validators/Mod11NhsGbr.antt =====
-- crates/pii/src/validators/mod11_nhs_gbr.rs
pub mod Laws
use dbmcp.Prelude.{
  ℕ, ◌-◌, ◌%◌, Bytes, List, [], ◌∷◌, Option, none, some, ◌==◌, if◌then◌else◌, take, get_or,
}
use dbmcp.Pii.Outcome.{ValidationOutcome, invalid, from_bool}
use dbmcp.Pii.Validators.Digits.{collect_digits, weighted}

abbrev pub weights : List ℕ
weights = 10 ∷ 9 ∷ 8 ∷ 7 ∷ 6 ∷ 5 ∷ 4 ∷ 3 ∷ 2 ∷ []

-- The check digit of a sum; `none` is the early `Invalid`.
check_digit : ℕ → Option ℕ
check_digit sum =
    let n = sum % 11 in if n == 0 then some 0 else if n == 1 then none else some (11 - n)

unfoldable pub validate : Bytes → ValidationOutcome
unfolding collect_digits weighted from_bool check_digit
validate candidate = elim (collect_digits 10 candidate) [
  | none ↦ invalid
  | some digits ↦ elim (check_digit (weighted (take 9 digits) weights)) [
    | none ↦ invalid
    | some check ↦ from_bool (check == get_or digits 9 0)
  ]
]
