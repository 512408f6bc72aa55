-- ===== src/Pii/Validators/NpiUsa.antt =====
-- crates/pii/src/validators/npi_usa.rs
use dbmcp.Prelude.{
  ℕ, Bytes, List, [], ◌∷◌, ◌++◌, none, some, ◌==◌, if◌then◌else◌, take, get_or, all,
}
use dbmcp.Pii.Outcome.{ValidationOutcome, invalid, from_bool}
use dbmcp.Pii.Validators.Digits.{collect_digits}
use dbmcp.Pii.Validators.Luhn.{luhn_passes}

abbrev npi_prefix : List ℕ
npi_prefix = 8 ∷ 0 ∷ 8 ∷ 4 ∷ 0 ∷ []

unfoldable pub validate : Bytes → ValidationOutcome
unfolding collect_digits luhn_passes from_bool
validate candidate = elim (collect_digits 10 candidate) [
  | none ↦ invalid
  | some digits ↦
      let body = take 9 digits in
      if all (λ d. d == get_or body 0 0) body
      then invalid
      else from_bool (luhn_passes (npi_prefix ++ digits))
]
