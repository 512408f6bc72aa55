-- ===== src/Pii/Validators/LifetimePhysicianNumberDeu.antt =====
-- crates/pii/src/validators/lifetime_physician_number_deu.rs
use dbmcp.Prelude.{ℕ, ◌-◌, ◌%◌, Bytes, List, [], ◌∷◌, none, some, ◌==◌, take, get_or}
use dbmcp.Pii.Outcome.{ValidationOutcome, invalid, from_bool}
use dbmcp.Pii.Validators.Digits.{collect_digits, weighted}

abbrev pub weights : List ℕ
weights = 4 ∷ 9 ∷ 4 ∷ 9 ∷ 4 ∷ 9 ∷ []

unfoldable pub validate : Bytes → ValidationOutcome
unfolding collect_digits weighted from_bool
validate candidate = elim (collect_digits 9 candidate) [
  | none ↦ invalid
  | some digits ↦
      let sum = weighted (take 6 digits) weights in
      let expected = (10 - sum % 10) % 10 in from_bool (get_or digits 6 0 == expected)
]
