-- ===== src/Pii/Validators/AbaRoutingUsa.antt =====
-- crates/pii/src/validators/aba_routing_usa.rs
pub mod Laws
use dbmcp.Prelude.{ℕ, ◌%◌, Bytes, List, [], ◌∷◌, none, some, ◌==◌}
use dbmcp.Pii.Outcome.{ValidationOutcome, invalid, from_bool}
use dbmcp.Pii.Validators.Digits.{collect_digits, weighted}

abbrev pub weights : List ℕ
weights = 3 ∷ 7 ∷ 1 ∷ 3 ∷ 7 ∷ 1 ∷ 3 ∷ 7 ∷ 1 ∷ []

unfoldable pub validate : Bytes → ValidationOutcome
unfolding collect_digits weighted from_bool
validate candidate = elim (collect_digits 9 candidate) [
  | none ↦ invalid
  | some d ↦ from_bool (weighted d weights % 10 == 0)
]
