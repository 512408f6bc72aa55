-- ===== src/Pii/Validators/MedicalPracticeIdDeu.antt =====
-- crates/pii/src/validators/medical_practice_id_deu.rs
use dbmcp.Prelude.{Bytes, none, some, ◌==◌, if◌then◌else◌, all}
use dbmcp.Pii.Outcome.{ValidationOutcome, invalid, unknown}
use dbmcp.Pii.Validators.Digits.{collect_digits}

unfoldable pub validate : Bytes → ValidationOutcome
unfolding collect_digits
validate candidate = elim (collect_digits 9 candidate) [
  | none ↦ invalid
  | some digits ↦ if all (λ d. d == 0) digits then invalid else unknown
]
