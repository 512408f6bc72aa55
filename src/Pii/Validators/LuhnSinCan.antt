-- ===== src/Pii/Validators/LuhnSinCan.antt =====
-- crates/pii/src/validators/luhn_sin_can.rs
pub mod Laws
use dbmcp.Prelude.{Bytes, none, some}
use dbmcp.Pii.Outcome.{ValidationOutcome, invalid, from_bool}
use dbmcp.Pii.Validators.Digits.{collect_digits}
use dbmcp.Pii.Validators.Luhn.{luhn_passes}

unfoldable pub validate : Bytes → ValidationOutcome
unfolding collect_digits luhn_passes from_bool
validate candidate = elim (collect_digits 9 candidate) [
  | none ↦ invalid
  | some digits ↦ from_bool (luhn_passes digits)
]
