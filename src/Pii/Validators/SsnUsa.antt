-- ===== src/Pii/Validators/SsnUsa.antt =====
-- crates/pii/src/validators/ssn_usa.rs
use dbmcp.Prelude.{ℕ, ◌+◌, ◌*◌, Bytes, not, ◌&&◌, none, some, ltb, ◌==◌, get_or}
use dbmcp.Pii.Outcome.{ValidationOutcome, invalid, from_bool}
use dbmcp.Pii.Validators.Digits.{collect_digits}

unfoldable pub validate : Bytes → ValidationOutcome
unfolding collect_digits from_bool
validate candidate = elim (collect_digits 9 candidate) [
  | none ↦ invalid
  | some digits ↦
      let d = λ (i : ℕ). get_or digits i 0 in
      let area = d 0 * 100 + d 1 * 10 + d 2 in
      let group = d 3 * 10 + d 4 in
      let serial = d 5 * 1000 + d 6 * 100 + d 7 * 10 + d 8 in
      from_bool (
        not (area == 0)
        && not (area == 666)
        && ltb area 900
        && not (group == 0)
        && not (serial == 0))
]
