-- ===== src/Pii/Validators/MedicalLicenseUsa.antt =====
-- crates/pii/src/validators/medical_license_usa.rs
use dbmcp.Prelude.{
  ℕ, ◌+◌, ◌*◌, ◌%◌, Bytes, [], ◌∷◌, Option, none, some, ltb, ◌==◌, in_range, if◌then◌else◌, get_or,
}
use dbmcp.Pii.Outcome.{ValidationOutcome, invalid, from_bool}
use dbmcp.Pii.Validators.Digits.{collect_digits}

-- `candidate.get(2..)`: none if the text is shorter than two bytes, or byte 2 is inside a character.
get_from_2 : Bytes → Option Bytes
get_from_2 [] = none
get_from_2 (c ∷ []) = if in_range 0x80 0x7ff c then some [] else none
get_from_2 (c ∷ d ∷ s) =
    if ltb c 0x80
    then if ltb d 0x80 then some s else none
    else if ltb c 0x800
    then some (d ∷ s)
    else none

unfoldable pub validate : Bytes → ValidationOutcome
unfolding collect_digits from_bool get_from_2
validate candidate = elim (get_from_2 candidate) [
  | none ↦ invalid
  | some rest ↦ elim (collect_digits 7 rest) [
    | none ↦ invalid
    | some digits ↦
        let d = λ (i : ℕ). get_or digits i 0 in
        from_bool ((2 * (d 1 + d 3 + d 5) + (d 0 + d 2 + d 4)) % 10 == d 6)
  ]
]
