-- ===== src/Pii/Validators/TaxIdDeu.antt =====
-- crates/pii/src/validators/tax_id_deu.rs
pub mod Laws
use dbmcp.Prelude.{
  ℕ, ◌+◌, ◌-◌, ◌*◌, ◌%◌, Bytes, List, [], ◌∷◌, none, some, ltb, ◌==◌, if◌then◌else◌, take, Bool,
  get_or, any,
}
use dbmcp.Pii.Outcome.{ValidationOutcome, invalid, from_bool}
use dbmcp.Pii.Validators.Digits.{collect_digits}

-- `histogram[d]` after the loop.
occurrences : ℕ → List ℕ → ℕ
occurrences v [] = 0
occurrences v (d ∷ ds) = (if d == v then 1 else 0) + occurrences v ds

-- One round of the checksum loop.
round : ℕ → ℕ → ℕ
round product d = let total = (d + product) % 10 in ((if total == 0 then 10 else total) * 2) % 11

unfoldable pub product_of : List ℕ → ℕ → ℕ
unfolding round
product_of [] product = product
product_of (d ∷ ds) product = product_of ds (round product d)

-- `histogram.iter().any(|&c| c > 3)`
unfoldable pub crowded : List ℕ → Bool
unfolding occurrences
crowded body = any (λ v. ltb 3 (occurrences v body)) (0 ∷ 1 ∷ 2 ∷ 3 ∷ 4 ∷ 5 ∷ 6 ∷ 7 ∷ 8 ∷ 9 ∷ [])

unfoldable pub validate : Bytes → ValidationOutcome
unfolding collect_digits from_bool
validate candidate = elim (collect_digits 11 candidate) [
  | none ↦ invalid
  | some digits ↦
      let product = product_of (take 10 digits) 10 in
      let check = if 11 - product == 10 then 0 else 11 - product in
      if get_or digits 0 0 == 0
      then invalid
      else if crowded (take 10 digits)
      then invalid
      else from_bool (check == get_or digits 10 0)
]
