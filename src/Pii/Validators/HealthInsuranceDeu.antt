-- ===== src/Pii/Validators/HealthInsuranceDeu.antt =====
-- crates/pii/src/validators/health_insurance_deu.rs
use dbmcp.Prelude.{
  ℕ, map, ◌+◌, ◌-◌, ◌*◌, ◌/◌, ◌%◌, Bytes, List, [], ◌∷◌, not, leb, ◌==◌, if◌then◌else◌, length,
  take, drop, get_or, all, trim, as_bytes, is_ascii_digit, is_ascii_uppercase, to_ascii_uppercase,
}
use dbmcp.Pii.Outcome.{ValidationOutcome, invalid, from_bool}
use dbmcp.Pii.Validators.Digits.{digit}

abbrev weights : List ℕ
weights = 1 ∷ 2 ∷ 1 ∷ 2 ∷ 1 ∷ 2 ∷ 1 ∷ 2 ∷ 1 ∷ 2 ∷ []

-- The loop over `effective.zip(weights)`, with the digit sum of each product.
total : List ℕ → List ℕ → ℕ → ℕ
total [] ws acc = acc
total (d ∷ ds) [] acc = acc
total (d ∷ ds) (w ∷ ws) acc =
    let product = d * w in
    total ds ws (acc + (if leb 10 product then product / 10 + product % 10 else product))

unfoldable pub validate : Bytes → ValidationOutcome
unfolding as_bytes from_bool trim total digit is_ascii_uppercase to_ascii_uppercase is_ascii_digit
validate candidate =
    let bytes = as_bytes (trim candidate) in
    let head = to_ascii_uppercase (get_or bytes 0 0) in
    let letter_ord = head - b'A' + 1 in
    let effective = (letter_ord / 10) ∷ (letter_ord % 10) ∷ map digit (take 8 (drop 1 bytes)) in
    let check = digit (get_or bytes 9 0) in
    if not (length bytes == 10)
    then invalid
    else if not (is_ascii_uppercase head)
    then invalid
    else if not (all is_ascii_digit (drop 1 bytes))
    then invalid
    else from_bool (total effective weights 0 % 10 == check)
