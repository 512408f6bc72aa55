-- ===== src/Pii/Validators/IcaoMrz9.antt =====
-- crates/pii/src/validators/icao_mrz9.rs
use dbmcp.Prelude.{
  ℕ, ◌+◌, ◌-◌, ◌*◌, ◌%◌, Bytes, List, [], ◌∷◌, not, Option, none, some, ◌==◌, if◌then◌else◌, length,
  take, get_or, any, trim, as_bytes, is_ascii_digit, is_ascii_uppercase, to_ascii_uppercase, codes,
}
use dbmcp.Pii.Outcome.{ValidationOutcome, invalid, from_bool}
use dbmcp.Pii.Validators.Digits.{digit}

abbrev forbidden : Bytes
forbidden = codes "ABDEIOQSU"

abbrev weights : List ℕ
weights = 7 ∷ 3 ∷ 1 ∷ []

-- The value of a character; `none` is the early `Invalid`.
value : ℕ → Option ℕ
unfolding is_ascii_digit is_ascii_uppercase to_ascii_uppercase digit
value b =
    let upper = to_ascii_uppercase b in
    if is_ascii_digit upper
    then some (digit upper)
    else if is_ascii_uppercase upper
    then if any (λ f. f == upper) forbidden then none else some (upper - b'A' + 10)
    else none

-- The loop over `bytes[..8]`.
unfoldable pub sum_values : Bytes → ℕ → ℕ → Option ℕ
unfolding value
sum_values [] i total = some total
sum_values (b ∷ s) i total = elim (value b) [
  | none ↦ none
  | some v ↦ sum_values s (i + 1) (total + v * get_or weights (i % 3) 0)
]

unfoldable pub validate : Bytes → ValidationOutcome
unfolding from_bool
validate candidate =
    let bytes = as_bytes (trim candidate) in
    let last = get_or bytes 8 0 in
    let result : ValidationOutcome = elim (sum_values (take 8 bytes) 0 0) [
      | none ↦ invalid
      | some total ↦ from_bool (total % 10 == digit last)
    ] in
    if not (length bytes == 9)
    then invalid
    else if not (is_ascii_digit last)
    then invalid
    else result
