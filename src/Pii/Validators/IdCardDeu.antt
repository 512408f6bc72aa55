-- ===== src/Pii/Validators/IdCardDeu.antt =====
-- crates/pii/src/validators/id_card_deu.rs
use dbmcp.Prelude.{
  ℕ, ◌+◌, ◌-◌, ◌*◌, ◌%◌, Bytes, List, [], ◌∷◌, not, ◌&&◌, Option, none, some, ◌==◌, if◌then◌else◌,
  length, take, drop, get_or, all, trim, as_bytes, is_ascii_digit, is_ascii_uppercase,
  to_ascii_uppercase,
}
use dbmcp.Pii.Outcome.{ValidationOutcome, invalid, unknown, from_bool}
use dbmcp.Pii.Validators.Digits.{digit}

abbrev weights : List ℕ
weights = 7 ∷ 3 ∷ 1 ∷ []

-- The value of a character; `none` is the early `Invalid`.
value : ℕ → Option ℕ
unfolding is_ascii_digit is_ascii_uppercase to_ascii_uppercase digit
value b =
    let upper = to_ascii_uppercase b in
    if is_ascii_digit upper
    then some (digit upper)
    else if is_ascii_uppercase upper
    then some (upper - b'A' + 10)
    else none

-- The loop over `bytes[..8]`.
sum_values : Bytes → ℕ → ℕ → Option ℕ
unfolding value
sum_values [] i total = some total
sum_values (b ∷ s) i total = elim (value b) [
  | none ↦ none
  | some v ↦ sum_values s (i + 1) (total + v * get_or weights (i % 3) 0)
]

unfoldable pub validate : Bytes → ValidationOutcome
unfolding as_bytes from_bool trim sum_values digit is_ascii_digit to_ascii_uppercase
validate candidate =
    let bytes = as_bytes (trim candidate) in
    let last = get_or bytes 8 0 in
    let result : ValidationOutcome = elim (sum_values (take 8 bytes) 0 0) [
      | none ↦ invalid
      | some total ↦ from_bool (total % 10 == digit last)
    ] in
    if not (length bytes == 9)
    then invalid
    else if to_ascii_uppercase (get_or bytes 0 0) == b'T' && all is_ascii_digit (drop 1 bytes)
    then unknown
    else if not (is_ascii_digit last)
    then invalid
    else result
