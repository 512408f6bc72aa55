-- ===== src/Pii/Validators/Iban.antt =====
-- crates/pii/src/validators/iban.rs
pub mod Laws
use dbmcp.Prelude.{
  ℕ, ◌+◌, ◌-◌, ◌*◌, ◌%◌, Bytes, [], ◌∷◌, ◌++◌, false, not, ◌||◌, Option, none, some, ltb, ◌==◌,
  if◌then◌else◌, length, take, drop, as_bytes, is_ascii_digit, is_ascii_uppercase,
  is_ascii_whitespace, to_ascii_uppercase,
}
use dbmcp.Pii.Outcome.{ValidationOutcome, invalid, from_bool}
use dbmcp.Pii.Validators.Digits.{digit}

-- The loop that fills `buf`; `none` is the early `Invalid`.
unfoldable pub clean : Bytes → Bytes → Option Bytes
unfolding is_ascii_whitespace to_ascii_uppercase
clean [] buf = some buf
clean (b ∷ s) buf =
    let skip = clean s buf in
    let push = clean s (buf ++ to_ascii_uppercase b ∷ []) in
    if is_ascii_whitespace b
    then skip
    else if not (ltb b 128) || length buf == 34
    then none
    else push

-- The loop of `mod97`.
mod97_from : ℕ → Bytes → Option ℕ
unfolding is_ascii_digit is_ascii_uppercase digit
mod97_from remainder [] = some remainder
mod97_from remainder (b ∷ s) =
    let as_digit = mod97_from ((remainder * 10 + digit b) % 97) s in
    let as_letter = mod97_from ((remainder * 100 + (b - b'A' + 10)) % 97) s in
    if is_ascii_digit b then as_digit else if is_ascii_uppercase b then as_letter else none

unfoldable pub mod97 : Bytes → Option ℕ
unfolding mod97_from
mod97 bytes = mod97_from 0 bytes

unfoldable pub validate : Bytes → ValidationOutcome
unfolding from_bool
validate candidate = elim (clean (as_bytes candidate) []) [
  | none ↦ invalid
  | some buf ↦
      if ltb (length buf) 15
      then invalid
      else (elim (mod97 (drop 4 buf ++ take 4 buf)) as (λ _. ValidationOutcome) [
        | none ↦ from_bool false
        | some r ↦ from_bool (r == 1)
      ])
]
