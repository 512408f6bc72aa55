-- ===== src/Pii/Validators/SocialSecurityDeu.antt =====
-- crates/pii/src/validators/social_security_deu.rs
use dbmcp.Prelude.{
  ℕ, map, ◌+◌, ◌-◌, ◌*◌, ◌/◌, ◌%◌, Bytes, List, [], ◌∷◌, ◌++◌, not, ◌||◌, ◌==◌, in_range,
  if◌then◌else◌, length, take, drop, get_or, all, trim, as_bytes, is_ascii_digit,
  is_ascii_uppercase, to_ascii_uppercase,
}
use dbmcp.Pii.Outcome.{ValidationOutcome, invalid, from_bool}
use dbmcp.Pii.Validators.Digits.{digit}

abbrev pub weights : List ℕ
weights = 2 ∷ 1 ∷ 2 ∷ 5 ∷ 7 ∷ 1 ∷ 2 ∷ 1 ∷ 2 ∷ 1 ∷ 2 ∷ 1 ∷ []

-- The loop over `effective.zip(weights)`, with the digit sum of each product.
unfoldable pub total : List ℕ → List ℕ → ℕ → ℕ
total [] ws acc = acc
total (d ∷ ds) [] acc = acc
total (d ∷ ds) (w ∷ ws) acc =
    let product = d * w in total ds ws (acc + (product / 10 + product % 10))

unfoldable pub validate : Bytes → ValidationOutcome
unfolding from_bool
validate candidate =
    let bytes = as_bytes (trim candidate) in
    let at = λ (i : ℕ). get_or bytes i 0 in
    let letter = to_ascii_uppercase (at 8) in
    let day = digit (at 2) * 10 + digit (at 3) in
    let month = digit (at 4) * 10 + digit (at 5) in
    let letter_ord = letter - b'A' + 1 in
    let effective =
      map digit (take 8 bytes)
      ++ (letter_ord / 10) ∷ (letter_ord % 10) ∷ digit (at 9) ∷ digit (at 10) ∷ [] in
    let check = digit (at 11) in
    if not (length bytes == 12)
    then invalid
    else if not (all is_ascii_digit (take 8 bytes)) || not (all is_ascii_digit (drop 9 bytes))
    then invalid
    else if not (is_ascii_uppercase letter)
    then invalid
    else if not (in_range 1 31 day || in_range 51 81 day)
    then invalid
    else if not (in_range 1 12 month)
    then invalid
    else from_bool (total effective weights 0 % 10 == check)
