-- ===== src/Pii/Validators/VatCountryLengthEur.antt =====
-- crates/pii/src/validators/vat_country_length_eur.rs
use dbmcp.Prelude.{
  ℕ, String, Bytes, List, [], ◌∷◌, ◌&&◌, Option, none, some, in_range, if◌then◌else◌, length, any,
  bytes_eq, as_bytes, is_ascii_digit, codes,
}
use dbmcp.Pii.Outcome.{ValidationOutcome, invalid, from_bool}

pub record CountryLength : Type 0 where
  pub code : Bytes
  pub lo : ℕ
  pub hi : ℕ

abbrev row : String → ℕ → ℕ → CountryLength
row code lo hi = record { code = codes code; lo = lo; hi = hi }

abbrev pub vat_country_lengths : List CountryLength
vat_country_lengths =
    row "AT" 9 9
    ∷ row "BE" 10 10
    ∷ row "BG" 9 10
    ∷ row "CY" 9 9
    ∷ row "CZ" 8 10
    ∷ row "DE" 9 9
    ∷ row "DK" 8 8
    ∷ row "EE" 9 9
    ∷ row "EL" 9 9
    ∷ row "GR" 9 9
    ∷ row "ES" 9 9
    ∷ row "FI" 8 8
    ∷ row "FR" 11 11
    ∷ row "GB" 9 12
    ∷ row "HR" 11 11
    ∷ row "HU" 8 8
    ∷ row "IE" 8 9
    ∷ row "IT" 11 11
    ∷ row "LT" 9 12
    ∷ row "LU" 8 8
    ∷ row "LV" 11 11
    ∷ row "MT" 8 8
    ∷ row "NL" 12 12
    ∷ row "PL" 10 10
    ∷ row "PT" 9 9
    ∷ row "RO" 2 10
    ∷ row "SE" 12 12
    ∷ row "SI" 8 8
    ∷ row "SK" 10 10
    ∷ row "XI" 9 12
    ∷ []

unfoldable pub find : Bytes → List CountryLength → Option CountryLength
unfolding bytes_eq
find prefix [] = none
find prefix (r ∷ rows) = if bytes_eq r.code prefix then some r else find prefix rows

-- The body of `validate` behind `split_first_chunk::<2>`.
unfoldable pub check_body : Bytes → Bytes → ValidationOutcome
unfolding from_bool
check_body prefix body = elim (find prefix vat_country_lengths) [
  | none ↦ invalid
  | some r ↦ from_bool (any is_ascii_digit body && in_range r.lo r.hi (length body))
]

unfoldable pub split_prefix : Bytes → ValidationOutcome
split_prefix [] = invalid
split_prefix (a ∷ []) = invalid
split_prefix (a ∷ b ∷ body) = check_body (a ∷ b ∷ []) body

unfoldable pub validate : Bytes → ValidationOutcome
unfolding split_prefix
validate candidate = split_prefix (as_bytes candidate)
