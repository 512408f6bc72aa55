-- ===== src/Pii/Validators/JwtHeader.antt =====
-- crates/pii/src/validators/jwt_header.rs; the base64 and JSON libraries are arguments
use dbmcp.Prelude.{Bytes, List, [], ◌∷◌, Bool, Option, none, some, ◌==◌, split_with}
use dbmcp.Pii.Outcome.{ValidationOutcome, invalid, from_bool}

-- `decode` is base64url; `header_alg` reads the JSON header: `none` if it is no header, else
-- whether it has an `alg`.
module _ (decode : Bytes → Option Bytes) (header_alg : Bytes → Option Bool) where
  -- The first of exactly three parts.
  header_of : List Bytes → Option Bytes
  header_of (header ∷ _ ∷ _ ∷ []) = some header
  header_of _ = none

  unfoldable pub validate : Bytes → ValidationOutcome
  unfolding split_with header_of from_bool
  validate candidate = elim (header_of (split_with (λ c. c == b'.') candidate [])) [
    | none ↦ invalid
    | some header ↦ elim (decode header) [
      | none ↦ invalid
      | some decoded ↦ elim (header_alg decoded) [
        | none ↦ invalid
        | some present ↦ from_bool present
      ]
    ]
  ]
