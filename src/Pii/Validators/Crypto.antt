-- ===== src/Pii/Validators/Crypto.antt =====
-- crates/pii/src/validators/crypto.rs; the libraries bs58 and bech32 are arguments
use dbmcp.Prelude.{
  ℕ, Bytes, [], ◌∷◌, Bool, false, Option, none, some, ◌==◌, if◌then◌else◌, bytes_eq, as_bytes,
  codes, strip_prefix,
}
use dbmcp.Pii.Outcome.{ValidationOutcome, unknown, from_bool}

-- `base58check` decodes with a version byte; `bech32_hrp` is the human-readable part of a decoded
-- address.
module _ (base58check : Bytes → ℕ → Bool) (bech32_hrp : Bytes → Option Bytes) where
  bech32_passes : Bytes → Bool
  unfolding bytes_eq
  bech32_passes candidate = elim (bech32_hrp candidate) [
    | none ↦ false
    | some hrp ↦ bytes_eq hrp (codes "bc")
  ]

  -- The `match` on the first byte.
  by_version : Bytes → Bytes → ValidationOutcome
  unfolding from_bool
  by_version candidate [] = unknown
  by_version candidate (b ∷ _) =
      if b == b'1'
      then from_bool (base58check candidate 0x00)
      else if b == b'3'
      then from_bool (base58check candidate 0x05)
      else unknown

  unfoldable pub validate : Bytes → ValidationOutcome
  unfolding as_bytes strip_prefix from_bool bech32_passes by_version
  validate candidate = elim (strip_prefix (codes "bc1") candidate) [
    | some _ ↦ from_bool (bech32_passes candidate)
    | none ↦ by_version candidate (as_bytes candidate)
  ]
