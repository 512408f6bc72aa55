-- ===== src/Pii/Operators.antt =====
-- crates/pii/src/operators: what one matched span is rewritten to. Texts are UTF-8 bytes, and a `char`
-- is its bytes. The SHA-2 digests are arguments.
pub mod Mask
pub mod Hash
use dbmcp.Prelude.{ℕ, Bytes, [], Bool, true, codes}
use dbmcp.Pii.Entity.{Entity, placeholder}
use dbmcp.Pii.Operators.Mask.{ChunkCount}

pub data HashAlgorithm : Type 0 where
  sha256 sha512 : HashAlgorithm

pub data Operator : Type 0 where
  replace : Bytes → Operator
  mask : Bytes → ChunkCount → Bool → Operator
  redact : Operator
  hash : HashAlgorithm → Operator

pub data OperatorKind : Type 0 where
  kind_replace kind_mask kind_redact kind_hash : OperatorKind

-- `Operator::default_for`
unfoldable pub default_for : Entity → Operator
default_for entity = replace (placeholder entity)

-- `Operator::default_mask`
unfoldable pub default_mask : Operator
default_mask = mask (codes "*") ChunkCount.all true

-- `Operator::kind`
unfoldable pub kind : Operator → OperatorKind
kind (replace _) = kind_replace
kind (mask _ _ _) = kind_mask
kind redact = kind_redact
kind (hash _) = kind_hash

-- The digests of the `sha2` library.
pub record Digests : Type 0 where
  pub sha256_digest : Bytes → Bytes
  pub sha512_digest : Bytes → Bytes

module _ (digests : Digests) where
  -- operators/hash.rs `apply`
  hash_apply : Bytes → HashAlgorithm → Bytes
  hash_apply candidate sha256 = Hash.to_hex (digests.sha256_digest candidate)
  hash_apply candidate sha512 = Hash.to_hex (digests.sha512_digest candidate)

  -- `Operator::apply`
  unfoldable pub apply : Operator → Bytes → Bytes
  unfolding hash_apply
  apply (replace new_value) candidate = new_value
  apply (mask masking_char chars_to_mask from_end) candidate =
      Mask.apply candidate masking_char chars_to_mask from_end
  apply redact candidate = []
  apply (hash algorithm) candidate = hash_apply candidate algorithm
