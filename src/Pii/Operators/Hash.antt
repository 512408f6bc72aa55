-- ===== src/Pii/Operators/Hash.antt =====
-- crates/pii/src/operators/hash.rs: the hex digits of a digest
use dbmcp.Prelude.{◌/◌, ◌%◌, Bytes, [], ◌∷◌, codes, get_or}

abbrev hex : Bytes
hex = codes "0123456789abcdef"

-- `out[i * 2]` and `out[i * 2 + 1]` for each byte.
unfoldable pub to_hex : Bytes → Bytes
to_hex [] = []
to_hex (b ∷ bytes) = get_or hex (b / 16) 0 ∷ get_or hex (b % 16) 0 ∷ to_hex bytes
