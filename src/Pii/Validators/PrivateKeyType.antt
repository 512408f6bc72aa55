-- ===== src/Pii/Validators/PrivateKeyType.antt =====
-- crates/pii/src/validators/private_key_type.rs
use dbmcp.Prelude.{Bytes, Option, none, some, bytes_eq, trim, codes, split_once, rsplit_once}
use dbmcp.Pii.Outcome.{ValidationOutcome, invalid, from_bool}

-- `rest.split_once("-----").map(|(label, _)| label.trim())`
label_in : Bytes → Option Bytes
unfolding split_once trim
label_in rest = elim (split_once (codes "-----") rest) [
  | none ↦ none
  | some (label, _) ↦ some (trim label)
]

begin_label : Bytes → Option Bytes
unfolding split_once label_in
begin_label candidate = elim (split_once (codes "-----BEGIN ") candidate) [
  | none ↦ none
  | some (_, rest) ↦ label_in rest
]

end_label : Bytes → Option Bytes
unfolding rsplit_once label_in
end_label candidate = elim (rsplit_once (codes "-----END ") candidate) [
  | none ↦ none
  | some (_, rest) ↦ label_in rest
]

unfoldable pub validate : Bytes → ValidationOutcome
unfolding begin_label end_label bytes_eq from_bool
validate candidate = elim (begin_label candidate) [
  | none ↦ invalid
  | some begin ↦ elim (end_label candidate) [
    | none ↦ invalid
    | some end ↦ from_bool (bytes_eq begin end)
  ]
]
