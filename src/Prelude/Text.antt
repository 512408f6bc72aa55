-- ===== src/Prelude/Text.antt =====
-- `str` methods of the standard library, over code points.
use Prim.Native.Nat.{ℕ, ◌+◌, ◌-◌, ◌/◌, ◌%◌}
use mathlib.Core.Bool.{Bool, ◌||◌}
use mathlib.Core.List.{List, [], ◌∷◌, ◌++◌, reverse}
use mathlib.Core.Option.{Option, none, some}
use dbmcp.Prelude.Tests.{◌==◌, ltb, in_range, if◌then◌else◌}
use dbmcp.Prelude.Lists.{Bytes}

-- `char::is_whitespace`: the Unicode property White_Space.
unfoldable pub is_whitespace : ℕ → Bool
is_whitespace c =
    in_range 0x9 0xd c
    || c == 0x20
    || c == 0x85
    || c == 0xa0
    || c == 0x1680
    || in_range 0x2000 0x200a c
    || in_range 0x2028 0x2029 c
    || c == 0x202f
    || c == 0x205f
    || c == 0x3000

-- `str::trim_start_matches` with a test.
unfoldable pub trim_start_matches : (ℕ → Bool) → Bytes → Bytes
trim_start_matches p [] = []
trim_start_matches p (c ∷ s) = if p c then trim_start_matches p s else c ∷ s

unfoldable pub trim_start : Bytes → Bytes
unfolding trim_start_matches is_whitespace
trim_start s = trim_start_matches is_whitespace s

unfoldable pub trim_end : Bytes → Bytes
unfolding trim_start
trim_end s = reverse (trim_start (reverse s))

-- `str::trim`
unfoldable pub trim : Bytes → Bytes
unfolding trim_start trim_end
trim s = trim_end (trim_start s)

-- `u8::is_ascii_digit` and its kin, which `char` has too.
unfoldable pub is_ascii_digit : ℕ → Bool
is_ascii_digit b = in_range b'0' b'9' b

unfoldable pub is_ascii_uppercase : ℕ → Bool
is_ascii_uppercase b = in_range b'A' b'Z' b

unfoldable pub is_ascii_lowercase : ℕ → Bool
is_ascii_lowercase b = in_range b'a' b'z' b

unfoldable pub is_ascii_alphanumeric : ℕ → Bool
unfolding is_ascii_digit is_ascii_uppercase is_ascii_lowercase
is_ascii_alphanumeric b = is_ascii_digit b || is_ascii_uppercase b || is_ascii_lowercase b

-- `u8::is_ascii_whitespace`
unfoldable pub is_ascii_whitespace : ℕ → Bool
is_ascii_whitespace b = b == 0x20 || b == 0x9 || b == 0xa || b == 0xc || b == 0xd

unfoldable pub to_ascii_uppercase : ℕ → ℕ
unfolding is_ascii_lowercase
to_ascii_uppercase b = if is_ascii_lowercase b then b - 32 else b

unfoldable pub to_ascii_lowercase : ℕ → ℕ
unfolding is_ascii_uppercase
to_ascii_lowercase b = if is_ascii_uppercase b then b + 32 else b

-- UTF-8
unfoldable pub encode_utf8 : ℕ → Bytes
encode_utf8 c =
    if ltb c 0x80
    then c ∷ []
    else if ltb c 0x800
    then (0xc0 + c / 64) ∷ (0x80 + c % 64) ∷ []
    else if ltb c 0x10000
    then (0xe0 + c / 4096) ∷ (0x80 + (c / 64) % 64) ∷ (0x80 + c % 64) ∷ []
    else (0xf0 + c / 262144)
      ∷ (0x80 + (c / 4096) % 64)
      ∷ (0x80 + (c / 64) % 64)
      ∷ (0x80 + c % 64)
      ∷ []

-- `str::as_bytes`
unfoldable pub as_bytes : Bytes → Bytes
unfolding encode_utf8
as_bytes [] = []
as_bytes (c ∷ s) = encode_utf8 c ++ as_bytes s

-- `str::strip_prefix`
unfoldable pub strip_prefix : Bytes → Bytes → Option Bytes
strip_prefix [] s = some s
strip_prefix (p ∷ prefix) [] = none
strip_prefix (p ∷ prefix) (c ∷ s) = if p == c then strip_prefix prefix s else none

-- `str::split_once`: the text before and behind the first place where `sep` stands.
before_cons : ℕ → Option (Bytes × Bytes) → Option (Bytes × Bytes)
before_cons c none = none
before_cons c (some (before, behind)) = some (c ∷ before, behind)

unfoldable pub split_once : Bytes → Bytes → Option (Bytes × Bytes)
unfolding strip_prefix before_cons
split_once sep [] = elim (strip_prefix sep []) [ none ↦ none | some behind ↦ some ([], behind) ]
split_once sep (c ∷ s) =
    let later = before_cons c (split_once sep s) in
    elim (strip_prefix sep (c ∷ s)) [ none ↦ later | some behind ↦ some ([], behind) ]

-- `str::rsplit_once`: the same at the last place.
unfoldable pub rsplit_once : Bytes → Bytes → Option (Bytes × Bytes)
unfolding strip_prefix before_cons
rsplit_once sep [] = elim (strip_prefix sep []) [ none ↦ none | some behind ↦ some ([], behind) ]
rsplit_once sep (c ∷ s) = elim (rsplit_once sep s) [
  | some (before, behind) ↦ some (c ∷ before, behind)
  | none ↦ elim (strip_prefix sep (c ∷ s)) [ none ↦ none | some behind ↦ some ([], behind) ]
]

-- `str::split` at the characters that meet a test.
unfoldable pub split_with : (ℕ → Bool) → Bytes → Bytes → List Bytes
split_with p [] part = part ∷ []
split_with p (c ∷ s) part =
    let cut = part ∷ split_with p s [] in
    let longer = split_with p s (part ++ c ∷ []) in if p c then cut else longer
