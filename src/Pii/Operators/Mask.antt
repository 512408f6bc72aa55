-- ===== src/Pii/Operators/Mask.antt =====
-- crates/pii/src/operators/mask.rs
use mathlib.Core.List.{flatten}
use Prim.Native.Nat.{min}
use dbmcp.Prelude.{
  ℕ, ◌+◌, ◌-◌, Bytes, List, [], ◌∷◌, ◌++◌, Bool, ltb, leb, ◌==◌, if◌then◌else◌, map, length,
  is_continuation,
}

pub data ChunkCount : Type 0 where
  all : ChunkCount
  count : ℕ → ChunkCount

-- `str::chars`, each character as its bytes; `cur` is the character that is being read.
chars_from : Bytes → Bytes → List Bytes
chars_from cur [] = cur ∷ []
chars_from cur (b ∷ s) =
    let longer = chars_from (cur ++ b ∷ []) s in
    let next = cur ∷ chars_from (b ∷ []) s in if is_continuation b then longer else next

unfoldable pub chars : Bytes → List Bytes
unfolding chars_from
chars [] = []
chars (b ∷ s) = chars_from (b ∷ []) s

-- `.enumerate().map(..)`
mask_from : ℕ → (ℕ → Bool) → Bytes → List Bytes → List Bytes
mask_from i mask_this masking_char [] = []
mask_from i mask_this masking_char (ch ∷ s) =
    (if mask_this i then masking_char else ch) ∷ mask_from (i + 1) mask_this masking_char s

unfoldable pub apply : Bytes → Bytes → ChunkCount → Bool → Bytes
unfolding mask_from
apply candidate masking_char all from_end = flatten (map (λ _. masking_char) (chars candidate))
apply candidate masking_char (count n) from_end =
    let total = length (chars candidate) in
    let to_mask = min n total in
    let keep = total - to_mask in
    let mask_this = λ (i : ℕ). if from_end then leb keep i else ltb i to_mask in
    if to_mask == 0
    then candidate
    else flatten (mask_from 0 mask_this masking_char (chars candidate))
