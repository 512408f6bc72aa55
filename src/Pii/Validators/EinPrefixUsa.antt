-- ===== src/Pii/Validators/EinPrefixUsa.antt =====
-- crates/pii/src/validators/ein_prefix_usa.rs
use dbmcp.Prelude.{ℕ, ◌+◌, ◌*◌, Bytes, List, [], ◌∷◌, Bool, none, some, ◌==◌, get_or, any}
use dbmcp.Pii.Outcome.{ValidationOutcome, invalid, from_bool}
use dbmcp.Pii.Validators.Digits.{collect_digits}

abbrev pub ein_valid_prefixes : List ℕ
ein_valid_prefixes =
    1 ∷ 2 ∷ 3 ∷ 4 ∷ 5 ∷ 6 ∷ 10 ∷ 11 ∷ 12 ∷ 13 ∷ 14 ∷ 15 ∷ 16 ∷ 20 ∷ 21 ∷ 22 ∷ 23 ∷ 24 ∷ 25 ∷ 26 ∷ 27
    ∷ 30 ∷ 31 ∷ 32 ∷ 33 ∷ 34 ∷ 35 ∷ 36 ∷ 37 ∷ 38 ∷ 39 ∷ 40 ∷ 41 ∷ 42 ∷ 43 ∷ 44 ∷ 45 ∷ 46 ∷ 47 ∷ 48
    ∷ 50 ∷ 51 ∷ 52 ∷ 53 ∷ 54 ∷ 55 ∷ 56 ∷ 57 ∷ 58 ∷ 59 ∷ 60 ∷ 61 ∷ 62 ∷ 63 ∷ 64 ∷ 65 ∷ 66 ∷ 67 ∷ 68
    ∷ 71 ∷ 72 ∷ 73 ∷ 74 ∷ 75 ∷ 76 ∷ 77 ∷ 80 ∷ 81 ∷ 82 ∷ 83 ∷ 84 ∷ 85 ∷ 86 ∷ 87 ∷ 88 ∷ 90 ∷ 91 ∷ 92
    ∷ 93 ∷ 94 ∷ 95 ∷ 98 ∷ 99 ∷ []

-- `slice::binary_search` on a sorted list: how the standard library halves the slice does not show
-- in the answer to `is_ok`, which is membership.
binary_search : List ℕ → ℕ → Bool
binary_search xs n = any (λ x. x == n) xs

unfoldable pub validate : Bytes → ValidationOutcome
unfolding collect_digits from_bool binary_search
validate candidate = elim (collect_digits 9 candidate) [
  | none ↦ invalid
  | some d ↦ from_bool (binary_search ein_valid_prefixes (get_or d 0 0 * 10 + get_or d 1 0))
]
