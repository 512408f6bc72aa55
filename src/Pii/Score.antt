-- ===== src/Pii/Score.antt =====
-- crates/pii/src/score.rs: an `f32` is its bit pattern, a number below 2^32, whose highest bit is the
-- sign. The patterns of the numbers that are not negative are in the order of the numbers.
use Prim.Native.Nat.{compare, Ordering}
use dbmcp.Prelude.{
  ℕ, ◌%◌, ◌^◌, ◌≤◌, ◌≡◌, ◌⊎◌, Bool, ◌&&◌, ◌||◌, Result, ok, err, ltb, leb, ◌==◌, if◌then◌else◌,
  arith,
}

-- The variant of `PatternError` that `Score::new` returns.
pub data PatternError : Type 0 where
  invalid_score : ℕ → PatternError

pub record Score : Type 0 where
  pub bits : ℕ

abbrev sign_bit : ℕ
sign_bit = 2 ^ 31

abbrev infinity : ℕ
infinity = 0x7f800000

abbrev one : ℕ
one = 0x3f800000

abbrev pub max_score : Score
max_score = record { bits = one }

abbrev pub min_score : Score
min_score = record { bits = 0 }

-- `f32::is_finite`
is_finite : ℕ → Bool
is_finite value = ltb (value % sign_bit) infinity

-- `(0.0..=1.0).contains(&value)`; the pattern of the sign alone is -0.0, which is equal to 0.0.
in_unit : ℕ → Bool
in_unit value = leb value one || value == sign_bit

unfoldable pub new : ℕ → Result Score PatternError
unfolding is_finite in_unit
new value =
    if is_finite value && in_unit value
    then ok (record { bits = value })
    else err (invalid_score value)

-- The place of a score in their order: -0.0 and 0.0 are equal.
unfoldable pub rank : Score → ℕ
rank s = s.bits % sign_bit

-- The derived `PartialOrd`; scores are no NaN, so it answers always.
abbrev pub partial_cmp : Score → Score → Ordering
partial_cmp a b = compare (rank a) (rank b)

-- The derived `PartialEq`.
abbrev pub score_eq : Score → Score → Bool
score_eq a b = rank a == rank b

-- A bit pattern that `Score::new` accepts: from 0.0 to 1.0, or -0.0.
abbrev pub InUnit : Score → Type 0
InUnit s = (s.bits ≤ 0x3f800000) ⊎ (s.bits ≡ 2 ^ 31)

-- A score that `Score::new` accepts lies between the lowest and the highest score, and is the value.
pub new-in_range :
    (value : ℕ) {s : Score}
    → new value ≡ ok s
    → (s.bits ≡ value) × (rank min_score ≤ rank s) × (rank s ≤ rank max_score)
unfolding new rank
new-in_range value h = ground arith
