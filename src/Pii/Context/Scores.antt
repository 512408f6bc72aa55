-- ===== src/Pii/Context/Scores.antt =====
-- crates/pii/src/context.rs: `boost_score`.
use Prim.Native.Nat.{min, max}
use dbmcp.Prelude.{ℕ, ◌^◌, ◌≤◌, ◌≡◌, ◌⊎◌, refl, some, ok, arith}
use dbmcp.Pii.Score.{Score, InUnit, new, rank, max_score}
use dbmcp.Pii.Words.{Unicode}
use dbmcp.Pii.Context.{f32_max, f32_min, expect, boost_score}

-- A bit pattern of a number that is not negative, or -0.0.
abbrev pub NotNegative : ℕ → Type 0
NotNegative bits = (bits ≤ 0x7f800000) ⊎ (bits ≡ 2 ^ 31)

rank_of : ℕ → ℕ
unfolding rank
rank_of bits = rank (record { bits = bits })

max-NotNegative :
    (a b : ℕ)
    → NotNegative a
    → (b ≤ 0x3f800000) ⊎ (b ≡ 2 ^ 31)
    → NotNegative (f32_max a b) × (rank_of b ≤ rank_of (f32_max a b))
unfolding f32_max rank_of rank
max-NotNegative a b h k = ground arith

min-InUnit :
    (a : ℕ)
    → NotNegative a
    → InUnit (record { bits = f32_min a 0x3f800000 })
      × ((b : ℕ)
          → rank_of b ≤ rank_of a
          → rank_of b ≤ 0x3f800000
          → rank_of b ≤ rank_of (f32_min a 0x3f800000))
unfolding f32_min rank_of rank
min-InUnit a h = (ground arith, λ b k l. ground arith)

new_of : (s : Score) → InUnit s → new s.bits ≡ ok s
unfolding new
new_of s h = ground arith

floor-rank : (s : Score) → InUnit s → rank_of s.bits ≤ 0x3f800000
unfolding rank_of rank
floor-rank s h = ground arith

module _ (unicode : Unicode) (add : ℕ → ℕ → ℕ) where
  pub boost_score-total :
      (current factor floor : Score)
      → NotNegative (add current.bits factor.bits)
      → InUnit floor
      → (s : Score) × (boost_score unicode add current factor floor ≡ some s)
        × (rank floor ≤ rank s)
        × InUnit s
  unfolding boost_score expect rank_of
  boost_score-total current factor floor n h =
      let raw : ℕ = add current.bits factor.bits in
      let (m, fm) = max-NotNegative raw floor.bits n h in
      let (u, low) = min-InUnit (f32_max raw floor.bits) m in
      let s : Score = record { bits = f32_min (f32_max raw floor.bits) 0x3f800000 } in
      (s, rw (new_of s u) refl, low floor.bits fm (floor-rank floor h), u)

  -- The new score is the sum, or the floor where that is higher, and 1.0 at most.
  pub boost_score-lifts :
      (current factor floor : Score)
      → NotNegative (add current.bits factor.bits)
      → rank current ≤ rank (record { bits = add current.bits factor.bits })
      → InUnit current
      → InUnit floor
      → (s : Score) × (boost_score unicode add current factor floor ≡ some s)
        × InUnit s
        × (rank current ≤ rank s)
        × (rank floor ≤ rank s)
        × (rank s
            ≡ min
                (max (rank (record { bits = add current.bits factor.bits })) (rank floor))
                (rank max_score))
  unfolding boost_score expect rank_of f32_max f32_min rank
  boost_score-lifts current factor floor n g c h =
      let raw : ℕ = add current.bits factor.bits in
      let (m, fm) = max-NotNegative raw floor.bits n h in
      let (u, low) = min-InUnit (f32_max raw floor.bits) m in
      let s : Score = record { bits = f32_min (f32_max raw floor.bits) 0x3f800000 } in
      (s, rw (new_of s u) refl, u, ground arith, ground arith, ground arith)
