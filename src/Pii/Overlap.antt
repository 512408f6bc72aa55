-- ===== src/Pii/Overlap.antt =====
-- crates/pii/src/overlap.rs
pub mod Disjoint
pub mod Order
pub mod Winners
mod Tests
use Prim.Native.Nat.{compare, Ordering}
use dbmcp.Prelude.{
  ℕ, ◌+◌, ◌-◌, ◌%◌, ◌^◌, List, [], ◌∷◌, ◌++◌, Bool, true, false, ◌&&◌, ltb, leb, ◌==◌,
  if◌then◌else◌, length,
}
use dbmcp.Pii.Entity.{entity_eq}
use dbmcp.Pii.Score.{Score, partial_cmp, rank}
use dbmcp.Pii.Result.{RecognizerResult}

-- `b.score.partial_cmp(&a.score)`
score_desc : RecognizerResult → RecognizerResult → Ordering
score_desc a b = partial_cmp b.score a.score

-- `Ordering::then_with`
then_with : Ordering → Ordering → Ordering
then_with Ordering.eq o = o
then_with Ordering.lt o = Ordering.lt
then_with Ordering.gt o = Ordering.gt

-- The comparison of `sort_by`, by `(start, -score)`.
pub sort_key : RecognizerResult → RecognizerResult → Ordering
unfolding score_desc then_with
sort_key a b = then_with (compare a.start b.start) (score_desc a b)

-- `slice::sort_by` is a stable sort: of equals the first stays first. Insertion sort is one.
pub insert : RecognizerResult → List RecognizerResult → List RecognizerResult
insert x [] = x ∷ []
insert x (y ∷ ys) =
    let later = y ∷ insert x ys in elim (sort_key x y) [ Ordering.gt ↦ later | _ ↦ x ∷ y ∷ ys ]

pub sort : List RecognizerResult → List RecognizerResult
sort [] = []
sort (x ∷ xs) = insert x (sort xs)

unfoldable pub overlaps : RecognizerResult → RecognizerResult → Bool
overlaps a b = ltb a.start b.end && ltb b.start a.end

pub data Dominance : Type 0 where
  existing candidate equal : Dominance

-- `r.end - r.start` on `usize`, wrapping around where `end` is before `start`.
width : RecognizerResult → ℕ
width r = (r.end + 2 ^ 64 - r.start) % 2 ^ 64

by_score : RecognizerResult → RecognizerResult → Dominance
unfolding width
by_score a b = elim (partial_cmp a.score b.score) [
  | Ordering.gt ↦ existing
  | Ordering.lt ↦ candidate
  | Ordering.eq ↦ elim (compare (width a) (width b)) [
    | Ordering.gt ↦ existing
    | Ordering.lt ↦ candidate
    | Ordering.eq ↦ equal
  ]
]

unfoldable pub dominate : RecognizerResult → RecognizerResult → Dominance
unfolding entity_eq by_score
dominate a b =
    if entity_eq a.entity_type b.entity_type && (leb a.start b.start && leb b.end a.end)
    then existing
    else if entity_eq a.entity_type b.entity_type && (leb b.start a.start && leb a.end b.end)
    then candidate
    else by_score a b

-- `survivors.retain(..)`: what stays, and `keep` behind it.
pub retain : RecognizerResult → List RecognizerResult → Bool → List RecognizerResult × Bool
retain c [] keep = ([], keep)
retain c (e ∷ es) keep =
    let beaten = retain c es false in
    let unbeaten = retain c es keep in
    if overlaps e c
    then (elim (dominate e c) as (λ _. List RecognizerResult × Bool) [
      | candidate ↦ unbeaten
      | _ ↦ (e ∷ beaten.0, beaten.1)
    ])
    else (e ∷ unbeaten.0, unbeaten.1)

-- One round of the `for` loop.
pub round : List RecognizerResult → RecognizerResult → List RecognizerResult
unfolding retain
round survivors c =
    let (kept, keep) = retain c survivors true in if keep then kept ++ c ∷ [] else kept

pub walk : List RecognizerResult → List RecognizerResult → List RecognizerResult
walk survivors [] = survivors
walk survivors (c ∷ cs) = walk (round survivors c) cs

unfoldable pub resolve : List RecognizerResult → List RecognizerResult
unfolding walk round sort insert sort_key
resolve results = if leb (length results) 1 then results else walk [] (sort results)
