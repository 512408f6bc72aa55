-- ===== src/Pii/Overlap/Disjoint.antt =====
-- crates/pii/src/overlap.rs: the survivors among the input, and whether they overlap.
use dbmcp.Prelude.{
  ℕ, suc, ◌≡◌, refl, List, [], ◌∷◌, ◌++◌, Bool, true, false, inl, inr, leb, arith, length, All,
  All-append, Bool-cases,
}
use dbmcp.Pii.Result.{RecognizerResult}
use dbmcp.Pii.Overlap.{overlaps, retain, round, walk, insert, sort, resolve}

-- No result overlaps a later one.
abbrev pub Disjoint : List RecognizerResult → Type 0
Disjoint [] = Unit
Disjoint (x ∷ xs) = All (λ y. overlaps x y ≡ false) xs × Disjoint xs

-- The early return for at most one result is what the walk would answer.
pub resolve-walk : (results : List RecognizerResult) → resolve results ≡ walk [] (sort results)
unfolding resolve
resolve-walk [] = refl
resolve-walk (x ∷ []) = refl
resolve-walk (x ∷ y ∷ results) = rw (long (length results))
  where
    long : (n : ℕ) → leb (suc (suc n)) 1 ≡ false
    long n = ground arith

module _ (P : RecognizerResult → Type 0) where
  pub retain-All :
      (c : RecognizerResult) (es : List RecognizerResult) (keep : Bool)
      → All P es
      → All P (retain c es keep).0
  unfolding retain
  retain-All c [] keep h = tt
  retain-All c (e ∷ es) keep (he, hes) =
      ground (arith, retain-All c es keep hes, retain-All c es false hes)

  pub round-All :
      (survivors : List RecognizerResult) (c : RecognizerResult)
      → All P survivors
      → P c
      → All P (round survivors c)
  unfolding round
  round-All survivors c h hc = elim (Bool-cases (retain c survivors true).1) [
    | inl e ↦
        rw e (
          All-append P (retain c survivors true).0 (c ∷ []) (retain-All c survivors true h)
            (hc, tt))
    | inr e ↦ rw e (retain-All c survivors true h)
  ]

  walk-All :
      (cs survivors : List RecognizerResult)
      → All P survivors
      → All P cs
      → All P (walk survivors cs)
  unfolding walk
  walk-All [] survivors h _ = h
  walk-All (c ∷ cs) survivors h (hc, hcs) =
      walk-All cs (round survivors c) (round-All survivors c h hc) hcs

  pub insert-All :
      (x : RecognizerResult) (ys : List RecognizerResult) → P x → All P ys → All P (insert x ys)
  unfolding insert
  insert-All x [] hx _ = (hx, tt)
  insert-All x (y ∷ ys) hx (hy, hys) = ground (arith, insert-All x ys hx hys)

  pub sort-All : (xs : List RecognizerResult) → All P xs → All P (sort xs)
  unfolding sort
  sort-All [] _ = tt
  sort-All (x ∷ xs) (hx, hxs) = insert-All x (sort xs) hx (sort-All xs hxs)

  -- What holds of every result holds of every survivor: survivors are results that were given.
  pub resolve-All : (results : List RecognizerResult) → All P results → All P (resolve results)
  unfolding resolve
  resolve-All results h = rw resolve-walk (walk-All (sort results) [] tt (sort-All results h))

retain-Disjoint :
    (c : RecognizerResult) (es : List RecognizerResult) (keep : Bool)
    → Disjoint es
    → Disjoint (retain c es keep).0
unfolding retain
retain-Disjoint c [] keep h = tt
retain-Disjoint c (e ∷ es) keep (he, hes) = ground (
  arith,
  retain-Disjoint c es keep hes,
  retain-Disjoint c es false hes,
  retain-All (λ y. overlaps e y ≡ false) c es keep he,
  retain-All (λ y. overlaps e y ≡ false) c es false he,
)

retain-lost : (c : RecognizerResult) (es : List RecognizerResult) → (retain c es false).1 ≡ false
unfolding retain
retain-lost c [] = refl
retain-lost c (e ∷ es) = ground (arith, retain-lost c es)

-- A candidate that is kept overlaps nothing that is left.
retain-kept :
    (c : RecognizerResult) (es : List RecognizerResult)
    → (retain c es true).1 ≡ true
    → All (λ e. overlaps e c ≡ false) (retain c es true).0
unfolding retain
retain-kept c [] h = tt
retain-kept c (e ∷ es) h = ground (arith, retain-kept c es, retain-lost c es)

Disjoint-snoc :
    (es : List RecognizerResult) (c : RecognizerResult)
    → Disjoint es
    → All (λ e. overlaps e c ≡ false) es
    → Disjoint (es ++ c ∷ [])
Disjoint-snoc [] c _ _ = (tt, tt)
Disjoint-snoc (e ∷ es) c (he, hes) (hc, hcs) =
    (All-append (λ y. overlaps e y ≡ false) es (c ∷ []) he (hc, tt), Disjoint-snoc es c hes hcs)

round-Disjoint :
    (survivors : List RecognizerResult) (c : RecognizerResult)
    → Disjoint survivors
    → Disjoint (round survivors c)
unfolding round
round-Disjoint survivors c h = elim (Bool-cases (retain c survivors true).1) [
  | inl e ↦ rw e (
      Disjoint-snoc (retain c survivors true).0 c (retain-Disjoint c survivors true h)
        (retain-kept c survivors e))
  | inr e ↦ rw e (retain-Disjoint c survivors true h)
]

walk-Disjoint :
    (cs survivors : List RecognizerResult) → Disjoint survivors → Disjoint (walk survivors cs)
unfolding walk
walk-Disjoint [] survivors h = h
walk-Disjoint (c ∷ cs) survivors h =
    walk-Disjoint cs (round survivors c) (round-Disjoint survivors c h)

-- No two survivors overlap, whatever the results are.
pub resolve-Disjoint : (results : List RecognizerResult) → Disjoint (resolve results)
resolve-Disjoint results = rw resolve-walk (walk-Disjoint (sort results) [] tt)
