-- ===== src/Pii/Overlap/Order.antt =====
-- crates/pii/src/overlap.rs: the order of the survivors, and resolving them again.
use Prim.Native.Nat.{Ordering}
use dbmcp.Prelude.{
  ◌≤◌, ◌<◌, ◌≡◌, ◌∙◌, refl, sym, ap, List, [], ◌∷◌, ◌++◌, append_assoc, append-nil, Bool, true,
  false, ◌⊎◌, inl, inr, arith, All, All-append, All-middle, Bool-cases,
}
use dbmcp.Pii.Result.{RecognizerResult}
use dbmcp.Pii.Score.{rank}
use dbmcp.Pii.Overlap.{overlaps, retain, round, walk, insert, sort, sort_key, resolve}
use dbmcp.Pii.Overlap.Disjoint.{
  Disjoint, resolve-walk, resolve-Disjoint, retain-All, round-All, insert-All,
}

-- By start, and where two start alike the higher score first.
abbrev pub InOrder : RecognizerResult → RecognizerResult → Type 0
InOrder a b = (a.start < b.start) ⊎ (a.start ≡ b.start) × (rank b.score ≤ rank a.score)

abbrev pub Sorted : List RecognizerResult → Type 0
Sorted [] = Unit
Sorted (x ∷ xs) = All (InOrder x) xs × Sorted xs

InOrder-total : (a b : RecognizerResult) → InOrder a b ⊎ (sort_key a b ≡ Ordering.gt) × InOrder b a
unfolding sort_key
InOrder-total a b = ground arith

InOrder-trans : (a b c : RecognizerResult) → InOrder a b → InOrder b c → InOrder a c
InOrder-trans a b c h k = ground arith

All-trans :
    (a b : RecognizerResult) (cs : List RecognizerResult)
    → InOrder a b
    → All (InOrder b) cs
    → All (InOrder a) cs
All-trans a b [] h _ = tt
All-trans a b (c ∷ cs) h (hc, hcs) = (InOrder-trans a b c h hc, All-trans a b cs h hcs)

insert-before :
    (x y : RecognizerResult) (ys : List RecognizerResult)
    → InOrder x y
    → insert x (y ∷ ys) ≡ x ∷ y ∷ ys
unfolding insert sort_key
insert-before x y ys h = ground arith

insert-behind :
    (x y : RecognizerResult) (ys : List RecognizerResult)
    → sort_key x y ≡ Ordering.gt
    → insert x (y ∷ ys) ≡ y ∷ insert x ys
unfolding insert
insert-behind x y ys h = ground arith

insert-Sorted :
    (x : RecognizerResult) (ys : List RecognizerResult) → Sorted ys → Sorted (insert x ys)
insert-Sorted x [] _ = unfold insert in (tt, tt)
insert-Sorted x (y ∷ ys) (hy, hys) = elim (InOrder-total x y) [
  | inl h ↦ rw (insert-before x y ys h) ((h, All-trans x y ys h hy), (hy, hys))
  | inr (g, h) ↦
      rw (insert-behind x y ys g) (insert-All (InOrder y) x ys h hy, insert-Sorted x ys hys)
]

sort-Sorted : (xs : List RecognizerResult) → Sorted (sort xs)
unfolding sort
sort-Sorted [] = tt
sort-Sorted (x ∷ xs) = insert-Sorted x (sort xs) (sort-Sorted xs)

-- Sorting what is in order changes nothing.
pub sort_of_Sorted : (xs : List RecognizerResult) → Sorted xs → sort xs ≡ xs
unfolding sort
sort_of_Sorted [] _ = refl
sort_of_Sorted (x ∷ []) _ = unfold insert in refl
sort_of_Sorted (x ∷ y ∷ xs) ((hxy, _), hys) =
    ap (insert x) (sort_of_Sorted (y ∷ xs) hys) ∙ insert-before x y xs hxy

retain-Sorted :
    (c : RecognizerResult) (es : List RecognizerResult) (keep : Bool)
    → Sorted es
    → Sorted (retain c es keep).0
unfolding retain
retain-Sorted c [] keep h = tt
retain-Sorted c (e ∷ es) keep (he, hes) = ground (
  arith,
  retain-Sorted c es keep hes,
  retain-Sorted c es false hes,
  retain-All (InOrder e) c es keep he,
  retain-All (InOrder e) c es false he,
)

Sorted-snoc :
    (es : List RecognizerResult) (c : RecognizerResult)
    → Sorted es
    → All (λ e. InOrder e c) es
    → Sorted (es ++ c ∷ [])
Sorted-snoc [] c _ _ = (tt, tt)
Sorted-snoc (e ∷ es) c (he, hes) (hc, hcs) =
    (All-append (InOrder e) es (c ∷ []) he (hc, tt), Sorted-snoc es c hes hcs)

round-Sorted :
    (survivors : List RecognizerResult) (c : RecognizerResult)
    → Sorted survivors
    → All (λ e. InOrder e c) survivors
    → Sorted (round survivors c)
unfolding round
round-Sorted survivors c h before = elim (Bool-cases (retain c survivors true).1) [
  | inl e ↦ rw e (
      Sorted-snoc (retain c survivors true).0 c (retain-Sorted c survivors true h)
        (retain-All (λ e. InOrder e c) c survivors true before))
  | inr e ↦ rw e (retain-Sorted c survivors true h)
]

heads :
    (c : RecognizerResult) (cs es : List RecognizerResult)
    → All (λ e. All (InOrder e) (c ∷ cs)) es
    → All (λ e. InOrder e c) es
heads c cs [] _ = tt
heads c cs (e ∷ es) ((h, _), hs) = (h, heads c cs es hs)

tails :
    (c : RecognizerResult) (cs es : List RecognizerResult)
    → All (λ e. All (InOrder e) (c ∷ cs)) es
    → All (λ e. All (InOrder e) cs) es
tails c cs [] _ = tt
tails c cs (e ∷ es) ((_, h), hs) = (h, tails c cs es hs)

walk-Sorted :
    (cs survivors : List RecognizerResult)
    → Sorted survivors
    → All (λ e. All (InOrder e) cs) survivors
    → Sorted cs
    → Sorted (walk survivors cs)
unfolding walk
walk-Sorted [] survivors h _ _ = h
walk-Sorted (c ∷ cs) survivors h before (hc, hcs) =
    walk-Sorted cs (round survivors c) (round-Sorted survivors c h (heads c cs survivors before))
      (round-All (λ e. All (InOrder e) cs) survivors c (tails c cs survivors before) hc) hcs

-- The survivors are in ascending order of their start, and of those that start alike the higher
-- score stands first.
pub resolve-Sorted : (results : List RecognizerResult) → Sorted (resolve results)
resolve-Sorted results = rw resolve-walk (walk-Sorted (sort results) [] tt tt (sort-Sorted results))

retain-All_kept :
    (c : RecognizerResult) (es : List RecognizerResult)
    → All (λ e. overlaps e c ≡ false) es
    → retain c es true ≡ (es, true)
unfolding retain
retain-All_kept c [] _ = refl
retain-All_kept c (e ∷ es) (he, hes) = rw (he, retain-All_kept c es hes)

Disjoint-middle :
    (es : List RecognizerResult) (c : RecognizerResult) (cs : List RecognizerResult)
    → Disjoint (es ++ c ∷ cs)
    → All (λ e. overlaps e c ≡ false) es
Disjoint-middle [] c cs _ = tt
Disjoint-middle (e ∷ es) c cs (he, hes) =
    (All-middle (λ y. overlaps e y ≡ false) es c cs he, Disjoint-middle es c cs hes)

walk_of_Disjoint :
    (cs survivors : List RecognizerResult)
    → Disjoint (survivors ++ cs)
    → walk survivors cs ≡ survivors ++ cs
unfolding walk round
walk_of_Disjoint [] survivors _ = sym (append-nil survivors)
walk_of_Disjoint (c ∷ cs) survivors h =
    rw (retain-All_kept c survivors (Disjoint-middle survivors c cs h)) (
      walk_of_Disjoint cs (survivors ++ c ∷ []) (rw append_assoc h)
      ∙ append_assoc survivors (c ∷ []) cs)

-- Resolving the survivors again changes nothing.
pub resolve-resolve :
    (results : List RecognizerResult) → resolve (resolve results) ≡ resolve results
resolve-resolve results =
    resolve-walk (resolve results)
    ∙ ap (walk []) (sort_of_Sorted (resolve results) (resolve-Sorted results))
    ∙ walk_of_Disjoint (resolve results) [] (resolve-Disjoint results)
