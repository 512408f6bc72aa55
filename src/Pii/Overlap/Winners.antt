-- ===== src/Pii/Overlap/Winners.antt =====
-- crates/pii/src/overlap.rs: which results survive.
use dbmcp.Prelude.{
  ◌<◌, ◌≡◌, ◌∙◌, refl, ap, List, [], ◌∷◌, ◌++◌, Bool, true, false, ◌⊎◌, inl, inr, arith, All, subst,
  Bool-cases,
}
use dbmcp.Pii.Result.{RecognizerResult}
use dbmcp.Pii.Overlap.{
  Dominance, existing, candidate, equal, overlaps, dominate, retain, round, walk, insert, sort,
  resolve,
}
use dbmcp.Pii.Overlap.Order.{sort_of_Sorted}
use dbmcp.Pii.Overlap.Disjoint.{resolve-walk, sort-All, round-All}

-- `e` is one of the results.
abbrev pub Has : RecognizerResult → List RecognizerResult → Type 0
Has e [] = ⊥
Has e (x ∷ xs) = (e ≡ x) ⊎ Has e xs

-- `e` wins against `x` if they overlap, whichever of them is seen first.
abbrev pub Beats : RecognizerResult → RecognizerResult → Type 0
Beats e x =
    (overlaps e x ≡ false) × (overlaps x e ≡ false)
    ⊎ (dominate e x ≡ existing) × (dominate x e ≡ candidate)

abbrev pub SameOrBeaten : RecognizerResult → RecognizerResult → Type 0
SameOrBeaten e x = (e ≡ x) ⊎ Beats e x

dominate_self : (e : RecognizerResult) → dominate e e ≡ existing
unfolding dominate
dominate_self e = ground arith

holds_out :
    (e c : RecognizerResult) → SameOrBeaten e c → (overlaps e c ≡ false) ⊎ (dominate e c ≡ existing)
holds_out e c (inl same) = inr (subst (λ x. dominate e x ≡ existing) same (dominate_self e))
holds_out e c (inr (inl (apart, _))) = inl apart
holds_out e c (inr (inr (wins, _))) = inr wins

retain_head :
    (e c : RecognizerResult) (es : List RecognizerResult) (keep : Bool)
    → (overlaps e c ≡ false) ⊎ (dominate e c ≡ existing)
    → Has e (retain c (e ∷ es) keep).0
unfolding retain
retain_head e c es keep (inl apart) = rw apart (inl refl)
retain_head e c es keep (inr wins) = elim (Bool-cases (overlaps e c)) [
  | inl o ↦ rw (o, wins) (inl refl)
  | inr o ↦ rw o (inl refl)
]

abbrev passed :
    RecognizerResult
    → Bool
    → Dominance
    → List RecognizerResult × Bool
    → List RecognizerResult × Bool
    → List RecognizerResult × Bool
passed x false d kept beaten = (x ∷ kept.0, kept.1)
passed x true candidate kept beaten = kept
passed x true existing kept beaten = (x ∷ beaten.0, beaten.1)
passed x true equal kept beaten = (x ∷ beaten.0, beaten.1)

-- One round of `retain`, with the results of the rest.
retain-passed :
    (c x : RecognizerResult) (es : List RecognizerResult) (keep : Bool)
    → retain c (x ∷ es) keep
      ≡ passed x (overlaps x c) (dominate x c) (retain c es keep) (retain c es false)
unfolding retain
retain-passed c x es keep = ground arith

passed-Has :
    (e x : RecognizerResult) (o : Bool) (d : Dominance) (kept beaten : List RecognizerResult × Bool)
    → Has e kept.0
    → Has e beaten.0
    → Has e (passed x o d kept beaten).0
passed-Has e x false d kept beaten h k = inr h
passed-Has e x true existing kept beaten h k = inr k
passed-Has e x true candidate kept beaten h k = h
passed-Has e x true equal kept beaten h k = inr k

retain-Has :
    (e c : RecognizerResult) (es : List RecognizerResult) (keep : Bool)
    → SameOrBeaten e c
    → Has e es
    → Has e (retain c es keep).0
retain-Has e c [] keep beats h = absurd h
retain-Has e c (x ∷ es) keep beats (inl same) =
    subst (λ x. Has e (retain c (x ∷ es) keep).0) same
      (retain_head e c es keep (holds_out e c beats))
retain-Has e c (x ∷ es) keep beats (inr h) = rw retain-passed (
    passed-Has e x (overlaps x c) (dominate x c) (retain c es keep) (retain c es false)
      (retain-Has e c es keep beats h) (retain-Has e c es false beats h))

-- A candidate that loses against the survivors is among them.
retain-lost-Has :
    (e : RecognizerResult) (es : List RecognizerResult)
    → All (SameOrBeaten e) es
    → (retain e es true).1 ≡ false
    → Has e (retain e es true).0
unfolding retain
retain-lost-Has e [] _ lost = cc
retain-lost-Has e (x ∷ es) (inl same, hes) lost =
    subst (λ x. Has e (retain e (x ∷ es) true).0) same
      (retain_head e e es true (inr (dominate_self e)))
retain-lost-Has e (x ∷ es) (inr (inl (_, apart)), hes) lost =
    rw apart (inr (retain-lost-Has e es hes (rw apart at lost)))
retain-lost-Has e (x ∷ es) (inr (inr (_, wins)), hes) lost = elim (Bool-cases (overlaps x e)) [
  | inl o ↦ rw (o, wins) (retain-lost-Has e es hes (rw (o, wins) at lost))
  | inr o ↦ rw o (inr (retain-lost-Has e es hes (rw o at lost)))
]

Has-append_left :
    (e : RecognizerResult) (xs ys : List RecognizerResult) → Has e xs → Has e (xs ++ ys)
Has-append_left e [] ys h = absurd h
Has-append_left e (x ∷ xs) ys (inl same) = inl same
Has-append_left e (x ∷ xs) ys (inr h) = inr (Has-append_left e xs ys h)

Has-snoc : (e : RecognizerResult) (xs : List RecognizerResult) → Has e (xs ++ e ∷ [])
Has-snoc e [] = inl refl
Has-snoc e (x ∷ xs) = inr (Has-snoc e xs)

round-Has :
    (e c : RecognizerResult) (survivors : List RecognizerResult)
    → SameOrBeaten e c
    → Has e survivors
    → Has e (round survivors c)
unfolding round
round-Has e c survivors beats h = elim (Bool-cases (retain c survivors true).1) [
  | inl k ↦ rw k (
      Has-append_left e (retain c survivors true).0 (c ∷ [])
        (retain-Has e c survivors true beats h))
  | inr k ↦ rw k (retain-Has e c survivors true beats h)
]

round_self :
    (e : RecognizerResult) (survivors : List RecognizerResult)
    → All (SameOrBeaten e) survivors
    → Has e (round survivors e)
unfolding round
round_self e survivors h = elim (Bool-cases (retain e survivors true).1) [
  | inl k ↦ rw k (Has-snoc e (retain e survivors true).0)
  | inr k ↦ rw k (retain-lost-Has e survivors h k)
]

walk-Has :
    (e : RecognizerResult) (cs survivors : List RecognizerResult)
    → All (SameOrBeaten e) cs
    → All (SameOrBeaten e) survivors
    → Has e survivors ⊎ Has e cs
    → Has e (walk survivors cs)
unfolding walk
walk-Has e [] survivors _ _ (inl h) = h
walk-Has e [] survivors _ _ (inr h) = absurd h
walk-Has e (c ∷ cs) survivors (hc, hcs) hs h =
    walk-Has e cs (round survivors c) hcs (round-All (SameOrBeaten e) survivors c hs hc) (next h)
  where
    next : Has e survivors ⊎ Has e (c ∷ cs) → Has e (round survivors c) ⊎ Has e cs
    next (inl h) = inl (round-Has e c survivors hc h)
    next (inr (inl same)) =
        inl (subst (λ x. Has e (round survivors x)) same (round_self e survivors hs))
    next (inr (inr h)) = inr h

insert-Has_self : (e : RecognizerResult) (ys : List RecognizerResult) → Has e (insert e ys)
unfolding insert
insert-Has_self e [] = inl refl
insert-Has_self e (y ∷ ys) = ground (arith, insert-Has_self e ys)

insert-Has : (e x : RecognizerResult) (ys : List RecognizerResult) → Has e ys → Has e (insert x ys)
unfolding insert
insert-Has e x [] h = absurd h
insert-Has e x (y ∷ ys) (inl same) = ground arith
insert-Has e x (y ∷ ys) (inr h) = ground (arith, insert-Has e x ys h)

sort-Has : (e : RecognizerResult) (xs : List RecognizerResult) → Has e xs → Has e (sort xs)
unfolding sort
sort-Has e [] h = h
sort-Has e (x ∷ xs) (inl same) =
    subst (λ y. Has e (insert y (sort xs))) same (insert-Has_self e (sort xs))
sort-Has e (x ∷ xs) (inr h) = insert-Has e x (sort xs) (sort-Has e xs h)

-- A result that wins against every other result that it overlaps survives, wherever it stands in
-- the input.
pub resolve-Has :
    (e : RecognizerResult) (results : List RecognizerResult)
    → Has e results
    → All (SameOrBeaten e) results
    → Has e (resolve results)
resolve-Has e results h beats = rw resolve-walk (
    walk-Has e (sort results) [] (sort-All (SameOrBeaten e) results beats) tt
      (inr (sort-Has e results h)))

-- A result can be lost with no survivor over it: of three results in a row, each overlapping the
-- next alone and losing to it, only the last survives.
pub resolve-chain :
    (a b c : RecognizerResult)
    → a.start < b.start
    → b.start < c.start
    → overlaps a b ≡ true
    → overlaps b c ≡ true
    → overlaps a c ≡ false
    → dominate a b ≡ candidate
    → dominate b c ≡ candidate
    → (resolve (a ∷ b ∷ c ∷ []) ≡ c ∷ [])
      × All (λ s. overlaps a s ≡ false) (resolve (a ∷ b ∷ c ∷ []))
resolve-chain a b c hab hbc oab obc oac dab dbc =
    let kept : resolve (a ∷ b ∷ c ∷ []) ≡ c ∷ [] =
      resolve-walk (a ∷ b ∷ c ∷ [])
      ∙ ap (walk []) (
          sort_of_Sorted (a ∷ b ∷ c ∷ [])
            ((inl hab, (inl (omega arith), tt)), ((inl hbc, tt), (tt, tt))))
      ∙ unfold walk round retain in rw (oab, dab, obc, dbc) in
    (kept, rw kept (oac, tt))
