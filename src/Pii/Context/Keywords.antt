-- ===== src/Pii/Context/Keywords.antt =====
-- crates/pii/src/context.rs `find_supportive_keyword`: which keyword is found.
use dbmcp.Prelude.{
  ◌≡◌, ◌⊎◌, inl, inr, refl, Bytes, List, [], ◌∷◌, ◌++◌, true, false, Bool-cases, Option, none, some,
  any, All, arith, bytes_eq, bytes_eq→eq, bytes_eq_refl, subst,
}
use dbmcp.Pii.Context.{find_keyword, find_supportive_keyword}

-- The word is one of the words.
abbrev pub Stands : Bytes → List Bytes → Type 0
Stands word [] = ⊥
Stands word (w ∷ words) = (w ≡ word) ⊎ Stands word words

-- The keyword is the first of the keywords that is one of the words.
abbrev pub FirstOf : List Bytes → List Bytes → Bytes → Type 0
FirstOf words [] hit = ⊥
FirstOf words (kw ∷ keywords) hit =
    (Stands kw words × (hit ≡ kw)) ⊎ ((¬ Stands kw words) × FirstOf words keywords hit)

any-Stands :
    (words : List Bytes) (kw : Bytes) → any (λ w. bytes_eq w kw) words ≡ true → Stands kw words
any-Stands [] kw h = cc
any-Stands (w ∷ words) kw h = elim (Bool-cases (bytes_eq w kw)) [
  | inl e ↦ inl (bytes_eq→eq w kw e)
  | inr e ↦ inr (any-Stands words kw (ground arith))
]

any-not :
    (words : List Bytes) (kw : Bytes) → any (λ w. bytes_eq w kw) words ≡ false → ¬ Stands kw words
any-not [] kw h s = elim s [ ]
any-not (w ∷ words) kw h (inl e) =
    let same : bytes_eq kw kw ≡ false = subst (λ u. bytes_eq u kw ≡ false) e (ground arith) in
    ground (arith, bytes_eq_refl kw)
any-not (w ∷ words) kw h (inr s) = any-not words kw (ground arith) s

-- What is found is the first keyword among the words, and where nothing is found there is none.
abbrev pub Finds : List Bytes → List Bytes → Option Bytes → Type 0
Finds words keywords none = All (λ kw. ¬ Stands kw words) keywords
Finds words keywords (some hit) = FirstOf words keywords hit

Finds-later :
    (words keywords : List Bytes) (kw : Bytes) (found : Option Bytes)
    → (¬ Stands kw words)
    → Finds words keywords found
    → Finds words (kw ∷ keywords) found
Finds-later words keywords kw none n h = (n, h)
Finds-later words keywords kw (some hit) n h = inr (n, h)

find_keyword-Finds :
    (words keywords : List Bytes) → Finds words keywords (find_keyword words keywords)
unfolding find_keyword
find_keyword-Finds words [] = tt
find_keyword-Finds words (kw ∷ keywords) = elim (Bool-cases (any (λ w. bytes_eq w kw) words)) [
  | inl e ↦ rw e (inl (any-Stands words kw e, refl))
  | inr e ↦ rw e (
      Finds-later words keywords kw (find_keyword words keywords) (any-not words kw e)
        (find_keyword-Finds words keywords))
]

pub find-Finds :
    (window external keywords : List Bytes)
    → Finds (window ++ external) keywords (find_supportive_keyword window external keywords)
unfolding find_supportive_keyword
find-Finds window external keywords = find_keyword-Finds (window ++ external) keywords
