-- ===== src/Pii/Analyzer/Categories.antt =====
-- The registry that the builder keeps for a set of categories.
use dbmcp.Prelude.{◌≡◌, subst, List, [], ◌∷◌, true, Bool-cases, inl, inr, some, ok, All, any, arith}
use dbmcp.Pii.Category.{Category, category_eq}
use dbmcp.Pii.Recognizers.{Recognizer}
use dbmcp.Pii.Analyzer.{contains, tagged, check_categories, build}

tagged-All :
    (cats : List Category) (rs : List Recognizer)
    → All (λ r. contains cats r.category ≡ true) (tagged cats rs)
unfolding tagged
tagged-All cats [] = tt
tagged-All cats (r ∷ rs) = elim (Bool-cases (contains cats r.category)) [
  | inl e ↦ rw e (e, tagged-All cats rs)
  | inr e ↦ rw e (tagged-All cats rs)
]

check_categories-All :
    (kept : List Recognizer) (cats : List Category) (recs : List Recognizer)
    → check_categories kept cats ≡ ok recs
    → (kept ≡ recs) × All (λ c. any (λ r. category_eq r.category c) kept ≡ true) cats
unfolding check_categories
check_categories-All kept [] recs h = (ground arith, tt)
check_categories-All kept (c ∷ cats) recs h =
    elim (Bool-cases (any (λ r. category_eq r.category c) kept)) [
      | inl e ↦
          let rest : check_categories kept cats ≡ ok recs = ground arith in
          let (same, all) = check_categories-All kept cats recs rest in (same, (e, all))
      | inr e ↦ absurd (ground arith)
    ]

-- An analyzer that is built for a set of categories holds recognizers of these categories alone, and
-- at least one for each of them.
pub build-tagged :
    (registry : List Recognizer) (cats : List Category) (recs : List Recognizer)
    → build registry (some cats) ≡ ok recs
    → All (λ r. contains cats r.category ≡ true) recs
      × All (λ c. any (λ r. category_eq r.category c) recs ≡ true) cats
unfolding build
build-tagged registry cats recs h =
    let (same, all) = check_categories-All (tagged cats registry) cats recs h in
    (
      subst (λ rs. All (λ r. contains cats r.category ≡ true) rs) same (tagged-All cats registry),
      subst (λ rs. All (λ c. any (λ r. category_eq r.category c) rs ≡ true) cats) same all,
    )
