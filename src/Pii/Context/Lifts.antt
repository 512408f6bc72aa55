-- ===== src/Pii/Context/Lifts.antt =====
-- crates/pii/src/context.rs: which results the boost lifts, and to which score.
use Prim.Native.Nat.{min, max}
use dbmcp.Prelude.{
  ℕ, ◌≤◌, ◌≡◌, ◌≢◌, ◌⊎◌, refl, Bytes, List, [], ◌∷◌, ◌++◌, Bool-cases, inl, inr, Option, none, some,
  ==→eq, All, arith,
}
use dbmcp.Pii.Score.{Score, InUnit, rank, max_score, score_eq}
use dbmcp.Pii.Result.{RecognizerResult}
use dbmcp.Pii.Context.Scores.{NotNegative, boost_score-lifts}
use dbmcp.Pii.Context.Boosts.{Settled}
use dbmcp.Pii.Context.Nearby.{nearby, collect_window-nearby}
use dbmcp.Pii.Context.Keywords.{Stands, FirstOf, Finds, find-Finds}
use dbmcp.Pii.Recognizers.Fits.{Sound}
use dbmcp.Pii.Words.{Unicode, words}
use dbmcp.Pii.Recognizers.{Recognizer}
use dbmcp.Pii.Context.{
  ContextSettings, find_supportive_keyword, boosted_by, supported, boost_one, boost_all,
  boost_unless_empty, apply_context_boost,
}

module _ (unicode : Unicode) (add : ℕ → ℕ → ℕ) where
  -- What the boost makes of a result. One that has the highest score, or no keyword of which is among
  -- the words, stays as it is. Any other gets the first keyword among the words and a score that is
  -- no lower than its own and than the floor: the sum with the factor, or the floor where that is
  -- higher, and 1.0 at most.
  abbrev pub Lifted :
      List Bytes → List Bytes → ContextSettings → RecognizerResult → RecognizerResult → Type 0
  Lifted keywords words settings r r' =
      (((rank r.score ≡ rank max_score) ⊎ All (λ kw. ¬ Stands kw words) keywords) × (r' ≡ r))
      ⊎ ((hit : Bytes) × (s : Score) × (rank r.score ≢ rank max_score)
          × FirstOf words keywords hit
          × (r' ≡ record r {
            score = s;
            explanation = record r.explanation { final_score = s; supportive_keyword = some hit };
          })
          × (rank r.score ≤ rank s)
          × (rank settings.min_score_with_context ≤ rank s)
          × (rank s
              ≡ min
                  (max (rank (record { bits = add r.score.bits settings.similarity_factor.bits }))
                    (rank settings.min_score_with_context))
                  (rank max_score)))

  -- What the boost needs of the sum of two scores.
  abbrev SumNoLower : Type 0
  SumNoLower =
      (a b : Score)
      → InUnit a
      → InUnit b
      → NotNegative (add a.bits b.bits) × (rank a ≤ rank (record { bits = add a.bits b.bits }))

  supported-Lifted :
      (text : Bytes) (r : RecognizerResult) (keywords words : List Bytes)
      (settings : ContextSettings) (hit : Option Bytes)
      → SumNoLower
      → Settled unicode add settings
      → Sound text r
      → (rank r.score ≢ rank max_score)
      → Finds words keywords hit
      → (r' : RecognizerResult) × (supported unicode add r settings hit ≡ some r')
        × Sound text r'
        × Lifted keywords words settings r r'
  unfolding supported boosted_by
  supported-Lifted text r keywords words settings none sum _ h below found =
      (r, refl, h, inl (inr found, refl))
  supported-Lifted text r keywords words settings (some hit) sum (factor, floor) (fits, unit) below
        found =
      let (positive, no_lower) = sum r.score settings.similarity_factor unit factor in
      let (s, e, u, own, high, exact) =
        boost_score-lifts unicode add r.score settings.similarity_factor
          settings.min_score_with_context positive no_lower unit floor in
      (
        boosted_by unicode add r s hit,
        rw e refl,
        (fits, u),
        inr (hit, s, below, found, refl, own, high, exact),
      )

  boost_one-Lifted :
      (text : Bytes) (r : RecognizerResult) (keywords external : List Bytes)
      (settings : ContextSettings)
      → SumNoLower
      → Settled unicode add settings
      → Sound text r
      → (r' : RecognizerResult) × (boost_one unicode add text r keywords external settings
          ≡ some r')
        × Sound text r'
        × Lifted keywords (nearby unicode add text r settings ++ external) settings r r'
  unfolding boost_one
  boost_one-Lifted text r keywords external settings sum settled (fits, unit) =
      elim (Bool-cases (score_eq r.score max_score)) [
        | inl e ↦
            (r, rw e refl, (fits, unit), inl (inl (==→eq (rank r.score) (rank max_score) e), refl))
        | inr e ↦
            let words = nearby unicode add text r settings ++ external in
            let (r', s, k, b) =
              supported-Lifted text r keywords words settings
                (find_supportive_keyword (nearby unicode add text r settings) external keywords) sum
                settled (fits, unit) (ground arith)
                (find-Finds (nearby unicode add text r settings) external keywords) in
            (r', rw (e, collect_window-nearby unicode add text r settings fits) s, k, b)
      ]

  -- A result for each, in the same order.
  abbrev pub AllLifted :
      Bytes
      → List Bytes
      → List Bytes
      → ContextSettings
      → List RecognizerResult
      → List RecognizerResult
      → Type 0
  AllLifted text keywords external settings [] [] = Unit
  AllLifted text keywords external settings (r ∷ rs) (r' ∷ rs') =
      Lifted keywords (nearby unicode add text r settings ++ external) settings r r'
      × AllLifted text keywords external settings rs rs'
  AllLifted text keywords external settings _ _ = ⊥

  boost_all-Lifted :
      (text : Bytes) (rs : List RecognizerResult) (keywords external : List Bytes)
      (settings : ContextSettings)
      → SumNoLower
      → Settled unicode add settings
      → All (Sound text) rs
      → (rs' : List RecognizerResult) × (boost_all unicode add text rs keywords external settings
          ≡ some rs')
        × All (Sound text) rs'
        × AllLifted text keywords external settings rs rs'
  unfolding boost_all
  boost_all-Lifted text [] keywords external settings _ _ _ = ([], refl, tt, tt)
  boost_all-Lifted text (r ∷ rs) keywords external settings sum settled (h, hs) =
      let (r', e, k, b) = boost_one-Lifted text r keywords external settings sum settled h in
      let (rs', es, ks, bs) = boost_all-Lifted text rs keywords external settings sum settled hs in
      (r' ∷ rs', rw (e, es) refl, (k, ks), (b, bs))

  AllLifted-refl :
      (text : Bytes) (settings : ContextSettings) (rs : List RecognizerResult)
      → AllLifted text [] [] settings rs rs
  AllLifted-refl text settings [] = tt
  AllLifted-refl text settings (r ∷ rs) = (inl (inr tt, refl), AllLifted-refl text settings rs)

  unless_empty-Lifted :
      (text : Bytes) (rs : List RecognizerResult) (keywords external : List Bytes)
      (settings : ContextSettings)
      → SumNoLower
      → Settled unicode add settings
      → All (Sound text) rs
      → (rs' : List RecognizerResult) × (boost_unless_empty unicode add keywords external text rs
            settings
          ≡ some rs')
        × All (Sound text) rs'
        × AllLifted text keywords external settings rs rs'
  unfolding boost_unless_empty
  unless_empty-Lifted text rs [] [] settings _ _ h = (rs, refl, h, AllLifted-refl text settings rs)
  unless_empty-Lifted text rs [] (w ∷ external) settings sum settled h =
      boost_all-Lifted text rs [] (w ∷ external) settings sum settled h
  unless_empty-Lifted text rs (w ∷ keywords) external settings sum settled h =
      boost_all-Lifted text rs (w ∷ keywords) external settings sum settled h

  -- For results that are ranges of the text with scores in range, where the settings' scores are in
  -- range and no sum of two scores is negative or lower than the first, the boost returns a result for
  -- each, in order, a range of the text with a score in range. It is unchanged where the score is the
  -- highest or no keyword is among the words near the range and the external ones; otherwise it has
  -- the first keyword that is, and its score is the sum with the factor, or the floor where that is
  -- higher, and 1.0 at most, no lower than it was and than the floor, and nothing else has changed.
  pub apply_context_boost-Lifted :
      (text : Bytes) (rs : List RecognizerResult) (rec : Recognizer) (external : List Bytes)
      (settings : ContextSettings)
      → ((a b : Score)
          → InUnit a
          → InUnit b
          → NotNegative (add a.bits b.bits) × (rank a ≤ rank (record { bits = add a.bits b.bits })))
      → InUnit settings.similarity_factor
      → InUnit settings.min_score_with_context
      → All (Sound text) rs
      → (rs' : List RecognizerResult) × (apply_context_boost unicode add text rs rec external
            settings
          ≡ some rs')
        × All (Sound text) rs'
        × AllLifted text rec.context external settings rs rs'
  unfolding apply_context_boost
  apply_context_boost-Lifted text rs rec external settings sum factor floor h =
      unless_empty-Lifted text rs rec.context external settings sum (factor, floor) h
