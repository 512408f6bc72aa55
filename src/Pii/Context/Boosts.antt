-- ===== src/Pii/Context/Boosts.antt =====
-- crates/pii/src/context.rs: the boost over a text and its ranges.
use Prim.Native.Nat.{min}
use dbmcp.Prelude.{
  ℕ, zero, suc, ◌+◌, ◌-◌, ◌≤◌, ◌≡◌, refl, sym, subst, Bytes, List, [], ◌∷◌, ◌++◌, true, Bool-cases,
  inl, inr, Option, none, some, ◌==◌, length, take, drop, All, arith, slice, between, slice-between,
  is_char_boundary, is_char_boundary_start, is_char_boundary_end, boundary_inside,
}
use dbmcp.Pii.Score.{Score, InUnit, max_score, score_eq}
use dbmcp.Pii.Result.{RecognizerResult}
use dbmcp.Pii.Anonymizer.Rewrites.{Fits}
use dbmcp.Pii.Context.Scores.{NotNegative, boost_score-total}
use dbmcp.Pii.Recognizers.Fits.{Sound}
use dbmcp.Pii.Words.{Unicode, words, first_word}
use dbmcp.Pii.Recognizers.{Recognizer}
use dbmcp.Pii.Context.{
  ContextSettings, left_from, right_from, safe_left_boundary, safe_right_boundary, pushed,
  find_supportive_keyword, add_suffix, collect_window, boosted_by, supported, boost_one, boost_all,
  boost_unless_empty, apply_context_boost,
}

left-Boundary :
    (text : Bytes) (s : ℕ)
    → (left_from text s ≤ s) × (is_char_boundary text (left_from text s) ≡ true)
unfolding left_from
left-Boundary text zero = (omega arith, is_char_boundary_start text)
left-Boundary text (suc s) = let (h, b) = left-Boundary text s in ground arith

right-Boundary :
    (text : Bytes) (fuel e : ℕ)
    → e + fuel ≡ length text
    → (e ≤ right_from text fuel e) × (is_char_boundary text (right_from text fuel e) ≡ true)
unfolding right_from
right-Boundary text zero e h =
    let at_end : e ≡ length text = omega arith in
    (
      omega arith,
      subst (λ i. is_char_boundary text i ≡ true) (sym at_end) (is_char_boundary_end text),
    )
right-Boundary text (suc fuel) e h =
    let (k, b) = right-Boundary text fuel (e + 1) (omega arith) in ground arith

module _ (unicode : Unicode) (add : ℕ → ℕ → ℕ) where
  add_suffix-total :
      (text : Bytes) (right suffix : ℕ) (out : List Bytes)
      → is_char_boundary text right ≡ true
      → (ws : List Bytes) × (add_suffix unicode add text right suffix out ≡ some ws)
  unfolding add_suffix
  add_suffix-total text right suffix out br =
      let behind : slice text right (length text) ≡ some (between right (length text) text) =
        slice-between text right (length text) (boundary_inside text right br) (omega arith) br
          (is_char_boundary_end text) in
      elim (Bool-cases (suffix == 0)) [
        | inl e ↦ (out, rw e refl)
        | inr e ↦ (
          out ++ take suffix (words unicode (between right (length text) text)),
          rw (e, behind) refl,
        )
      ]

  collect_window-total :
      (text : Bytes) (r : RecognizerResult) (prefix suffix : ℕ)
      → Fits text r
      → (ws : List Bytes) × (collect_window unicode add text r.start r.end prefix suffix ≡ some ws)
  unfolding collect_window add_suffix safe_left_boundary safe_right_boundary
  collect_window-total text r prefix suffix (h, k, bs, be) =
      let left : ℕ = left_from text (min r.start (length text)) in
      let right : ℕ =
        right_from text (length text - min r.end (length text)) (min r.end (length text)) in
      let (low, bl) = left-Boundary text (min r.start (length text)) in
      let (high, br) =
        right-Boundary text (length text - min r.end (length text)) (min r.end (length text))
          (ground arith) in
      let before : slice text 0 left ≡ some (between 0 left text) =
        slice-between text 0 left (omega arith) (boundary_inside text left bl)
          (is_char_boundary_start text) bl in
      let own : slice text left right ≡ some (between left right text) =
        slice-between text left right (ground arith) (boundary_inside text right br) bl br in
      let (ws, e) =
        add_suffix-total text right suffix
          (drop (length (words unicode (between 0 left text)) - (prefix + 1))
              (words unicode (between 0 left text))
            ++ pushed (first_word unicode (between left right text)))
          br in
      (ws, rw (before, own) e)

  -- What the boost needs of the settings and of the sum of two scores.
  abbrev pub Settled : ContextSettings → Type 0
  Settled settings = InUnit settings.similarity_factor × InUnit settings.min_score_with_context

  abbrev pub SumNotNegative : Type 0
  SumNotNegative = (a b : Score) → InUnit a → InUnit b → NotNegative (add a.bits b.bits)

  supported-total :
      (text : Bytes) (r : RecognizerResult) (settings : ContextSettings) (hit : Option Bytes)
      → SumNotNegative
      → Settled settings
      → Sound text r
      → (r' : RecognizerResult) × (supported unicode add r settings hit ≡ some r') × Sound text r'
  unfolding supported boosted_by
  supported-total text r settings none sum _ h = (r, refl, h)
  supported-total text r settings (some hit) sum (factor, floor) (fits, unit) =
      let (s, e, _, u) =
        boost_score-total unicode add r.score settings.similarity_factor
          settings.min_score_with_context (sum r.score settings.similarity_factor unit factor)
          floor in
      (boosted_by unicode add r s hit, rw e refl, (fits, u))

  boost_one-total :
      (text : Bytes) (r : RecognizerResult) (keywords external : List Bytes)
      (settings : ContextSettings)
      → SumNotNegative
      → Settled settings
      → Sound text r
      → (r' : RecognizerResult) × (boost_one unicode add text r keywords external settings
          ≡ some r')
        × Sound text r'
  unfolding boost_one
  boost_one-total text r keywords external settings sum settled (fits, unit) =
      elim (Bool-cases (score_eq r.score max_score)) [
        | inl e ↦ (r, rw e refl, (fits, unit))
        | inr e ↦
            let (window, w) =
              collect_window-total text r settings.prefix_words settings.suffix_words fits in
            let (r', s, k) =
              supported-total text r settings (find_supportive_keyword window external keywords) sum
                settled (fits, unit) in
            (r', rw (e, w) s, k)
      ]

  boost_all-total :
      (text : Bytes) (rs : List RecognizerResult) (keywords external : List Bytes)
      (settings : ContextSettings)
      → SumNotNegative
      → Settled settings
      → All (Sound text) rs
      → (rs' : List RecognizerResult) × (boost_all unicode add text rs keywords external settings
          ≡ some rs')
        × All (Sound text) rs'
  unfolding boost_all
  boost_all-total text [] keywords external settings _ _ _ = ([], refl, tt)
  boost_all-total text (r ∷ rs) keywords external settings sum settled (h, hs) =
      let (r', e, k) = boost_one-total text r keywords external settings sum settled h in
      let (rs', es, ks) = boost_all-total text rs keywords external settings sum settled hs in
      (r' ∷ rs', rw (e, es) refl, (k, ks))

  unless_empty-total :
      (text : Bytes) (rs : List RecognizerResult) (keywords external : List Bytes)
      (settings : ContextSettings)
      → SumNotNegative
      → Settled settings
      → All (Sound text) rs
      → (rs' : List RecognizerResult) × (boost_unless_empty unicode add keywords external text rs
            settings
          ≡ some rs')
        × All (Sound text) rs'
  unfolding boost_unless_empty
  unless_empty-total text rs [] [] settings _ _ h = (rs, refl, h)
  unless_empty-total text rs [] (w ∷ external) settings sum settled h =
      boost_all-total text rs [] (w ∷ external) settings sum settled h
  unless_empty-total text rs (w ∷ keywords) external settings sum settled h =
      boost_all-total text rs (w ∷ keywords) external settings sum settled h

  -- For results that are ranges of the text with scores in range, where the settings' scores are in
  -- range and no sum of two scores is negative, the boost returns results of which
  -- the same holds.
  pub apply_context_boost-total :
      (text : Bytes) (rs : List RecognizerResult) (rec : Recognizer) (external : List Bytes)
      (settings : ContextSettings)
      → ((a b : Score) → InUnit a → InUnit b → NotNegative (add a.bits b.bits))
      → InUnit settings.similarity_factor
      → InUnit settings.min_score_with_context
      → All (Sound text) rs
      → (rs' : List RecognizerResult) × (apply_context_boost unicode add text rs rec external
            settings
          ≡ some rs')
        × All (Sound text) rs'
  unfolding apply_context_boost
  apply_context_boost-total text rs rec external settings sum factor floor h =
      unless_empty-total text rs rec.context external settings sum (factor, floor) h
