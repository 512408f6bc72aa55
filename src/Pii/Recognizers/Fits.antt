-- ===== src/Pii/Recognizers/Fits.antt =====
-- crates/pii/src/recognizers/mod.rs: results as ranges of the text.
use dbmcp.Prelude.{
  ℕ, ◌≤◌, ◌<◌, ◌≡◌, refl, Bytes, List, [], ◌∷◌, ◌++◌, true, not, ◌||◌, Bool-cases, inl, inr, Option,
  none, some, leb, length, All, All-append, arith, slice, between, slice-between, is_char_boundary,
  boundary_inside,
}
use dbmcp.Pii.Outcome.{ValidationOutcome}
use dbmcp.Pii.Score.{InUnit}
use dbmcp.Pii.Result.{RecognizerResult}
use dbmcp.Pii.Validators.{Libraries, validate}
use dbmcp.Pii.Anonymizer.Rewrites.{Fits}
use dbmcp.Pii.Recognizers.{
  Pattern, Recognizer, final_of, result_of, scored, build_result, kept, of_matches, of_regexes,
  analyze,
}

-- A range of the text, with a score that `Score::new` accepts.
abbrev pub Sound : Bytes → RecognizerResult → Type 0
Sound text r = Fits text r × InUnit r.score

module _ (libraries : Libraries) (r : Recognizer) where
  kept-Fits :
      (text : Bytes) (regex : Pattern) (start end : ℕ) (outcome : ValidationOutcome)
      (rs : List RecognizerResult)
      → InUnit regex.score
      → start < end
      → end ≤ length text
      → is_char_boundary text start ≡ true
      → is_char_boundary text end ≡ true
      → All (Sound text) rs
      → All (Sound text) (kept libraries r (scored libraries r regex start end outcome) rs)
  unfolding kept scored final_of result_of
  kept-Fits text regex start end outcome rs u h k bs be hs = ground arith

  build_result-total :
      (text : Bytes) (regex : Pattern) (start end : ℕ) (rs : List RecognizerResult)
      → InUnit regex.score
      → All (Sound text) rs
      → (found : Option RecognizerResult) × (build_result libraries r regex start end text
          ≡ some found)
        × All (Sound text) (kept libraries r found rs)
  unfolding build_result
  build_result-total text regex start end rs u hs =
      elim (Bool-cases
        (leb end start || not (is_char_boundary text start) || not (is_char_boundary text end))) [
          | inl e ↦ (none, rw e refl, unfold kept in hs)
          | inr e ↦
              let cut : slice text start end ≡ some (between start end text) =
                slice-between text start end (ground arith)
                  (boundary_inside text end (ground arith)) (ground arith) (ground arith) in
              (
                scored libraries r regex start end
                    (validate libraries r.validator (between start end text)),
                rw (e, cut) refl,
                kept-Fits text regex start end _ rs u (ground arith)
                    (boundary_inside text end (ground arith)) (ground arith) (ground arith) hs,
              )
        ]

  of_matches-total :
      (regex : Pattern) (text : Bytes) (ms : List (Option (ℕ × ℕ)))
      → InUnit regex.score
      → (rs : List RecognizerResult) × (of_matches libraries r regex text ms ≡ some rs)
        × All (Sound text) rs
  unfolding of_matches
  of_matches-total regex text [] u = ([], refl, tt)
  of_matches-total regex text (none ∷ ms) u = of_matches-total regex text ms u
  of_matches-total regex text (some (start, end) ∷ ms) u =
      let (rs, e, hs) = of_matches-total regex text ms u in
      let (found, f, fs) = build_result-total text regex start end rs u hs in
      (kept libraries r found rs, rw (f, e) refl, fs)

  of_regexes-total :
      (text : Bytes) (ps : List Pattern)
      → All (λ p. InUnit p.score) ps
      → (rs : List RecognizerResult) × (of_regexes libraries r text ps ≡ some rs)
        × All (Sound text) rs
  unfolding of_regexes
  of_regexes-total text [] _ = ([], refl, tt)
  of_regexes-total text (p ∷ ps) (u, us) =
      let (here, e, hs) = of_matches-total p text (p.find_iter text) u in
      let (rest, f, fs) = of_regexes-total text ps us in
      (here ++ rest, rw (e, f) refl, All-append (Sound text) here rest hs fs)

  -- Where the patterns' scores are in range, `Recognizer::analyze` returns whatever matches the
  -- expressions answer, and each result is a range of the text that is not empty and cuts no
  -- character, with a score in range.
  pub analyze-total :
      (text : Bytes)
      → All (λ p. InUnit p.score) r.regexes
      → (rs : List RecognizerResult) × (analyze libraries r text ≡ some rs) × All (Sound text) rs
  unfolding analyze
  analyze-total text us = of_regexes-total text r.regexes us
