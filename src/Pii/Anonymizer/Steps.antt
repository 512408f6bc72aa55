-- ===== src/Pii/Anonymizer/Steps.antt =====
-- crates/pii/src/anonymizer.rs: one step of the loop.
use dbmcp.Prelude.{
  ℕ, ◌≤◌, ◌≡◌, Bytes, true, some, Bool-cases, ◌⊎◌, inl, inr, length, arith, slice, between,
  slice-between, is_char_boundary,
}
use dbmcp.Pii.Operators.{Digests}
use dbmcp.Pii.Result.{RecognizerResult}
use dbmcp.Pii.Anonymizer.{OperatorConfig, Progress, skips, rewrite, step}

-- The cursor is a place where the text can be cut.
abbrev pub CanCut : Bytes → ℕ → Type 0
CanCut text cursor = (cursor ≤ length text) × (is_char_boundary text cursor ≡ true)

module _ (digests : Digests) (text : Bytes) (config : OperatorConfig) where
  -- A step passes the result over, or rewrites it.
  pub step-cases :
      (p : Progress) (r : RecognizerResult)
      → CanCut text p.cursor
      → (step digests text config p r ≡ some p)
        ⊎ ((step digests text config p r
              ≡ some (
                  rewrite digests text config p r
                    (between p.cursor r.start text)
                    (between r.start r.end text)))
            × CanCut text r.end)
  unfolding step skips
  step-cases p r (inside, whole) = elim (Bool-cases (skips digests text config p.cursor r)) [
    | inl skip ↦ inl (rw skip)
    | inr go ↦
        let gap : slice text p.cursor r.start ≡ some (between p.cursor r.start text) =
          slice-between text p.cursor r.start (ground arith) (ground arith) whole (ground arith) in
        let span : slice text r.start r.end ≡ some (between r.start r.end text) =
          slice-between text r.start r.end (ground arith) (ground arith) (ground arith)
            (ground arith) in
        inr (rw (go, gap, span), (ground arith, ground arith))
  ]
