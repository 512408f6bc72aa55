-- ===== src/Pii/Anonymizer/Audit.antt =====
-- crates/pii/src/anonymizer.rs: the ranges that the operations record.
use native.Mathlib.Nat.{le_refl}
use dbmcp.Prelude.{
  drop-append, take-append, drop-length, All-append, ℕ, ◌-◌, ◌≤◌, ◌≡◌, ◌∙◌, refl, subst, Bytes,
  List, [], ◌∷◌, ◌++◌, some, inl, inr, length, length-append, drop, take_all, length-drop, All,
  arith, between, slice-between, is_char_boundary_start, is_char_boundary_end,
}
use dbmcp.Pii.Operators.{Digests, apply}
use dbmcp.Pii.Result.{RecognizerResult}
use dbmcp.Pii.Overlap.{resolve}
use dbmcp.Pii.Anonymizer.Steps.{CanCut, step-cases}
use dbmcp.Pii.Anonymizer.{
  OperatorConfig, OperatorResult, AnonymizedText, Progress, select, rewrite, step, loop, finish,
  start_of, anonymize_spans, anonymize,
}

between-append :
    (a b : ℕ) (s t : Bytes) → a ≤ b → b ≤ length s → between a b (s ++ t) ≡ between a b s
between-append a b s t h k =
    rw (drop-append a s t (omega arith))
      (take-append (b - a) (drop a s) t (omega (arith, length-drop a s)))

between_last : (s t : Bytes) → between (length s) (length (s ++ t)) (s ++ t) ≡ t
between_last s t =
    rw drop-length (take_all (length (s ++ t) - length s) t (omega (arith, length-append s t)))

module _ (digests : Digests) (text : Bytes) (config : OperatorConfig) where
  -- The new text holds the output of the operator for the original range.
  abbrev pub Reads : Bytes → OperatorResult → Type 0
  Reads new_text op =
      (op.new_start ≤ op.new_end)
      × (op.new_end ≤ length new_text)
      × (between op.new_start op.new_end new_text
          ≡ apply digests (select config op.entity_type)
              (between op.original_start op.original_end text))

  Reads-append :
      (s t : Bytes) (ops : List OperatorResult) → All (Reads s) ops → All (Reads (s ++ t)) ops
  Reads-append s t [] _ = tt
  Reads-append s t (op ∷ ops) ((h, k, e), hs) = (
    (h, omega (arith, length-append s t), between-append op.new_start op.new_end s t h k ∙ e),
    Reads-append s t ops hs,
  )

  rewrite-Reads :
      (p : Progress) (r : RecognizerResult) (gap : Bytes)
      → All (Reads p.new_text) p.operations
      → All
          (Reads (rewrite digests text config p r gap (between r.start r.end text)).new_text)
          (rewrite digests text config p r gap (between r.start r.end text)).operations
  unfolding rewrite
  rewrite-Reads p r gap h =
      let out : Bytes = apply digests (select config r.entity_type) (between r.start r.end text) in
      All-append (Reads ((p.new_text ++ gap) ++ out)) p.operations _
        (Reads-append (p.new_text ++ gap) out p.operations
          (Reads-append p.new_text gap p.operations h))
        (
          (
            omega (arith, length-append (p.new_text ++ gap) out),
            le_refl _,
            between_last (p.new_text ++ gap) out,
          ),
          tt,
        )

  rewrite-cursor :
      (p : Progress) (r : RecognizerResult) (gap span : Bytes)
      → r.end ≡ (rewrite digests text config p r gap span).cursor
  unfolding rewrite
  rewrite-cursor p r gap span = refl

  step-Reads :
      (p : Progress) (r : RecognizerResult)
      → CanCut text p.cursor
      → All (Reads p.new_text) p.operations
      → (p' : Progress) × (step digests text config p r ≡ some p')
        × CanCut text p'.cursor
        × All (Reads p'.new_text) p'.operations
  step-Reads p r cut h = elim (step-cases digests text config p r cut) [
    | inl e ↦ (p, e, cut, h)
    | inr (e, k) ↦ (
      rewrite digests text config p r (between p.cursor r.start text) (between r.start r.end text),
      e,
      subst (λ c. CanCut text c) (rewrite-cursor p r _ _) k,
      rewrite-Reads p r _ h,
    )
  ]

  loop-Reads :
      (rs : List RecognizerResult) (p : Progress)
      → CanCut text p.cursor
      → All (Reads p.new_text) p.operations
      → (p' : Progress) × (loop digests text config p rs ≡ some p')
        × CanCut text p'.cursor
        × All (Reads p'.new_text) p'.operations
  unfolding loop
  loop-Reads [] p cut h = (p, refl, cut, h)
  loop-Reads (r ∷ rs) p cut h =
      let (p', e, cut', h') = step-Reads p r cut h in
      let (p'', e', cut'', h'') = loop-Reads rs p' cut' h' in (p'', rw (e, e'), cut'', h'')

  finish-Reads :
      (p : Progress)
      → CanCut text p.cursor
      → All (Reads p.new_text) p.operations
      → (out : AnonymizedText) × (finish digests text config p ≡ some out)
        × All (Reads out.text) out.operations
  unfolding finish
  finish-Reads p (inside, whole) h = (
    record { text = p.new_text ++ between p.cursor (length text) text; operations = p.operations },
    rw (
        slice-between text p.cursor (length text) inside (omega arith) whole
          (is_char_boundary_end text)),
    Reads-append p.new_text _ p.operations h,
  )

  spans-Reads :
      (rs : List RecognizerResult)
      → (out : AnonymizedText) × (anonymize_spans digests text config rs ≡ some out)
        × All (Reads out.text) out.operations
  unfolding anonymize_spans
  spans-Reads [] = (record { text = text; operations = [] }, refl, tt)
  spans-Reads (r ∷ rs) =
      let (p, e, cut, h) =
        loop-Reads (r ∷ rs) start_of (omega arith, is_char_boundary_start text) tt in
      let (out, e', h') = finish-Reads p cut h in (out, rw e e', h')

  -- Whatever results it is handed, `anonymize` returns, and in what it returns each operation's new
  -- range lies in the new text and holds there the output of the entity's operator for the bytes of
  -- the operation's original range.
  pub anonymize-Reads :
      (results : List RecognizerResult)
      → (out : AnonymizedText) × (anonymize digests text config results ≡ some out)
        × All (Reads out.text) out.operations
  unfolding anonymize
  anonymize-Reads results = spans-Reads (resolve results)
