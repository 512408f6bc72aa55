-- ===== src/Pii/Anonymizer/Rewrites.antt =====
-- crates/pii/src/anonymizer.rs on results that are ranges of the text.
use dbmcp.Prelude.{
  ℕ, ◌-◌, ◌≤◌, ◌<◌, ◌≡◌, ◌∙◌, refl, sym, ap, Bytes, List, [], ◌∷◌, ◌++◌, append_assoc, append-nil,
  map-append, true, false, some, length, take_all, All, arith, slice, between, slice-between,
  is_char_boundary, is_char_boundary_start, is_char_boundary_end, map,
}
use dbmcp.Prelude.Opt.{◌>>=◌}
use dbmcp.Pii.Entity.{Entity}
use dbmcp.Pii.Operators.{Digests, OperatorKind, kind, apply}
use dbmcp.Pii.Result.{RecognizerResult}
use dbmcp.Pii.Overlap.{overlaps, resolve}
use dbmcp.Pii.Overlap.Disjoint.{Disjoint, resolve-Disjoint, resolve-All}
use dbmcp.Pii.Overlap.Order.{InOrder, Sorted, resolve-Sorted}
use dbmcp.Pii.Anonymizer.{
  OperatorConfig, OperatorResult, AnonymizedText, Progress, select, skips, rewrite, step, loop,
  finish, start_of, anonymize_spans, anonymize,
}

-- A range that is not empty, lies in the text and cuts no character.
abbrev pub Fits : Bytes → RecognizerResult → Type 0
Fits text r =
    (r.start < r.end)
    × (r.end ≤ length text)
    × (is_char_boundary text r.start ≡ true)
    × (is_char_boundary text r.end ≡ true)

-- Each range starts at the end of the one before it, or later.
abbrev Ordered : ℕ → List RecognizerResult → Type 0
Ordered cursor [] = Unit
Ordered cursor (r ∷ rs) = (cursor ≤ r.start) × Ordered r.end rs

-- Where an operation applied, and which.
abbrev pub origin : OperatorResult → Entity × OperatorKind × ℕ × ℕ
origin op = (op.entity_type, op.operator, op.original_start, op.original_end)

module _ (digests : Digests) (text : Bytes) (config : OperatorConfig) where
  -- The text from the cursor on, each range in place rewritten by its entity's operator.
  abbrev pub rewritten : ℕ → List RecognizerResult → Bytes
  rewritten cursor [] = between cursor (length text) text
  rewritten cursor (r ∷ rs) =
      between cursor r.start text
      ++ apply digests (select config r.entity_type) (between r.start r.end text)
      ++ rewritten r.end rs

  abbrev pub applied : RecognizerResult → Entity × OperatorKind × ℕ × ℕ
  applied r = (r.entity_type, kind (select config r.entity_type), r.start, r.end)

  step-Fits :
      (p : Progress) (r : RecognizerResult)
      → Fits text r
      → p.cursor ≤ r.start
      → is_char_boundary text p.cursor ≡ true
      → step digests text config p r
        ≡ some (
            rewrite digests text config p r
              (between p.cursor r.start text)
              (between r.start r.end text))
  unfolding step skips
  step-Fits p r (h, k, bs, be) c b =
      let gap : slice text p.cursor r.start ≡ some (between p.cursor r.start text) =
        slice-between text p.cursor r.start c (omega arith) b bs in
      let span : slice text r.start r.end ≡ some (between r.start r.end text) =
        slice-between text r.start r.end (omega arith) k bs be in
      let go : skips digests text config p.cursor r ≡ false = ground (arith, bs, be) in
      rw (go, gap, span) refl

  -- The loop, from its state, then the text behind it.
  loop-rewritten :
      (rs : List RecognizerResult) (p : Progress)
      → All (Fits text) rs
      → Ordered p.cursor rs
      → p.cursor ≤ length text
      → is_char_boundary text p.cursor ≡ true
      → (out : AnonymizedText) × ((loop digests text config p rs >>= finish digests text config)
          ≡ some out)
        × (out.text ≡ p.new_text ++ rewritten p.cursor rs)
        × (map origin out.operations ≡ map origin p.operations ++ map applied rs)
  unfolding loop finish rewrite
  loop-rewritten [] p _ _ inside b = (
    record { text = p.new_text ++ between p.cursor (length text) text; operations = p.operations },
    rw (
        slice-between text p.cursor (length text) inside (omega arith) b
          (is_char_boundary_end text)),
    refl,
    sym (append-nil _),
  )
  loop-rewritten (r ∷ rs) p ((h, k, bs, be), hs) (c, cs) inside b =
      let p' : Progress =
        rewrite digests text config p r (between p.cursor r.start text)
          (between r.start r.end text) in
      let (out, e, t, o) = loop-rewritten rs p' hs cs k be in
      (
        out,
        rw (step-Fits p r (h, k, bs, be) c b) e,
        t
            ∙ ap (λ l. l ++ rewritten r.end rs) (append_assoc p.new_text _ _)
            ∙ append_assoc p.new_text _ _,
        o ∙ rw (map-append, append_assoc) refl,
      )

  from_start :
      (rs : List RecognizerResult)
      → All (Fits text) rs
      → Ordered 0 rs
      → (out : AnonymizedText) × (anonymize_spans digests text config rs ≡ some out)
        × (out.text ≡ rewritten 0 rs)
        × (map origin out.operations ≡ map applied rs)
  unfolding anonymize_spans
  from_start [] _ _ = (
    record { text = text; operations = [] },
    refl,
    sym (take_all (length text - 0) text (omega arith)),
    refl,
  )
  from_start (r ∷ rs) h o =
      loop-rewritten (r ∷ rs) start_of h o (omega arith) (is_char_boundary_start text)

-- The survivors are ordered: they are sorted, and no two overlap.
behind :
    (text : Bytes) (x : RecognizerResult) (ys : List RecognizerResult)
    → Fits text x
    → All (Fits text) ys
    → All (InOrder x) ys
    → All (λ y. overlaps x y ≡ false) ys
    → Sorted ys
    → Disjoint ys
    → Ordered x.end ys
unfolding overlaps
behind text x [] _ _ _ _ _ _ = tt
behind text x (y ∷ ys) (h, _, _, _) (hy, hys) (i, _) (o, _) (sy, s) (dy, d) =
    (ground arith, behind text y ys hy hys sy dy s d)

fitting-Ordered :
    (text : Bytes) (rs : List RecognizerResult)
    → All (Fits text) rs
    → Sorted rs
    → Disjoint rs
    → Ordered 0 rs
fitting-Ordered text [] _ _ _ = tt
fitting-Ordered text (r ∷ rs) (h, hs) (sr, s) (dr, d) =
    (omega arith, behind text r rs h hs sr dr s d)

-- Where every result is a range of the text that is not empty and cuts no character, each survivor
-- of the overlap resolution is applied: the new text is the old one with every survivor's range
-- rewritten by its entity's operator, and the operations are the survivors', in order.
pub anonymize-rewrites :
    (digests : Digests) (text : Bytes) (config : OperatorConfig) (results : List RecognizerResult)
    → All (Fits text) results
    → (out : AnonymizedText) × (anonymize digests text config results ≡ some out)
      × (out.text ≡ rewritten digests text config 0 (resolve results))
      × (map origin out.operations ≡ map (applied digests text config) (resolve results))
unfolding anonymize
anonymize-rewrites digests text config results h =
    from_start digests text config (resolve results) (resolve-All (Fits text) results h) (
      fitting-Ordered text (resolve results) (resolve-All (Fits text) results h)
        (resolve-Sorted results) (resolve-Disjoint results))
