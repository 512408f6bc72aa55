-- ===== src/Pii/Context/Nearby.antt =====
-- crates/pii/src/context.rs `collect_window`: the words near a range.
use Prim.Native.Nat.{min}
use dbmcp.Prelude.{
  ℕ, zero, suc, ◌+◌, ◌-◌, ◌≤◌, ◌≡◌, refl, sym, ap, Bytes, List, [], ◌∷◌, ◌++◌, true, Bool-cases,
  inl, inr, some, ◌==◌, ==→eq, length, take, drop, append-nil, arith, between, slice, slice-between,
  is_char_boundary, is_char_boundary_start, is_char_boundary_end,
}
use dbmcp.Pii.Result.{RecognizerResult}
use dbmcp.Pii.Anonymizer.Rewrites.{Fits}
use dbmcp.Pii.Words.{Unicode, words, first_word}
use dbmcp.Pii.Words.First.{first, first_word-words}
use dbmcp.Pii.Context.{
  ContextSettings, left_from, right_from, safe_left_boundary, safe_right_boundary, pushed,
  add_suffix, collect_window,
}

left_from_lem : (text : Bytes) (s : ℕ) → is_char_boundary text s ≡ true → left_from text s ≡ s
unfolding left_from
left_from_lem text zero h = refl
left_from_lem text (suc s) h = ground arith

right_from_lem :
    (text : Bytes) (fuel e : ℕ) → is_char_boundary text e ≡ true → right_from text fuel e ≡ e
unfolding right_from
right_from_lem text zero e h = refl
right_from_lem text (suc fuel) e h = ground arith

safe_left-start :
    (text : Bytes) (r : RecognizerResult) → Fits text r → safe_left_boundary text r.start ≡ r.start
unfolding safe_left_boundary
safe_left-start text r (h, k, bs, be) =
    let inside : min r.start (length text) ≡ r.start = omega arith in
    rw inside (left_from_lem text r.start bs)

safe_right-end :
    (text : Bytes) (r : RecognizerResult) → Fits text r → safe_right_boundary text r.end ≡ r.end
unfolding safe_right_boundary
safe_right-end text r (h, k, bs, be) =
    let inside : min r.end (length text) ≡ r.end = omega arith in
    rw inside (right_from_lem text (length text - r.end) r.end be)

pushed-take : (ws : List Bytes) → pushed (first ws) ≡ take 1 ws
unfolding pushed
pushed-take [] = refl
pushed-take (w ∷ ws) = refl

pushed-first :
    (unicode : Unicode) (text : Bytes)
    → pushed (first_word unicode text) ≡ take 1 (words unicode text)
pushed-first unicode text = rw (first_word-words unicode text).0 (pushed-take (words unicode text))

module _ (unicode : Unicode) (add : ℕ → ℕ → ℕ) where
  -- The last words in front of a range, one more than the prefix, then its own first word, then as
  -- many of the words behind it as the suffix says.
  abbrev pub nearby : Bytes → RecognizerResult → ContextSettings → List Bytes
  nearby text r settings =
      let before = words unicode (between 0 r.start text) in
      let behind = words unicode (between r.end (length text) text) in
      (drop (length before - (settings.prefix_words + 1)) before
        ++ take 1 (words unicode (between r.start r.end text)))
      ++ take settings.suffix_words behind

  add_suffix-take :
      (text : Bytes) (end suffix : ℕ) (out : List Bytes)
      → end ≤ length text
      → is_char_boundary text end ≡ true
      → add_suffix unicode add text end suffix out
        ≡ some (out ++ take suffix (words unicode (between end (length text) text)))
  unfolding add_suffix
  add_suffix-take text end suffix out h b =
      let behind : slice text end (length text) ≡ some (between end (length text) text) =
        slice-between text end (length text) h (omega arith) b (is_char_boundary_end text) in
      elim (Bool-cases (suffix == 0)) [
        | inl e ↦
            let none_behind : suffix ≡ 0 = ==→eq suffix 0 e in
            rw none_behind (ap some (sym (append-nil out)))
        | inr e ↦ rw (e, behind) refl
      ]

  pub collect_window-nearby :
      (text : Bytes) (r : RecognizerResult) (settings : ContextSettings)
      → Fits text r
      → collect_window unicode add text r.start r.end settings.prefix_words settings.suffix_words
        ≡ some (nearby text r settings)
  unfolding collect_window
  collect_window-nearby text r settings (h, k, bs, be) =
      let before : slice text 0 r.start ≡ some (between 0 r.start text) =
        slice-between text 0 r.start (omega arith) (omega arith) (is_char_boundary_start text) bs in
      let own : slice text r.start r.end ≡ some (between r.start r.end text) =
        slice-between text r.start r.end (omega arith) k bs be in
      rw
        (
          safe_left-start text r (h, k, bs, be),
          safe_right-end text r (h, k, bs, be),
          before,
          own,
          pushed-first unicode (between r.start r.end text),
        )
        (add_suffix-take text r.end settings.suffix_words
          (drop (length (words unicode (between 0 r.start text)) - (settings.prefix_words + 1))
              (words unicode (between 0 r.start text))
            ++ take 1 (words unicode (between r.start r.end text)))
          k be)
