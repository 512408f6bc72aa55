-- ===== src/Sql/Pagination/Semicolon.antt =====
-- crates/sql/src/pagination.rs: statements with a semicolon or white space behind them.
use mathlib.Core.List.{reverse-cons, reverse-reverse}
use dbmcp.Prelude.{
  ℕ, ◌≡◌, ◌∙◌, refl, sym, ap, Bytes, codes, [], ◌∷◌, ◌++◌, reverse, reverse-append, append_assoc,
  append-nil, true, false, Bool-cases, inl, inr, none, some, All, All-append, trim_end, trim_start,
  trim_start_matches, is_whitespace,
}
use dbmcp.Sql.Pagination.{strip_last, strip_suffix, unwrap_or, inner_of, with_limit_offset}

abbrev Blank : Bytes → Type 0
Blank s = All (λ c. is_whitespace c ≡ true) s

Blank-reverse : (s : Bytes) → Blank s → Blank (reverse s)
Blank-reverse [] _ = tt
Blank-reverse (c ∷ s) (h, hs) =
    rw (reverse-cons c s)
      (All-append (λ c. is_whitespace c ≡ true) (reverse s) (c ∷ []) (Blank-reverse s hs) (h, tt))

trim_start-Blank : (s t : Bytes) → Blank s → trim_start (s ++ t) ≡ trim_start t
unfolding trim_start trim_start_matches
trim_start-Blank [] t _ = refl
trim_start-Blank (c ∷ s) t (h, hs) = rw h (trim_start-Blank s t hs)

trim_start_solid : (c : ℕ) (s : Bytes) → is_whitespace c ≡ false → trim_start (c ∷ s) ≡ c ∷ s
unfolding trim_start trim_start_matches
trim_start_solid c s e = rw e refl

trim_start-trim_start : (s : Bytes) → trim_start (trim_start s) ≡ trim_start s
unfolding trim_start trim_start_matches
trim_start-trim_start [] = refl
trim_start-trim_start (c ∷ s) = elim (Bool-cases (is_whitespace c)) [
  | inl e ↦ rw e (trim_start-trim_start s)
  | inr e ↦ rw e (trim_start_solid c s e)
]

trim_end-Blank : (s t : Bytes) → Blank t → trim_end (s ++ t) ≡ trim_end s
unfolding trim_end
trim_end-Blank s t h =
    ap (λ l. reverse (trim_start l)) (reverse-append s t)
    ∙ ap reverse (trim_start-Blank (reverse t) (reverse s) (Blank-reverse t h))

trim_end-trim_end : (s : Bytes) → trim_end (trim_end s) ≡ trim_end s
unfolding trim_end
trim_end-trim_end s =
    ap (λ l. reverse (trim_start l)) (reverse-reverse (trim_start (reverse s)))
    ∙ ap reverse (trim_start-trim_start (reverse s))

semicolon_solid : is_whitespace b';' ≡ false
unfolding is_whitespace
semicolon_solid = refl

trim_end_semicolon : (s : Bytes) → trim_end (s ++ b';' ∷ []) ≡ s ++ b';' ∷ []
unfolding trim_end
trim_end_semicolon s =
    ap (λ l. reverse (trim_start l)) (reverse-append s (b';' ∷ []))
    ∙ ap reverse (trim_start_solid b';' (reverse s) semicolon_solid)
    ∙ reverse-cons b';' (reverse s)
    ∙ ap (λ l. l ++ b';' ∷ []) (reverse-reverse s)

strip_suffix_semicolon : (s : Bytes) → strip_suffix b';' (s ++ b';' ∷ []) ≡ some s
unfolding strip_suffix strip_last
strip_suffix_semicolon s =
    ap (strip_last b';') (reverse-append s (b';' ∷ [])) ∙ ap some (reverse-reverse s)

inner_of_semicolon :
    (sql blank : Bytes) → Blank blank → inner_of (sql ++ b';' ∷ blank) ≡ trim_end sql
unfolding inner_of unwrap_or
inner_of_semicolon sql blank h =
    let trimmed : trim_end (sql ++ b';' ∷ blank) ≡ sql ++ b';' ∷ [] =
      ap trim_end (sym (append_assoc sql (b';' ∷ []) blank))
      ∙ trim_end-Blank (sql ++ b';' ∷ []) blank h
      ∙ trim_end_semicolon sql in
    rw (trimmed, strip_suffix_semicolon sql) refl

inner_of_plain :
    (sql blank : Bytes)
    → Blank blank
    → strip_suffix b';' (trim_end sql) ≡ none
    → inner_of (sql ++ blank) ≡ trim_end sql
unfolding inner_of unwrap_or
inner_of_plain sql blank h e = rw (trim_end-Blank sql blank h, e) (trim_end-trim_end sql)

-- White space behind a statement that does not end with a semicolon, and one semicolon with white
-- space behind it, change nothing in the page that is asked for.
pub with_limit_offset_semicolon :
    {I64 : Type 0} (to_string : I64 → Bytes) (sql blank : Bytes) (limit offset : I64)
    → All (λ c. is_whitespace c ≡ true) blank
    → strip_suffix b';' (trim_end sql) ≡ none
    → (with_limit_offset to_string (sql ++ b';' ∷ blank) limit offset
        ≡ with_limit_offset to_string sql limit offset)
      × (with_limit_offset to_string (sql ++ blank) limit offset
          ≡ with_limit_offset to_string sql limit offset)
unfolding with_limit_offset
with_limit_offset_semicolon to_string sql blank limit offset h e =
    let plain : inner_of sql ≡ trim_end sql =
      ap inner_of (sym (append-nil sql)) ∙ inner_of_plain sql [] tt e in
    let wrap : Bytes → Bytes = λ inner.
      codes "SELECT * FROM ("
      ++ inner
      ++ codes "\n) AS paginated LIMIT "
      ++ to_string limit
      ++ codes " OFFSET "
      ++ to_string offset in
    (
      ap wrap (inner_of_semicolon sql blank h ∙ sym plain),
      ap wrap (inner_of_plain sql blank h e ∙ sym plain),
    )
