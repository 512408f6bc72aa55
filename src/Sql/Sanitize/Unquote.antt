-- ===== src/Sql/Sanitize/Unquote.antt =====
-- crates/sql/src/sanitize.rs: a quoted identifier, read as SQL reads it.
use dbmcp.Prelude.{
  ℕ, Bytes, [], ◌∷◌, ◌++◌, append_assoc, ◌≡◌, ◌≢◌, Bool, true, false, Option, none, some, ◌==◌,
  if◌then◌else◌, Bool-cases, inl, inr, ==_refl, ne→==, append-nil, sym, ◌∙◌,
}
use dbmcp.Sql.Sanitize.{push_chars, quote_ident}

-- How SQL reads the rest of a quoted identifier: a doubled quote is a quote, a single one ends it.
-- `pending` says that the character before was a quote. The result is the identifier and the text
-- behind it.
scan_ident : ℕ → Bool → Bytes → Bytes → Option (Bytes × Bytes)
scan_ident quote true [] name = some (name, [])
scan_ident quote false [] name = none
scan_ident quote true (c ∷ s) name =
    let inside = scan_ident quote false s (name ++ c ∷ []) in
    if c == quote then inside else some (name, c ∷ s)
scan_ident quote false (c ∷ s) name =
    let seen = scan_ident quote true s name in
    let inside = scan_ident quote false s (name ++ c ∷ []) in if c == quote then seen else inside

pub read_ident : ℕ → Bytes → Option (Bytes × Bytes)
unfolding scan_ident
read_ident quote [] = none
read_ident quote (c ∷ s) = if c == quote then scan_ident quote false s [] else none

-- The text behind an identifier does not go on with the quote.
abbrev pub Ends : ℕ → Bytes → Type 0
Ends quote [] = Unit
Ends quote (c ∷ s) = c ≢ quote

-- The characters of `value` between the quotes.
body : ℕ → Bytes → Bytes
body quote [] = []
body quote (ch ∷ value) =
    if ch == quote then quote ∷ ch ∷ body quote value else ch ∷ body quote value

push_chars-body :
    (quote : ℕ) (value out : Bytes) → push_chars quote value out ≡ out ++ body quote value
unfolding push_chars body
push_chars-body quote [] out = sym (append-nil out)
push_chars-body quote (ch ∷ value) out = elim (Bool-cases (ch == quote)) [
  | inl e ↦ rw e (simp (push_chars-body quote value, append_assoc))
  | inr e ↦ rw e (simp (push_chars-body quote value, append_assoc))
]

scan_ident-body :
    (quote : ℕ) (value rest name : Bytes)
    → Ends quote rest
    → scan_ident quote false (body quote value ++ quote ∷ rest) name ≡ some (name ++ value, rest)
unfolding scan_ident body
scan_ident-body quote [] [] name ends = rw (==_refl, append-nil)
scan_ident-body quote [] (c ∷ rest) name ends = rw (==_refl, ne→== c quote ends, append-nil)
scan_ident-body quote (ch ∷ value) rest name ends = elim (Bool-cases (ch == quote)) [
  | inl e ↦
      rw (e, ==_refl, e) (scan_ident-body quote value rest (name ++ ch ∷ []) ends ∙ rw append_assoc)
  | inr e ↦ rw (e, e) (scan_ident-body quote value rest (name ++ ch ∷ []) ends ∙ rw append_assoc)
]

-- Read as SQL, a quoted value is one identifier, the value itself, and the text behind the quotes
-- is left as it was, for every value, every quote and every following text that does not begin
-- with the quote.
pub read_ident-quote_ident :
    (quote : ℕ) (value rest : Bytes)
    → Ends quote rest
    → read_ident quote (quote_ident value quote ++ rest) ≡ some (value, rest)
unfolding read_ident quote_ident
read_ident-quote_ident quote value rest ends =
    rw (push_chars-body, append_assoc, ==_refl) (scan_ident-body quote value rest [] ends)
