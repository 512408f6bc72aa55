-- ===== src/Config/Dotenv/Values/Quoted.antt =====
-- crates/config/src/dotenv.rs: a quoted value is read back.
use dbmcp.Prelude.{
  ℕ, suc, ◌≡◌, ◌∙◌, refl, sym, ap, Bytes, List, [], ◌∷◌, ◌++◌, length, append_assoc, append-nil,
  true, false, Bool-cases, inl, inr, ◌||◌, ◌==◌, ==→eq, subst, some, ok, arith, if◌then◌else◌,
}
use dbmcp.Config.Template.{Lookup, substitute}
use dbmcp.Config.Template.Escapes.{escape, substitute-escape}
use dbmcp.Config.Dotenv.Values.{
  kept_by, quoted, escape_of, simple_escape, octal, expand_from, expand_escapes, double,
  extract_value,
}

-- A backslash in front of `"`, `\` and `$`.
unfoldable pub protect : Bytes → Bytes
protect [] = []
protect (c ∷ cs) =
    let rest = protect cs in if c == 34 || c == 92 || c == 36 then 92 ∷ c ∷ rest else c ∷ rest

-- As `protect`, but for the quotes.
inside : Bytes → Bytes
inside [] = []
inside (c ∷ cs) = let rest = inside cs in if c == 92 || c == 36 then 92 ∷ c ∷ rest else c ∷ rest

two_kept : (chars ys xs : Bytes) → ((chars ++ []) ++ ys) ++ xs ≡ chars ++ (ys ++ xs)
two_kept chars ys xs = rw (append-nil chars) (append_assoc chars ys xs)

-- The characters that are escaped, and the others.
data Special : ℕ → Type 0 where
  is_quote : Special 34
  is_backslash : Special 92
  is_dollar : Special 36
  is_other : {c : ℕ} → (c == 34) ≡ false → (c == 92) ≡ false → (c == 36) ≡ false → Special c

special : (c : ℕ) → Special c
special c = elim (Bool-cases (c == 34)) [
  | inl e ↦ subst Special (sym (==→eq c 34 e)) is_quote
  | inr e ↦ elim (Bool-cases (c == 92)) [
    | inl f ↦ subst Special (sym (==→eq c 92 f)) is_backslash
    | inr f ↦ elim (Bool-cases (c == 36)) [
      | inl g ↦ subst Special (sym (==→eq c 36 g)) is_dollar
      | inr g ↦ is_other e f g
    ]
  ]
]

-- Up to the closing quote, the escaped quotes lose their backslash and the other escapes stay.
Kept : Bytes → Bytes → Type 0
Kept value rest =
    (chars : Bytes)
    → quoted 34 false chars (protect value ++ 34 ∷ rest) ≡ ok (chars ++ inside value, rest)

one_more : (c : ℕ) (cs rest : Bytes) → Special c → Kept cs rest → Kept (c ∷ cs) rest
unfolding Kept quoted protect inside kept_by
one_more c cs rest is_quote ih chars =
    ih (chars ++ [] ++ 34 ∷ []) ∙ ap (λ s. ok (s, rest)) (two_kept chars (34 ∷ []) (inside cs))
one_more c cs rest is_backslash ih chars =
    ih (chars ++ [] ++ 92 ∷ 92 ∷ [])
    ∙ ap (λ s. ok (s, rest)) (two_kept chars (92 ∷ 92 ∷ []) (inside cs))
one_more c cs rest is_dollar ih chars =
    ih (chars ++ [] ++ 92 ∷ 36 ∷ [])
    ∙ ap (λ s. ok (s, rest)) (two_kept chars (92 ∷ 36 ∷ []) (inside cs))
one_more c cs rest (is_other e f g) ih chars =
    rw (e, f, g)
      (rw (e, f)
        (ih (chars ++ c ∷ []) ∙ ap (λ s. ok (s, rest)) (append_assoc chars (c ∷ []) (inside cs))))

none_left : (rest : Bytes) → Kept [] rest
unfolding Kept quoted protect inside
none_left rest chars = ap (λ s. ok (s, rest)) (sym (append-nil chars))

quoted-protect : (value rest : Bytes) → Kept value rest
quoted-protect [] rest = none_left rest
quoted-protect (c ∷ cs) rest = one_more c cs rest (special c) (quoted-protect cs rest)

-- Expanding the escapes doubles each `$` and leaves the rest of the value.
expanded :
    (c : ℕ) (cs : Bytes)
    → Special c
    → expand_from 0 (inside cs) ≡ escape cs
    → expand_from 0 (inside (c ∷ cs)) ≡ escape (c ∷ cs)
unfolding expand_from inside escape escape_of simple_escape octal
expanded c cs is_quote ih = ap (λ s. 34 ∷ s) ih
expanded c cs is_backslash ih = ap (λ s. 92 ∷ s) ih
expanded c cs is_dollar ih = ap (λ s. 36 ∷ 36 ∷ s) ih
expanded c cs (is_other e f g) ih = rw (f, g, f) (ap (λ s. c ∷ s) ih)

expand-inside : (value : Bytes) → expand_from 0 (inside value) ≡ escape value
unfolding expand_from inside escape
expand-inside [] = refl
expand-inside (c ∷ cs) = expanded c cs (special c) (expand-inside cs)

-- A value whose quotes, backslashes and `$` are escaped, between double quotes, is extracted as a
-- template that is substituted to the value, whatever the variables are and whatever stands behind
-- the closing quote, which is left alone.
pub extract-protect :
    (lookup : Lookup) (value rest : Bytes)
    → (template : Bytes) × (extract_value (34 ∷ protect value ++ 34 ∷ rest)
        ≡ ok (template, true, rest))
      × ((unset : List Bytes)
          → substitute lookup (suc (length template)) template unset ≡ some (ok value, unset))
unfolding extract_value double expand_escapes Kept
extract-protect lookup value rest = (
  escape value,
  rw (quoted-protect value rest [], expand-inside value) refl,
  λ unset. substitute-escape lookup (suc (length (escape value))) value unset (omega arith),
)
