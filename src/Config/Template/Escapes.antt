-- ===== src/Config/Template/Escapes.antt =====
-- crates/config/src/template.rs: what its spellings mean.
use dbmcp.Prelude.{
  ℕ, zero, suc, ◌+◌, ◌<◌, ◌≡◌, ◌∙◌, refl, sym, ap, Bytes, codes, List, [], ◌∷◌, ◌++◌, length,
  Option, none, some, Result, ok, err, inl, inr, Bool, true, false, Bool-cases, ==→eq, ◌==◌, All,
  arith, if◌then◌else◌,
}
use dbmcp.Config.Template.{
  TemplateError, Lookup, Sub, return, continue, is_name_start, is_name_char, split_name, plain,
  after_name, braced, before, dollar, pass, substitute,
}

-- Each `$` twice.
unfoldable pub escape : Bytes → Bytes
escape [] = []
escape (c ∷ cs) = let rest = escape cs in if c == 36 then 36 ∷ 36 ∷ rest else c ∷ rest

-- A text whose every `$` is written twice is substituted back to the text, whatever the variables
-- are, and no variable is recorded as unset.
pub substitute-escape :
    (lookup : Lookup) (fuel : ℕ) (text : Bytes) (unset : List Bytes)
    → length (escape text) < fuel
    → substitute lookup fuel (escape text) unset ≡ some (ok text, unset)
unfolding substitute escape pass dollar before
substitute-escape lookup zero text unset h = absurd (omega arith)
substitute-escape lookup (suc fuel) [] unset h = refl
substitute-escape lookup (suc fuel) (c ∷ cs) unset h = elim (Bool-cases (c == 36)) [
  | inl e ↦
      let h' : suc (suc (length (escape cs))) < suc fuel = rw e at h in
      let ih = substitute-escape lookup fuel cs unset (omega arith) in
      rw (e, ih) (ap (λ d. some (ok (d ∷ cs), unset)) (sym (==→eq c 36 e)))
  | inr e ↦
      let h' : suc (length (escape cs)) < suc fuel = rw e at h in
      let ih = substitute-escape lookup fuel cs unset (omega arith) in rw (e, e, ih) refl
]

-- A rest that a name does not run on into.
unfoldable pub Apart : Bytes → Type 0
Apart [] = Unit
Apart (c ∷ cs) = is_name_char c ≡ false

split_name-append :
    (name rest : Bytes)
    → All (λ c. is_name_char c ≡ true) name
    → Apart rest
    → split_name (name ++ rest) ≡ (name, rest)
unfolding split_name Apart
split_name-append [] [] _ _ = refl
split_name-append [] (c ∷ cs) _ k = rw k refl
split_name-append (c ∷ cs) rest (h, hs) k = rw (h, split_name-append cs rest hs k) refl

brace-Apart : (rest : Bytes) → Apart (125 ∷ rest)
unfolding Apart is_name_char dbmcp.Prelude.is_ascii_alphanumeric dbmcp.Prelude.is_ascii_digit
    dbmcp.Prelude.is_ascii_lowercase dbmcp.Prelude.is_ascii_uppercase
brace-Apart rest = refl

module _ (lookup : Lookup) (sub : Bytes → Sub Bytes) where
  -- What stands for a variable, and then the rest.
  valued : Bytes → Bytes → Sub Bytes
  unfolding before
  valued name rest unset =
      continue (λ value. before lookup sub value rest) (plain lookup sub name unset)

  paired :
      (rest : Bytes) (m : Option (Result Bytes TemplateError × List Bytes))
      → continue
          (λ (value, left). before lookup sub value left)
          (continue (λ value. return (value, rest)) m)
        ≡ continue (λ value. before lookup sub value rest) m
  paired rest none = refl
  paired rest (some (err e, unset)) = refl
  paired rest (some (ok value, unset)) = refl

  start_is_char : (c : ℕ) → is_name_start c ≡ true → (is_name_char c ≡ true) × ((c == 36) ≡ false)
  unfolding is_name_start is_name_char dbmcp.Prelude.is_ascii_alphanumeric
      dbmcp.Prelude.is_ascii_digit
  start_is_char c h = (ground arith, ground arith)

  dollar-plain :
      (c : ℕ) (cs rest : Bytes) (unset : List Bytes)
      → is_name_start c ≡ true
      → All (λ d. is_name_char d ≡ true) cs
      → Apart rest
      → dollar lookup sub (c ∷ cs ++ rest) unset ≡ valued (c ∷ cs) rest unset
  unfolding dollar valued
  dollar-plain c cs rest unset h hs k =
      let (ch, ne) = start_is_char c h in
      rw (ne, h, split_name-append (c ∷ cs) rest (ch, hs) k) refl

  dollar-braced :
      (c : ℕ) (cs rest : Bytes) (unset : List Bytes)
      → is_name_start c ≡ true
      → All (λ d. is_name_char d ≡ true) cs
      → dollar lookup sub (123 ∷ c ∷ cs ++ 125 ∷ rest) unset ≡ valued (c ∷ cs) rest unset
  unfolding dollar braced after_name valued is_name_start dbmcp.Prelude.is_ascii_lowercase
      dbmcp.Prelude.is_ascii_uppercase
  dollar-braced c cs rest unset h hs =
      let (ch, ne) = start_is_char c h in
      rw (h, split_name-append (c ∷ cs) (125 ∷ rest) (ch, hs) (brace-Apart rest))
        (paired rest (plain lookup sub (c ∷ cs) unset))

-- `$NAME` and `${NAME}` are substituted alike, in front of any rest that the name does not run on
-- into, with the same fuel.
pub substitute-braces :
    (lookup : Lookup) (fuel : ℕ) (c : ℕ) (cs rest : Bytes) (unset : List Bytes)
    → is_name_start c ≡ true
    → All (λ d. is_name_char d ≡ true) cs
    → Apart rest
    → substitute lookup fuel (codes "${" ++ (c ∷ cs ++ 125 ∷ rest)) unset
      ≡ substitute lookup fuel (codes "$" ++ (c ∷ cs ++ rest)) unset
unfolding substitute pass
substitute-braces lookup zero c cs rest unset h hs k = refl
substitute-braces lookup (suc fuel) c cs rest unset h hs k =
    dollar-braced lookup (substitute lookup fuel) c cs rest unset h hs
    ∙ sym (dollar-plain lookup (substitute lookup fuel) c cs rest unset h hs k)
