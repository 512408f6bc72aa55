-- ===== src/Sql/Functions/Names.antt =====
-- crates/sql/src/validation.rs: the check of a function name against the two lists.
use dbmcp.Prelude.{
  ◌≡◌, ◌≢◌, ◌⊎◌, ◌↔◌, ◌∙◌, inl, inr, refl, sym, ap, subst, ◌==◌, Bytes, List, [], ◌∷◌, ◌++◌, map,
  Bool, false, ◌||◌, Option, none, some, any, All, Bool-cases, arith, ==→eq, ==_refl, bytes_eq,
  bytes_eq→eq, bytes_eq_refl, strip_prefix, to_ascii_lowercase, if◌then◌else◌,
}
use dbmcp.Sql.Error.{SqlError}
use dbmcp.Sql.Functions.{
  NamePart, identifier, printed, load_file, dangerous_functions, dangerous_function_prefixes, last,
  starts_with, listed, prefixed, verdict, lowered, text_of, dangerous_function,
}

last-append :
    (qualifiers : List NamePart) (part : NamePart) → last (qualifiers ++ part ∷ []) ≡ some part
unfolding last
last-append [] part = refl
last-append (q ∷ []) part = refl
last-append (q ∷ r ∷ qs) part = last-append (r ∷ qs) part

module _ (f : Bytes → Bool) where
  any-none : (l : List Bytes) → any f l ≡ false → All (λ x. f x ≡ false) l
  any-none [] _ = tt
  any-none (x ∷ l) h = (ground arith, any-none l (ground arith))

  none-any : (l : List Bytes) → All (λ x. f x ≡ false) l → any f l ≡ false
  none-any [] _ = refl
  none-any (x ∷ l) (h, hs) = rw h (none-any l hs)

module _ {P Q : Bytes → Type 0} where
  All-map : (l : List Bytes) → ((x : Bytes) → P x → Q x) → All P l → All Q l
  All-map [] f _ = tt
  All-map (x ∷ l) f (h, hs) = (f x h, All-map l f hs)

bytes_eq-false : (s t : Bytes) → bytes_eq s t ≡ false → t ≢ s
bytes_eq-false s t h e =
    let same : bytes_eq s s ≡ false = subst (λ u. bytes_eq s u ≡ false) e h in
    ground (arith, bytes_eq_refl s)

false-bytes_eq : (s t : Bytes) → t ≢ s → bytes_eq s t ≡ false
false-bytes_eq s t n = elim (Bool-cases (bytes_eq s t)) [
  | inl e ↦ absurd (n (sym (bytes_eq→eq s t e)))
  | inr e ↦ e
]

strip_prefix-append : (p rest : Bytes) → strip_prefix p (p ++ rest) ≡ some rest
unfolding strip_prefix
strip_prefix-append [] rest = refl
strip_prefix-append (c ∷ p) rest = rw (==_refl c) (strip_prefix-append p rest)

strip_prefix-some : (p s rest : Bytes) → strip_prefix p s ≡ some rest → s ≡ p ++ rest
unfolding strip_prefix
strip_prefix-some [] s rest h = ground arith
strip_prefix-some (c ∷ p) [] rest h = absurd (ground arith)
strip_prefix-some (c ∷ p) (d ∷ s) rest h = elim (Bool-cases (c == d)) [
  | inl e ↦
      ap (λ x. x ∷ s) (sym (==→eq c d e))
      ∙ ap (λ l. c ∷ l) (strip_prefix-some p s rest (ground arith))
  | inr e ↦ absurd (ground arith)
]

Option-cases : (o : Option Bytes) → (o ≡ none) ⊎ ((b : Bytes) × (o ≡ some b))
Option-cases none = inl refl
Option-cases (some b) = inr (b, refl)

starts_with-false : (s p : Bytes) → starts_with s p ≡ false → (rest : Bytes) → s ≢ p ++ rest
unfolding starts_with
starts_with-false s p h rest e =
    let same : starts_with (p ++ rest) p ≡ false = subst (λ u. starts_with u p ≡ false) e h in
    ground (arith, strip_prefix-append p rest)

false-starts_with : (s p : Bytes) → ((rest : Bytes) → s ≢ p ++ rest) → starts_with s p ≡ false
unfolding starts_with
false-starts_with s p n = elim (Option-cases (strip_prefix p s)) [
  | inl e ↦ rw (e, starts_with) refl
  | inr (rest, e) ↦ absurd (n rest (strip_prefix-some p s rest e))
]

passed :
    (x y : SqlError) (a b c : Bool)
    → (if a then some x else if b || c then some y else none) ≡ none
    → (b ≡ false) × (c ≡ false)
passed x y a b c h = ground arith

verdict-none :
    (func : Bytes) → verdict func ≡ none → (listed func ≡ false) × (prefixed func ≡ false)
unfolding verdict
verdict-none func h = passed _ _ (bytes_eq func load_file) (listed func) (prefixed func) h

none-verdict :
    (func : Bytes)
    → bytes_eq func load_file ≡ false
    → listed func ≡ false
    → prefixed func ≡ false
    → verdict func ≡ none
unfolding verdict
none-verdict func h k l = ground arith

-- The text, in ASCII lower case, is no listed name and starts with no listed prefix.
abbrev pub Unlisted : Bytes → Type 0
Unlisted text =
    All (λ name. map to_ascii_lowercase text ≢ name) dangerous_functions
    × All (λ prefix. (rest : Bytes) → map to_ascii_lowercase text ≢ prefix ++ rest)
        dangerous_function_prefixes

Unlisted-verdict : (text : Bytes) → verdict (map to_ascii_lowercase text) ≡ none → Unlisted text
unfolding listed prefixed
Unlisted-verdict text h =
    let func : Bytes = map to_ascii_lowercase text in
    let (names, prefixes) = verdict-none func h in
    (
      All-map dangerous_functions (λ name e. bytes_eq-false name func e)
          (any-none (λ name. bytes_eq name func) dangerous_functions names),
      All-map dangerous_function_prefixes (λ prefix e. starts_with-false func prefix e)
          (any-none (λ prefix. starts_with func prefix) dangerous_function_prefixes prefixes),
    )

verdict-Unlisted : (text : Bytes) → Unlisted text → verdict (map to_ascii_lowercase text) ≡ none
unfolding listed prefixed
verdict-Unlisted text (names, prefixes) =
    let func : Bytes = map to_ascii_lowercase text in
    none-verdict func (false-bytes_eq func load_file (λ e. names.0 (sym e)))
      (none-any (λ name. bytes_eq name func) dangerous_functions
        (All-map dangerous_functions (λ name n. false-bytes_eq name func n) names))
      (none-any (λ prefix. starts_with func prefix) dangerous_function_prefixes
        (All-map dangerous_function_prefixes (λ prefix n. false-starts_with func prefix n)
          prefixes))

part-none :
    (qualifiers : List NamePart) (part : NamePart) (text : Bytes)
    → lowered part ≡ map to_ascii_lowercase text
    → (dangerous_function (qualifiers ++ part ∷ []) ≡ none) ↔ Unlisted text
unfolding dangerous_function
part-none qualifiers part text spelled =
    rw (last-append qualifiers part, dangerous_function, spelled)
      (Unlisted-verdict text, verdict-Unlisted text)

-- A name without segments is allowed. A name whose last segment is an identifier, or a segment that is
-- printed, is allowed exactly when the identifier, or the printed text, in ASCII lower case, is no
-- listed name and starts with no listed prefix, whatever the segments in front of it are.
pub dangerous_function-none :
    (qualifiers : List NamePart) (text : Bytes)
    → (dangerous_function [] ≡ none)
      × ((dangerous_function (qualifiers ++ identifier text ∷ []) ≡ none) ↔ Unlisted text)
      × ((dangerous_function (qualifiers ++ printed text ∷ []) ≡ none) ↔ Unlisted text)
unfolding dangerous_function lowered text_of last
dangerous_function-none qualifiers text = (
  refl,
  part-none qualifiers (identifier text) text refl,
  part-none qualifiers (printed text) text refl,
)
