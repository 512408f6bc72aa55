-- ===== src/Pii/Validators/Digits/Laws.antt =====
-- The digits of a text, and what replacing one of them does to them.
use native.Mathlib.Decide.{ℕ_discrete}
use dbmcp.Prelude.{
  ℕ, ◌≤◌, ◌≡◌, ◌∙◌, ==_refl, ne→==, refl, sym, ap, Bytes, List, [], ◌∷◌, ◌++◌, append_assoc,
  append-nil, Option, none, some, arith, ◌==◌, if◌then◌else◌, length, length-append, as_bytes,
  is_ascii_digit, encode_utf8, Bool-cases, inl, inr,
}
use dbmcp.Pii.Validators.Digits.{digit, collect_from, collect_digits}

-- The digits among the bytes, in order.
unfoldable pub digits_of : Bytes → List ℕ
digits_of [] = []
digits_of (b ∷ s) = let rest = digits_of s in if is_ascii_digit b then digit b ∷ rest else rest

abbrev pub IsDigit : ℕ → Type 0
IsDigit b = (b'0' ≤ b) × (b ≤ b'9')

push_digit :
    (n d : ℕ) (ds out : List ℕ) (rest : Option (List ℕ))
    → length out ≤ n
    → (length (out ++ d ∷ []) ≤ n
        → rest
          ≡ (if length ((out ++ d ∷ []) ++ ds) == n then some ((out ++ d ∷ []) ++ ds) else none))
    → (if length out == n then none else rest)
      ≡ (if length (out ++ d ∷ ds) == n then some (out ++ d ∷ ds) else none)
push_digit n d ds out rest h ih = elim (ℕ_discrete (length out) n) [
  | yes full ↦
      rw (
        full,
        ==_refl,
        ne→== (length (out ++ d ∷ ds)) n (omega (arith, length-append out (d ∷ ds))),
      )
  | no room ↦
      rw (ne→== (length out) n room)
        (ih (omega (arith, length-append out (d ∷ []))) ∙ rw append_assoc)
]

collect_from-digits_of :
    (n : ℕ) (s : Bytes) (out : List ℕ)
    → length out ≤ n
    → collect_from n s out
      ≡ (if length (out ++ digits_of s) == n then some (out ++ digits_of s) else none)
unfolding collect_from digits_of
collect_from-digits_of n [] out h = rw append-nil
collect_from-digits_of n (b ∷ s) out h = elim (Bool-cases (is_ascii_digit b)) [
  | inr e ↦ rw (e) (collect_from-digits_of n s out h)
  | inl e ↦ rw (e) (
      push_digit n (digit b) (digits_of s) out _ h
        (collect_from-digits_of n s (out ++ digit b ∷ [])))
]

-- `collect_digits::<N>` is the digits of the text if there are `N` of them, and nothing otherwise.
pub collect_digits-digits_of :
    (n : ℕ) (s : Bytes)
    → collect_digits n s
      ≡ (if length (digits_of (as_bytes s)) == n then some (digits_of (as_bytes s)) else none)
unfolding collect_digits
collect_digits-digits_of n s = collect_from-digits_of n (as_bytes s) [] (omega arith)

as_bytes-append : (s t : Bytes) → as_bytes (s ++ t) ≡ as_bytes s ++ as_bytes t
unfolding as_bytes
as_bytes-append [] t = refl
as_bytes-append (c ∷ s) t =
    ap (λ (l : Bytes). encode_utf8 c ++ l) (as_bytes-append s t)
    ∙ sym (append_assoc (encode_utf8 c) (as_bytes s) (as_bytes t))

digits_of-append : (s t : Bytes) → digits_of (s ++ t) ≡ digits_of s ++ digits_of t
unfolding digits_of
digits_of-append [] t = refl
digits_of-append (b ∷ s) t = ground (arith, digits_of-append s t)

as_bytes-digit : (b : ℕ) (post : Bytes) → IsDigit b → as_bytes (b ∷ post) ≡ b ∷ as_bytes post
unfolding as_bytes
as_bytes-digit b post h = ground arith

digits_of-cons :
    (b : ℕ) (post : Bytes)
    → IsDigit b
    → digits_of (as_bytes (b ∷ post)) ≡ digit b ∷ digits_of (as_bytes post)
unfolding digits_of is_ascii_digit
digits_of-cons b post h = rw (as_bytes-digit b post h) (ground arith)

-- A digit in a text is one digit among its digits.
pub digits_of-digit :
    (pre post : Bytes) (b : ℕ)
    → IsDigit b
    → digits_of (as_bytes (pre ++ b ∷ post))
      ≡ digits_of (as_bytes pre) ++ digit b ∷ digits_of (as_bytes post)
digits_of-digit pre post b h =
    rw (as_bytes-append, digits_of-append)
      (ap (λ (l : List ℕ). digits_of (as_bytes pre) ++ l) (digits_of-cons b post h))
