-- ===== src/Config/Dotenv/Ends.antt =====
-- crates/config/src/dotenv.rs: the parse of a file ends.
use dbmcp.Prelude.{
  ℕ, zero, suc, ◌-◌, ◌<◌, ◌≤◌, ◌≡◌, refl, Bytes, codes, List, [], ◌∷◌, ◌++◌, length, any, Bool,
  true, false, not, Bool-cases, inl, inr, ◌||◌, ◌==◌, Option, none, some, Result, ok, err, Returns,
  bind-Returns, arith, is_whitespace, trim_end, trim_start_matches, strip_prefix, if◌then◌else◌,
}
use dbmcp.Config.Template.{TemplateError, Lookup}
use dbmcp.Config.Template.Ends.{substitute-returns}
use dbmcp.Config.Dotenv.Values.{
  ValueError, Extracted, line_and_rest, unquoted, quoted, double, single, extract_value,
}
use dbmcp.Config.Dotenv.{
  start_from, next_line, is_space, or_statement, strip_export, KeyScan, key_char, scan_key, EnvFile,
  Next, go_on, stop, substituted, lookup, next, valued, scanned, statement, continue, at_start,
  parse_loop, line_of,
}

-- What an option has, if there is something.
Has : {A : Type 0} → (A → Type 0) → Option A → Type 0
Has P none = Unit
Has P (some a) = P a

start_from-length :
    (comment : Bool) (s : Bytes)
    → Has (λ t. (0 < length t) × (length t ≤ length s)) (start_from comment s)
unfolding start_from Has
start_from-length comment [] = tt
start_from-length comment (c ∷ cs) =
    let comment' : Bool = if comment then not (c == 10) else c == 35 in
    elim (Bool-cases (comment || is_whitespace c || c == 35)) [
      | inl e ↦ rw e (longer (start_from comment' cs) (start_from-length comment' cs))
      | inr e ↦ rw e (omega arith, omega arith)
    ]
  where
    longer :
        (o : Option Bytes)
        → Has (λ t. (0 < length t) × (length t ≤ length cs)) o
        → Has (λ t. (0 < length t) × (length t ≤ length (c ∷ cs))) o
    longer none h = tt
    longer (some t) (h, k) = (h, omega arith)

next_line-length : (c : ℕ) (cs : Bytes) → length (next_line (c ∷ cs)) ≤ length cs
unfolding next_line
next_line-length c [] = elim (Bool-cases (c == 10)) [
  | inl e ↦ rw e (omega arith)
  | inr e ↦ rw e (omega arith)
]
next_line-length c (d ∷ cs) =
    let ih = next_line-length d cs in
    elim (Bool-cases (c == 10)) [ inl e ↦ rw e (omega arith) | inr e ↦ rw e (omega arith) ]

trim_start_matches-length : (p : ℕ → Bool) (s : Bytes) → length (trim_start_matches p s) ≤ length s
unfolding trim_start_matches
trim_start_matches-length p [] = omega arith
trim_start_matches-length p (c ∷ s) =
    let ih = trim_start_matches-length p s in
    elim (Bool-cases (p c)) [ inl e ↦ rw e (omega arith) | inr e ↦ rw e (omega arith) ]

none_is_not_some : {A : Type 0} {a : A} → none ≡ some a → ⊥
none_is_not_some e = ground arith

Has-weaken :
    {A : Type 0} (P Q : A → Type 0) (o : Option A) → ((a : A) → P a → Q a) → Has P o → Has Q o
unfolding Has
Has-weaken P Q none f h = tt
Has-weaken P Q (some a) f h = f a h

Returns-weaken :
    {A E : Type 0} (P Q : A → Type 0) (m : Result A E)
    → ((a : A) → P a → Q a)
    → Returns P m
    → Returns Q m
Returns-weaken P Q (ok a) f h = f a h
Returns-weaken P Q (err e) f h = tt

strip_prefix-length : (p s t : Bytes) → strip_prefix p s ≡ some t → length t ≤ length s
unfolding strip_prefix
strip_prefix-length [] s t e = ground arith
strip_prefix-length (p ∷ ps) [] t e = ground arith
strip_prefix-length (p ∷ ps) (c ∷ s) t e = elim (Bool-cases (p == c)) [
  | inl f ↦ let ih = strip_prefix-length ps s t (rw f at e) in omega arith
  | inr f ↦ absurd (none_is_not_some (rw f at e))
]

scan_key-length :
    (is_alphanumeric : ℕ → Bool) (key s : Bytes)
    → Has (λ scan. (length scan.left ≤ length s - 1)) (scan_key is_alphanumeric key s)
unfolding scan_key Has
scan_key-length is_alphanumeric key [] = omega arith
scan_key-length is_alphanumeric key (c ∷ cs) =
    elim (Bool-cases (any (λ d. c == d) (61 ∷ 58 ∷ 10 ∷ []))) [
      | inl e ↦ rw e (omega arith)
      | inr e ↦ elim (Bool-cases (key_char is_alphanumeric c)) [
        | inl f ↦
            rw (e, f)
              (Has-weaken (λ scan. length scan.left ≤ length cs - 1)
                (λ scan. length scan.left ≤ length (c ∷ cs) - 1)
                (scan_key is_alphanumeric (key ++ c ∷ []) cs) (λ scan h. omega arith)
                (scan_key-length is_alphanumeric (key ++ c ∷ []) cs))
        | inr f ↦ rw (e, f) tt
      ]
    ]

quoted-length :
    (quote : ℕ) (escaped : Bool) (chars s : Bytes)
    → Returns (λ r. length r.1 ≤ length s) (quoted quote escaped chars s)
unfolding quoted
quoted-length quote escaped chars [] = tt
quoted-length quote escaped chars (c ∷ cs) =
    let longer = λ (opens : Bool) (more : Bytes).
      Returns-weaken (λ r. length r.1 ≤ length cs) (λ r. length r.1 ≤ length (c ∷ cs))
        (quoted quote opens more cs) (λ r h. omega arith) (quoted-length quote opens more cs) in
    elim (Bool-cases (c == quote)) [
      | inl e ↦ elim (Bool-cases escaped) [
        | inl f ↦ rw (e, f) (longer _ _)
        | inr f ↦ rw (e, f) (omega arith)
      ]
      | inr e ↦ rw e (longer _ _)
    ]

line_and_rest-length : (s : Bytes) → length (line_and_rest s).1 ≤ length s
unfolding line_and_rest
line_and_rest-length [] = omega arith
line_and_rest-length (c ∷ cs) =
    let ih = line_and_rest-length cs in
    elim (Bool-cases (c == 10)) [ inl e ↦ rw e (omega arith) | inr e ↦ rw e (omega arith) ]

extract_value-length : (s : Bytes) → Returns (λ r. length r.2 ≤ length s) (extract_value s)
unfolding extract_value unquoted double single
extract_value-length [] = line_and_rest-length []
extract_value-length (c ∷ cs) =
    let plain = line_and_rest-length (c ∷ cs) in
    elim (Bool-cases (c == 34)) [
      | inl e ↦ rw e (
          bind-Returns (λ r. length r.1 ≤ length cs) (λ r. length r.2 ≤ length (c ∷ cs))
            (quoted 34 false [] cs) double (quoted-length 34 false [] cs) (λ r h. omega arith))
      | inr e ↦ elim (Bool-cases (c == 39)) [
        | inl f ↦
            rw (e, f)
              (bind-Returns (λ r. length r.1 ≤ length cs) (λ r. length r.2 ≤ length (c ∷ cs))
                (quoted 39 false [] cs) single (quoted-length 39 false [] cs) (λ r h. omega arith))
        | inr f ↦ rw (e, f) plain
      ]
    ]

-- The next pass has less of the text, or there is none.
Shorter : Bytes → Option Next → Type 0
Shorter start none = ⊥
Shorter start (some (go_on left file)) = length left < length start
Shorter start (some (stop file)) = Unit

next_line-Shorter : (s : Bytes) → 0 < length s → length (next_line s) < length s
next_line-Shorter [] h = absurd (omega arith)
next_line-Shorter (c ∷ cs) h = omega (arith, next_line-length c cs)

or_statement-length :
    (s : Bytes) (o : Option Bytes)
    → ((t : Bytes) → o ≡ some t → length t ≤ length s)
    → length (or_statement s o) ≤ length s
unfolding or_statement
or_statement-length s none h = omega arith
or_statement-length s (some []) h = omega arith
or_statement-length s (some (c ∷ rest)) h =
    let short = h (c ∷ rest) refl in
    let trimmed = trim_start_matches-length is_space (c ∷ rest) in
    elim (Bool-cases (is_whitespace c)) [ inl e ↦ rw e (omega arith) | inr e ↦ rw e (omega arith) ]

strip_export-length : (s : Bytes) → length (strip_export s) ≤ length s
unfolding strip_export
strip_export-length s =
    or_statement-length s (strip_prefix (codes "export") s) (strip_prefix-length (codes "export") s)

substituted-returns :
    (file : EnvFile) (key : Bytes) (line : ℕ) (r : Result Bytes TemplateError × List Bytes)
    → (file' : EnvFile) × (substituted file key line (some r) ≡ some file')
unfolding substituted
substituted-returns file key line (ok value, unset) = (_, refl)
substituted-returns file key line (err e, unset) = (_, refl)

module _ (is_alphanumeric : ℕ → Bool) (process earlier : Lookup) (text : Bytes) where
  valued-Shorter :
      (file : EnvFile) (key : Bytes) (line : ℕ) (start : Bytes) (r : Result Extracted ValueError)
      → Returns (λ r. length r.2 < length start) r
      → Shorter start (valued is_alphanumeric process earlier text file key line r)
  unfolding Shorter valued next
  valued-Shorter file key line start (err e) h = tt
  valued-Shorter file key line start (ok (raw, true, left)) h =
      let (r, e) =
        substitute-returns (lookup is_alphanumeric process earlier text file) (suc (length raw)) raw
          [] (omega arith) in
      let (file', e') = substituted-returns file key line r in rw (e, e') h
  valued-Shorter file key line start (ok (raw, false, left)) h = h

  scanned-Shorter :
      (file : EnvFile) (line : ℕ) (start : Bytes) (o : Option KeyScan)
      → 0 < length start
      → Has (λ scan. length scan.left < length start) o
      → Shorter start (scanned is_alphanumeric process earlier text file line start o)
  unfolding Shorter scanned Has
  scanned-Shorter file line start none pos h = next_line-Shorter start pos
  scanned-Shorter file line start (some scan) pos h =
      let trimmed = trim_start_matches-length is_space scan.left in
      let value : Bytes = trim_start_matches is_space scan.left in
      let assigned = valued-Shorter file (trim_end scan.key) line start (extract_value value) (
        Returns-weaken (λ r. length r.2 ≤ length value) (λ r. length r.2 < length start)
          (extract_value value) (λ r k. omega arith) (extract_value-length value)) in
      elim (Bool-cases (any (λ c. c == 32) (trim_end scan.key))) [
        | inl e ↦ rw e (next_line-Shorter start pos)
        | inr e ↦ elim (Bool-cases scan.inherited) [
          | inl f ↦ rw (e, f) h
          | inr f ↦ rw (e, f) assigned
        ]
      ]

  statement-Shorter :
      (file : EnvFile) (start : Bytes)
      → 0 < length start
      → Shorter start (statement is_alphanumeric process earlier text file start)
  unfolding statement
  statement-Shorter file start pos =
      let stripped = strip_export-length start in
      scanned-Shorter file (line_of text start) start
        (scan_key is_alphanumeric [] (strip_export start)) pos
        (Has-weaken (λ scan. length scan.left ≤ length (strip_export start) - 1)
          (λ scan. length scan.left < length start)
          (scan_key is_alphanumeric [] (strip_export start)) (λ scan h. omega arith)
          (scan_key-length is_alphanumeric [] (strip_export start)))

  Ends : (Bytes → EnvFile → Option EnvFile) → ℕ → Type 0
  Ends loop n =
      (left : Bytes) (file : EnvFile)
      → length left < n
      → (file' : EnvFile) × (loop left file ≡ some file')

  continue-Ends :
      (loop : Bytes → EnvFile → Option EnvFile) (n : ℕ) (start : Bytes) (o : Option Next)
      → Ends loop n
      → length start ≤ n
      → Shorter start o
      → (file' : EnvFile) × (continue is_alphanumeric process earlier text loop o ≡ some file')
  unfolding Ends Shorter continue
  continue-Ends loop n start none h k l = absurd l
  continue-Ends loop n start (some (go_on left file)) h k l = h left file (omega arith)
  continue-Ends loop n start (some (stop file)) h k l = (file, refl)

  at_start-Ends :
      (loop : Bytes → EnvFile → Option EnvFile) (n : ℕ) (file : EnvFile) (o : Option Bytes)
      → Ends loop n
      → Has (λ t. (0 < length t) × (length t ≤ n)) o
      → (file' : EnvFile) × (at_start is_alphanumeric process earlier text loop file o ≡ some file')
  unfolding at_start Has
  at_start-Ends loop n file none h k = (file, refl)
  at_start-Ends loop n file (some start) h (pos, k) =
      continue-Ends loop n start _ h k (statement-Shorter file start pos)

  -- The loop over the statements of an env file returns on every text, also where statements are
  -- malformed, a quote is not terminated or a value is a template: fuel for one more than the
  -- characters that are left is enough.
  pub parse_loop-returns :
      (fuel : ℕ) (left : Bytes) (file : EnvFile)
      → length left < fuel
      → (file' : EnvFile) × (parse_loop is_alphanumeric process earlier text fuel left file
          ≡ some file')
  unfolding parse_loop Ends
  parse_loop-returns zero left file h = absurd (omega arith)
  parse_loop-returns (suc fuel) left file h =
      at_start-Ends (parse_loop is_alphanumeric process earlier text fuel) fuel file
        (start_from false left) (parse_loop-returns fuel)
        (Has-weaken (λ t. (0 < length t) × (length t ≤ length left))
          (λ t. (0 < length t) × (length t ≤ fuel)) (start_from false left)
          (λ t (a, b). (a, omega arith)) (start_from-length false left))
