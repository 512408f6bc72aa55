-- ===== src/Config/Template/Ends.antt =====
-- The termination of crates/config/src/template.rs.
use dbmcp.Prelude.{
  ℕ, zero, suc, ◌+◌, ◌-◌, ◌<◌, ◌≤◌, ◌≡◌, ◌∙◌, refl, ap, Bytes, List, [], ◌∷◌, ◌++◌, length, take,
  drop, codes, length-append, length-drop, Option, none, some, Result, ok, err, inl, inr,
  Bool-cases, ◌==◌, arith, if◌then◌else◌,
}
use dbmcp.Config.Template.{
  TemplateError, Lookup, Sub, return, continue, ◌>>=◌, is_name_start, split_name, split_line,
  rsplit_brace, last_brace, first_brace_closing, split_matched, split_operator, is_operator, Action,
  use_arg, complain, use_value, plain, recorded, perform, apply, greedy, up_to_brace, at_operator,
  after_name, braced, before, dollar, pass, substitute,
}

-- It returns, with an error or with a value of which `P` holds.
abbrev pub Ends :
    {A : Type 0} → (A → Type 0) → Option (Result A TemplateError × List Bytes) → Type 0
Ends P none = ⊥
Ends P (some (err e, unset)) = Unit
Ends P (some (ok a, unset)) = P a

abbrev Any : {A : Type 0} → A → Type 0
Any a = Unit

continue-Ends :
    {A B : Type 0} (P : A → Type 0) (Q : B → Type 0) (f : A → Sub B)
    (m : Option (Result A TemplateError × List Bytes))
    → Ends P m
    → ((a : A) (unset : List Bytes) → P a → Ends Q (f a unset))
    → Ends Q (continue f m)
continue-Ends P Q f none h k = h
continue-Ends P Q f (some (err e, unset)) h k = tt
continue-Ends P Q f (some (ok a, unset)) h k = k a unset h

split_name-length : (s : Bytes) → length (split_name s).0 + length (split_name s).1 ≡ length s
unfolding split_name
split_name-length [] = omega arith
split_name-length (c ∷ cs) = let ih = split_name-length cs in ground arith

split_line-length : (s : Bytes) → length (split_line s).0 + length (split_line s).1 ≡ length s
unfolding split_line
split_line-length [] = omega arith
split_line-length (c ∷ cs) = let ih = split_line-length cs in ground arith

last_brace-length :
    (c : ℕ) (cs : Bytes) (o : Option (Bytes × Bytes)) (b e : Bytes)
    → ((b' e' : Bytes) → o ≡ some (b', e') → length b' + suc (length e') ≡ length cs)
    → last_brace c cs o ≡ some (b, e)
    → length b + suc (length e) ≡ suc (length cs)
unfolding last_brace
last_brace-length c cs none b e h k = ground arith
last_brace-length c cs (some (b', e')) b e h k = let ih = h b' e' refl in ground arith

rsplit_brace-length :
    (s b e : Bytes) → rsplit_brace s ≡ some (b, e) → length b + suc (length e) ≡ length s
unfolding rsplit_brace
rsplit_brace-length [] b e h = ground arith
rsplit_brace-length (c ∷ cs) b e h =
    last_brace-length c cs (rsplit_brace cs) b e (rsplit_brace-length cs) h

length-take_of : (n : ℕ) (s : Bytes) → length (take n s) ≤ length s
length-take_of zero s = omega arith
length-take_of (suc n) [] = omega arith
length-take_of (suc n) (c ∷ cs) = let ih = length-take_of n cs in omega arith

-- Both parts of what was matched are shorter than it.
split_matched-length :
    (matched : Bytes) (o : Option ℕ)
    → (length (split_matched matched o).0 ≤ length matched - 2)
      × (length (split_matched matched o).1 ≤ length matched - 1)
unfolding split_matched
split_matched-length matched none = (
  omega (arith, length-take_of (length matched - 1 - 2) (drop 2 matched), length-drop 2 matched),
  omega arith,
)
split_matched-length matched (some close) = (
  omega (arith, length-take_of (close - 2) (drop 2 matched), length-drop 2 matched),
  omega (arith, length-drop (suc close) matched),
)

split_operator-length : (s : Bytes) → length (split_operator s).1 ≤ length s
unfolding split_operator
split_operator-length [] = omega arith
split_operator-length (c ∷ cs) = omega (arith, length-drop (if c == 58 then 2 else 1) (c ∷ cs))

recorded-Ends :
    (name : Bytes) (value : Option Bytes) (unset : List Bytes)
    → Ends Any (recorded name value unset)
unfolding recorded
recorded-Ends name none unset = tt
recorded-Ends name (some v) unset = tt

module _ (lookup : Lookup) (sub : Bytes → Sub Bytes) (n : ℕ)
    (sub_ends : (t : Bytes) (unset : List Bytes) → length t < n → Ends Any (sub t unset)) where
  -- What is left is shorter as well.
  Left : Bytes × Bytes → Type 0
  Left (value, left) = length left < n

  plain-Ends : (name : Bytes) (unset : List Bytes) → Ends Any (plain lookup sub name unset)
  unfolding plain recorded
  plain-Ends name unset = recorded-Ends name (lookup name) unset

  perform-Ends :
      (name arg : Bytes) (value : Option Bytes) (a : Action) (unset : List Bytes)
      → length arg < n
      → Ends Any (perform lookup sub name arg value a unset)
  unfolding perform
  perform-Ends name arg value use_arg unset h = sub_ends arg unset h
  perform-Ends name arg value complain unset h =
      continue-Ends Any Any _ (sub arg unset) (sub_ends arg unset h) (λ a u _. tt)
  perform-Ends name arg value use_value unset h = tt

  apply-Ends :
      (name op arg : Bytes) (unset : List Bytes)
      → length arg < n
      → Ends Any (apply lookup sub name op arg unset)
  unfolding apply
  apply-Ends name op arg unset h = perform-Ends name arg (lookup name) _ unset h

  greedy-Ends :
      (name matched left : Bytes) (unset : List Bytes)
      → length matched < suc n
      → 0 < length matched
      → length left < n
      → Ends Left (greedy lookup sub name matched left unset)
  unfolding greedy Left
  greedy-Ends name matched left unset h pos k =
      let body : Bytes = (split_matched matched (first_brace_closing matched)).0 in
      let rest : Bytes = (split_matched matched (first_brace_closing matched)).1 in
      let operator : Bytes = drop (length name) body in
      let (short_body, short_rest) = split_matched-length matched (first_brace_closing matched) in
      let short_arg : length (split_operator operator).1 < n =
        omega (arith, split_operator-length operator, length-drop (length name) body) in
      let op : Bytes = (split_operator operator).0 in
      let arg : Bytes = (split_operator operator).1 in
      continue-Ends Any Left (λ value. sub rest >>= λ rest'. return (value ++ rest', left))
        (apply lookup sub name op arg unset) (apply-Ends name op arg unset short_arg)
        (λ value u _.
          continue-Ends Any Left (λ rest'. return (value ++ rest', left)) (sub rest u)
            (sub_ends rest u (omega arith)) (λ a u' _. k))

  up_to_brace-Ends :
      (name opened line_end line : Bytes) (o : Option (Bytes × Bytes)) (unset : List Bytes)
      → ((b e : Bytes) → o ≡ some (b, e) → length b + suc (length e) ≡ length line)
      → 0 < length opened
      → length opened + length line + length line_end < suc n
      → Ends Left (up_to_brace lookup sub name opened line_end o unset)
  unfolding up_to_brace
  up_to_brace-Ends name opened line_end line none unset split pos h = tt
  up_to_brace-Ends name opened line_end line (some (b, e)) unset split pos h =
      let parts = split b e refl in
      let matched : length (opened ++ b ++ codes "}") ≡ length opened + length b + 1 =
        length-append (opened ++ b) (codes "}") ∙ ap (λ m. m + 1) (length-append opened b) in
      greedy-Ends name (opened ++ b ++ codes "}") (e ++ line_end) unset (omega arith) (omega arith)
        (omega (arith, length-append e line_end))

  at_operator-Ends :
      (name opened s : Bytes) (unset : List Bytes)
      → length opened + length s < suc n
      → Ends Left (at_operator lookup sub name opened s unset)
  unfolding at_operator
  at_operator-Ends name opened [] unset h = tt
  at_operator-Ends name opened (c ∷ cs) unset h =
      let parts = split_line-length cs in
      let more = length-append opened (c ∷ []) in
      let reference =
        up_to_brace-Ends name (opened ++ c ∷ []) (split_line cs).1 (split_line cs).0
          (rsplit_brace (split_line cs).0) unset (rsplit_brace-length (split_line cs).0)
          (omega arith) (omega arith) in
      elim (Bool-cases (is_operator c)) [ inl e ↦ rw e reference | inr e ↦ rw e tt ]

  after_name-Ends :
      (name s : Bytes) (unset : List Bytes)
      → 2 + length name + length s < suc n
      → Ends Left (after_name lookup sub name s unset)
  unfolding after_name Left
  after_name-Ends name [] unset h = tt
  after_name-Ends name (c ∷ cs) unset h =
      let bare = length-append (codes "${") name in
      let colon = length-append (codes "${" ++ name) (codes ":") in
      elim (Bool-cases (c == 125)) [
        | inl e ↦ rw e (
            continue-Ends Any Left _ (plain lookup sub name unset) (plain-Ends name unset)
              (λ a u _. omega arith))
        | inr e ↦ elim (Bool-cases (c == 58)) [
          | inl e' ↦
              rw (e, e')
                (at_operator-Ends name (codes "${" ++ name ++ codes ":") cs unset (omega arith))
          | inr e' ↦
              rw (e, e') (at_operator-Ends name (codes "${" ++ name) (c ∷ cs) unset (omega arith))
        ]
      ]

  braced-Ends :
      (s : Bytes) (unset : List Bytes)
      → 2 + length s < suc n
      → Ends Left (braced lookup sub s unset)
  unfolding braced
  braced-Ends [] unset h = tt
  braced-Ends (c ∷ cs) unset h =
      let parts = split_name-length (c ∷ cs) in
      let reference =
        after_name-Ends (split_name (c ∷ cs)).0 (split_name (c ∷ cs)).1 unset (omega arith) in
      elim (Bool-cases (is_name_start c)) [ inl e ↦ rw e reference | inr e ↦ rw e tt ]

  before-Ends :
      (value rest : Bytes) (unset : List Bytes)
      → length rest < n
      → Ends Any (before lookup sub value rest unset)
  unfolding before
  before-Ends value rest unset h =
      continue-Ends Any Any _ (sub rest unset) (sub_ends rest unset h) (λ a u _. tt)

  dollar-Ends :
      (s : Bytes) (unset : List Bytes)
      → suc (length s) < suc n
      → Ends Any (dollar lookup sub s unset)
  unfolding dollar Left
  dollar-Ends [] unset h = before-Ends (codes "$") [] unset (omega arith)
  dollar-Ends (c ∷ cs) unset h =
      let parts = split_name-length (c ∷ cs) in
      elim (Bool-cases (c == 36)) [
        | inl e ↦ rw e (before-Ends (codes "$") cs unset (omega arith))
        | inr e ↦ elim (Bool-cases (is_name_start c)) [
          | inl e' ↦
              rw (e, e')
                (continue-Ends Any Any _ (plain lookup sub (split_name (c ∷ cs)).0 unset)
                  (plain-Ends (split_name (c ∷ cs)).0 unset)
                  (λ a u _. before-Ends a (split_name (c ∷ cs)).1 u (omega arith)))
          | inr e' ↦ elim (Bool-cases (c == 123)) [
            | inl e'' ↦
                rw (e, e', e'')
                  (continue-Ends Left Any _ (braced lookup sub cs unset)
                    (braced-Ends cs unset (omega arith)) (λ (v, l) u k. before-Ends v l u k))
            | inr e'' ↦ rw (e, e', e'') (before-Ends (codes "$") (c ∷ cs) unset (omega arith))
          ]
        ]
      ]

  pass-Ends :
      (c : ℕ) (cs : Bytes) (unset : List Bytes)
      → length (c ∷ cs) < suc n
      → Ends Any (pass lookup sub c cs unset)
  unfolding pass
  pass-Ends c cs unset h = elim (Bool-cases (c == 36)) [
    | inl e ↦ rw e (dollar-Ends cs unset h)
    | inr e ↦ rw e (before-Ends (c ∷ []) cs unset (omega arith))
  ]

substitute-Ends :
    (lookup : Lookup) (fuel : ℕ) (text : Bytes) (unset : List Bytes)
    → length text < fuel
    → Ends Any (substitute lookup fuel text unset)
unfolding substitute
substitute-Ends lookup zero text unset h = absurd (omega arith)
substitute-Ends lookup (suc fuel) [] unset h = tt
substitute-Ends lookup (suc fuel) (c ∷ cs) unset h =
    pass-Ends lookup (substitute lookup fuel) fuel (substitute-Ends lookup fuel) c cs unset h

Ends-some :
    {A : Type 0} (P : A → Type 0) (o : Option (Result A TemplateError × List Bytes))
    → Ends P o
    → (r : Result A TemplateError × List Bytes) × (o ≡ some r)
Ends-some P none h = absurd h
Ends-some P (some r) h = (r, refl)

-- Substitution returns on every template, whatever the variables are: fuel for one more than the
-- bytes of the template is enough, also for what is substituted inside a default and behind the
-- first closing brace.
pub substitute-returns :
    (lookup : Lookup) (fuel : ℕ) (text : Bytes) (unset : List Bytes)
    → length text < fuel
    → (r : Result Bytes TemplateError × List Bytes) × (substitute lookup fuel text unset ≡ some r)
substitute-returns lookup fuel text unset h =
    Ends-some Any (substitute lookup fuel text unset) (substitute-Ends lookup fuel text unset h)
