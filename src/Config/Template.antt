-- ===== src/Config/Template.antt =====
-- crates/config/src/template.rs. A text is its UTF-8 bytes, and an offset of the template is what is
-- left of it from there. A `none` is a panic, or the end of the fuel.
pub mod Ends
pub mod Escapes
mod Tests
use dbmcp.Prelude.{
  ℕ, zero, suc, ◌-◌, Bytes, codes, List, [], ◌∷◌, ◌++◌, length, take, drop, between, Bool, true,
  false, not, ◌&&◌, ◌||◌, ◌==◌, Option, none, some, Result, ok, err, bytes_eq,
  is_ascii_alphanumeric, is_ascii_lowercase, is_ascii_uppercase, if◌then◌else◌,
}

pub data TemplateError : Type 0 where
  invalid : TemplateError
  missing_required : Bytes → Bytes → TemplateError

abbrev pub Lookup : Type 0
Lookup = Bytes → Option Bytes

-- What a function returns that appends to `unset`, on its error path as well.
abbrev pub Sub : Type 0 → Type 0
Sub A = List Bytes → Option (Result A TemplateError × List Bytes)

abbrev pub return : {A : Type 0} → A → Sub A
return a unset = some (ok a, unset)

abbrev pub fail : {A : Type 0} → TemplateError → Sub A
fail e unset = some (err e, unset)

-- The rest of a function behind a `?`.
abbrev pub continue :
    {A B : Type 0}
    → (A → Sub B)
    → Option (Result A TemplateError × List Bytes)
    → Option (Result B TemplateError × List Bytes)
continue f none = none
continue f (some (err e, unset)) = some (err e, unset)
continue f (some (ok a, unset)) = f a unset

infixl 5 ◌>>=◌
abbrev pub ◌>>=◌ : {A B : Type 0} → Sub A → (A → Sub B) → Sub B
(m >>= f) unset = continue f (m unset)

unfoldable pub is_name_start : ℕ → Bool
unfolding is_ascii_lowercase is_ascii_uppercase
is_name_start c = c == 95 || is_ascii_lowercase c || is_ascii_uppercase c

unfoldable pub is_name_char : ℕ → Bool
unfolding is_ascii_alphanumeric
is_name_char c = c == 95 || is_ascii_alphanumeric c

-- The text up to `name_end`, and from there.
unfoldable pub split_name : Bytes → Bytes × Bytes
unfolding is_name_char
split_name [] = ([], [])
split_name (c ∷ cs) =
    let (name, rest) = split_name cs in if is_name_char c then (c ∷ name, rest) else ([], c ∷ cs)

-- The text up to the newline, and from there.
unfoldable pub split_line : Bytes → Bytes × Bytes
split_line [] = ([], [])
split_line (c ∷ cs) =
    let (line, rest) = split_line cs in if c == 10 then ([], c ∷ cs) else (c ∷ line, rest)

-- The last `}` behind the first byte, or that byte.
unfoldable pub last_brace : ℕ → Bytes → Option (Bytes × Bytes) → Option (Bytes × Bytes)
last_brace c cs (some (before, behind)) = some (c ∷ before, behind)
last_brace c cs none = if c == 125 then some ([], cs) else none

-- `rfind('}')`: the text before it, and behind it.
unfoldable pub rsplit_brace : Bytes → Option (Bytes × Bytes)
unfolding last_brace
rsplit_brace [] = none
rsplit_brace (c ∷ cs) = last_brace c cs (rsplit_brace cs)

-- The loop of `first_brace_closing` from the offset `i`; `skip` is the `i += 1` behind a `{`.
unfoldable pub closing_from : ℕ → ℕ → Bool → Bytes → Option ℕ
closing_from i depth skip [] = none
closing_from i depth true (c ∷ cs) = closing_from (suc i) depth false cs
closing_from i depth false (c ∷ cs) =
    let closed = if c == 125 then depth - 1 else depth in
    let depth' = if c == 123 then suc closed else closed in
    let rest = closing_from (suc i) depth' (c == 123) cs in
    if c == 125 && closed == 0 then some i else rest

unfoldable pub first_brace_closing : Bytes → Option ℕ
unfolding closing_from
first_brace_closing s = closing_from 0 0 false s

-- The body and the rest of what was matched.
unfoldable pub split_matched : Bytes → Option ℕ → Bytes × Bytes
split_matched matched (some close) = (between 2 close matched, drop (suc close) matched)
split_matched matched none = (between 2 (length matched - 1) matched, [])

-- `operator.split_at(if operator.starts_with(':') { 2 } else { 1 })`
unfoldable pub split_operator : Bytes → Bytes × Bytes
split_operator [] = ([], [])
split_operator (c ∷ cs) = let n = if c == 58 then 2 else 1 in (take n (c ∷ cs), drop n (c ∷ cs))

unfoldable pub is_operator : ℕ → Bool
is_operator c = c == 45 || c == 43 || c == 63

-- The guards of `apply`, on whether the variable has a value, and one that is not empty.
pub data Action : Type 0 where
  use_arg : Action
  complain : Action
  use_value : Action

unfoldable pub action : Bytes → Bool → Bool → Action
unfolding bytes_eq
action op is_set is_filled =
    if bytes_eq op (codes ":-") && not is_filled
    then use_arg
    else if bytes_eq op (codes "-") && not is_set
    then use_arg
    else if bytes_eq op (codes ":+") && is_filled
    then use_arg
    else if bytes_eq op (codes "+") && is_set
    then use_arg
    else if bytes_eq op (codes ":?") && not is_filled
    then complain
    else if bytes_eq op (codes "?") && not is_set
    then complain
    else use_value

pub set : Option Bytes → Bool
set none = false
set (some v) = true

pub filled : Option Bytes → Bool
filled none = false
filled (some []) = false
filled (some (c ∷ cs)) = true

pub or_default : Option Bytes → Bytes
or_default none = []
or_default (some v) = v

pub recorded : Bytes → Option Bytes → Sub Bytes
recorded name none unset = some (ok [], unset ++ name ∷ [])
recorded name (some v) unset = some (ok v, unset)

-- The functions call each other; `substitute` of what is shorter is an argument.
module _ (lookup : Lookup) (substitute : Bytes → Sub Bytes) where
  -- `plain`
  unfoldable pub plain : Bytes → Sub Bytes
  unfolding recorded
  plain name = recorded name (lookup name)

  pub perform : Bytes → Bytes → Option Bytes → Action → Sub Bytes
  unfolding or_default
  perform name arg value use_arg = substitute arg
  perform name arg value complain = do reason ← substitute arg; fail (missing_required name reason)
  perform name arg value use_value = return (or_default value)

  -- `apply`
  unfoldable pub apply : Bytes → Bytes → Bytes → Sub Bytes
  unfolding perform action set filled
  apply name op arg =
      perform name arg (lookup name) (action op (set (lookup name)) (filled (lookup name)))

  -- The operators' arm behind the guards: what was matched, and what is left.
  pub greedy : Bytes → Bytes → Bytes → Sub (Bytes × Bytes)
  unfolding first_brace_closing split_matched split_operator apply
  greedy name matched left = do
    let (body, rest) = split_matched matched (first_brace_closing matched)
    let (op, arg) = split_operator (drop (length name) body)
    value ← apply name op arg
    rest' ← substitute rest
    return (value ++ rest', left)

  pub up_to_brace : Bytes → Bytes → Bytes → Option (Bytes × Bytes) → Sub (Bytes × Bytes)
  unfolding greedy
  up_to_brace name opened line_end none = fail invalid
  up_to_brace name opened line_end (some (before, behind)) =
      greedy name (opened ++ before ++ codes "}") (behind ++ line_end)

  -- The match on the byte at `op_start`; `opened` is the text up to there.
  pub at_operator : Bytes → Bytes → Bytes → Sub (Bytes × Bytes)
  unfolding is_operator up_to_brace split_line rsplit_brace
  at_operator name opened [] = fail invalid
  at_operator name opened (c ∷ cs) =
      let (line, line_end) = split_line cs in
      let reference = up_to_brace name (opened ++ c ∷ []) line_end (rsplit_brace line) in
      if is_operator c then reference else fail invalid

  -- The match behind the name.
  pub after_name : Bytes → Bytes → Sub (Bytes × Bytes)
  unfolding plain at_operator
  after_name name [] = fail invalid
  after_name name (c ∷ cs) =
      let simple : Sub (Bytes × Bytes) = plain name >>= λ value. return (value, cs) in
      let colon = at_operator name (codes "${" ++ name ++ codes ":") cs in
      let bare = at_operator name (codes "${" ++ name) (c ∷ cs) in
      if c == 125 then simple else if c == 58 then colon else bare

  -- `braced`, behind the `${`: the value, and what is left.
  unfoldable pub braced : Bytes → Sub (Bytes × Bytes)
  unfolding is_name_start split_name after_name
  braced [] = fail invalid
  braced (c ∷ cs) =
      let (name, rest) = split_name (c ∷ cs) in
      let reference = after_name name rest in if is_name_start c then reference else fail invalid

  -- The rest of the template behind what stands for a part of it.
  pub before : Bytes → Bytes → Sub Bytes
  before value rest = do rest' ← substitute rest; return (value ++ rest')

  -- The arms of the match behind a `$`.
  pub dollar : Bytes → Sub Bytes
  unfolding before plain braced is_name_start split_name
  dollar [] = before (codes "$") []
  dollar (c ∷ cs) =
      let (name, rest) = split_name (c ∷ cs) in
      let escaped = before (codes "$") cs in
      let named : Sub Bytes = plain name >>= λ value. before value rest in
      let reference : Sub Bytes = braced cs >>= λ (value, left). before value left in
      let literal = before (codes "$") (c ∷ cs) in
      if c == 36
      then escaped
      else if is_name_start c
      then named
      else if c == 123
      then reference
      else literal

  -- One pass of the loop: a byte of a literal run, or a `$`.
  pub pass : ℕ → Bytes → Sub Bytes
  unfolding before dollar
  pass c cs =
      let copied = before (c ∷ []) cs in
      let replaced = dollar cs in if c == 36 then replaced else copied

-- `substitute`, on fuel.
unfoldable pub substitute : Lookup → ℕ → Bytes → Sub Bytes
unfolding pass
substitute lookup zero text unset = none
substitute lookup (suc fuel) [] unset = some (ok [], unset)
substitute lookup (suc fuel) (c ∷ cs) unset = pass lookup (substitute lookup fuel) c cs unset
