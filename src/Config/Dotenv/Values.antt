-- ===== src/Config/Dotenv/Values.antt =====
-- crates/config/src/dotenv.rs: the values.
pub mod Quoted
use dbmcp.Prelude.{
  ℕ, zero, suc, ◌+◌, ◌-◌, ◌*◌, Bytes, codes, List, [], ◌∷◌, ◌++◌, Bool, true, false, ◌&&◌, ◌==◌,
  leb, Option, none, some, Result, ok, err, ◌>>=◌, split_once, trim_end, if◌then◌else◌,
}

-- `"unterminated quoted value"`
pub data ValueError : Type 0 where
  unterminated : ValueError

-- The raw text, whether it is expanded, and what is left behind it.
abbrev pub Extracted : Type 0
Extracted = Bytes × Bool × Bytes

unfoldable pub line_and_rest : Bytes → Bytes × Bytes
line_and_rest [] = ([], [])
line_and_rest (c ∷ cs) =
    let (line, rest) = line_and_rest cs in if c == 10 then ([], cs) else (c ∷ line, rest)

pub before_comment : Bytes → Option (Bytes × Bytes) → Bytes
before_comment line none = line
before_comment line (some (value, comment)) = value

unfoldable pub unquoted : Bytes → Extracted
unfolding line_and_rest before_comment trim_end split_once
unquoted src =
    let (line, rest) = line_and_rest src in
    (trim_end (before_comment line (split_once (codes " #") line)), true, rest)

octal_digit : ℕ → Bool
octal_digit c = leb 48 c && leb c 55

-- `octal`, behind the `\0`: three octal digits below 256; the digits of another form stay as they are.
unfoldable pub octal : Bytes → Bytes × ℕ
unfolding octal_digit
octal (a ∷ b ∷ c ∷ rest) =
    let code = (a - 48) * 64 + (b - 48) * 8 + (c - 48) in
    if octal_digit a && octal_digit b && octal_digit c && leb code 255
    then (code ∷ [], 4)
    else (codes "\\0", 1)
octal rest = (codes "\\0", 1)

simple_escape : List (ℕ × Bytes) → ℕ → Bytes × ℕ
simple_escape [] c = (codes "\\", 0)
simple_escape ((d, replacement) ∷ table) c =
    let rest = simple_escape table c in if d == c then (replacement, 1) else rest

-- `\a \b \f \n \r \t \v \" \\`, and `\$`, which is doubled.
abbrev escapes : List (ℕ × Bytes)
escapes =
    (97, 7 ∷ [])
    ∷ (98, 8 ∷ [])
    ∷ (102, 12 ∷ [])
    ∷ (110, 10 ∷ [])
    ∷ (114, 13 ∷ [])
    ∷ (116, 9 ∷ [])
    ∷ (118, 11 ∷ [])
    ∷ (34, 34 ∷ [])
    ∷ (92, 92 ∷ [])
    ∷ (36, 36 ∷ 36 ∷ [])
    ∷ []

-- What an escape is replaced by, for what follows the backslash, and how much of that it takes.
unfoldable pub escape_of : Bytes → Bytes × ℕ
unfolding octal simple_escape
escape_of [] = (codes "\\", 0)
escape_of (c ∷ cs) = if c == 48 then octal cs else simple_escape escapes c

-- `expand_escapes`; the first characters are passed over.
unfoldable pub expand_from : ℕ → Bytes → Bytes
unfolding escape_of
expand_from skip [] = []
expand_from (suc skip) (c ∷ cs) = expand_from skip cs
expand_from zero (c ∷ cs) =
    let (out, taken) = if c == 92 then escape_of cs else (c ∷ [], 0) in out ++ expand_from taken cs

unfoldable pub expand_escapes : Bytes → Bytes
unfolding expand_from
expand_escapes value = expand_from 0 value

-- What a character inside quotes does to the characters so far, behind a backslash or not.
pub kept_by : Bool → Bool → ℕ → Bytes
kept_by true escaped c = c ∷ []
kept_by false true c = 92 ∷ c ∷ []
kept_by false false c = if c == 92 then [] else c ∷ []

-- The loop over a quoted value; `escaped` is the flag of a backslash.
unfoldable pub quoted : ℕ → Bool → Bytes → Bytes → Result (Bytes × Bytes) ValueError
unfolding kept_by
quoted quote escaped chars [] = err unterminated
quoted quote escaped chars (c ∷ cs) =
    let is_quote = c == quote in
    let opens = if is_quote then false else if escaped then false else c == 92 in
    let rest = quoted quote opens (chars ++ kept_by is_quote escaped c) cs in
    if is_quote then (if escaped then rest else ok (chars, cs)) else rest

unfoldable pub double : Bytes × Bytes → Result Extracted ValueError
unfolding expand_escapes
double (value, left) = ok (expand_escapes value, true, left)

unfoldable pub single : Bytes × Bytes → Result Extracted ValueError
single (value, left) = ok (value, false, left)

-- `extract_value`
unfoldable pub extract_value : Bytes → Result Extracted ValueError
unfolding quoted unquoted double single
extract_value [] = ok (unquoted [])
extract_value (c ∷ cs) =
    let in_double : Result Extracted ValueError = quoted 34 false [] cs >>= double in
    let in_single : Result Extracted ValueError = quoted 39 false [] cs >>= single in
    if c == 34 then in_double else if c == 39 then in_single else ok (unquoted (c ∷ cs))
