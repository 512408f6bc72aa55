-- ===== src/Config/Dotenv.antt =====
-- crates/config/src/dotenv.rs. A text is its code points, and an offset of it is the text from there
-- on. Which characters are alphanumeric is a table of Unicode, and a parameter.
pub mod Values
pub mod Ends
mod Tests
use dbmcp.Prelude.{
  ℕ, zero, suc, ◌+◌, ◌-◌, ◌*◌, Bytes, codes, List, [], ◌∷◌, ◌++◌, length, any, Bool, true, false,
  not, ◌&&◌, ◌||◌, ◌==◌, ltb, leb, Option, none, some, Result, ok, err, bytes_eq, strip_prefix,
  split_once, trim_end, trim_start_matches, is_whitespace, is_ascii_digit, if◌then◌else◌,
}
use dbmcp.Config.Template.{TemplateError, Lookup, substitute}
use Values.{Extracted, extract_value, ValueError}

-- What is wrong with a statement.
pub data Reason : Type 0 where
  unexpected_character : Reason
  key_with_space : Reason
  unterminated_quote : Reason
  bad_template : Bytes → TemplateError → Reason

-- `IndexMap::insert`: a key that is there keeps its place.
unfoldable pub insert : Bytes → Bytes → ℕ → List (Bytes × Bytes × ℕ) → List (Bytes × Bytes × ℕ)
unfolding bytes_eq
insert key value line [] = (key, value, line) ∷ []
insert key value line ((k, v, n) ∷ entries) =
    let rest = insert key value line entries in
    if bytes_eq k key then (k, value, line) ∷ entries else (k, v, n) ∷ rest

unfoldable pub get : List (Bytes × Bytes × ℕ) → Bytes → Option Bytes
unfolding bytes_eq
get [] name = none
get ((k, value, line) ∷ entries) name =
    let rest = get entries name in if bytes_eq k name then some value else rest

-- The line breaks of a text.
unfoldable pub breaks : Bytes → ℕ
breaks [] = 0
breaks (c ∷ cs) = let rest = breaks cs in if c == 10 then suc rest else rest

-- `line_of`, for what is left of the text from the offset.
unfoldable pub line_of : Bytes → Bytes → ℕ
unfolding breaks
line_of text rest = breaks text - breaks rest + 1

-- `statement_start`; `comment` is whether a `#` was read on the line.
unfoldable pub start_from : Bool → Bytes → Option Bytes
unfolding is_whitespace
start_from comment [] = none
start_from comment (c ∷ cs) =
    let comment' = if comment then not (c == 10) else c == 35 in
    let rest = start_from comment' cs in
    if comment || is_whitespace c || c == 35 then rest else some (c ∷ cs)

-- `next_line`
unfoldable pub next_line : Bytes → Bytes
next_line [] = []
next_line (c ∷ cs) = let rest = next_line cs in if c == 10 then cs else rest

-- `is_space`
unfoldable pub is_space : ℕ → Bool
is_space c = any (λ d. c == d) (9 ∷ 11 ∷ 12 ∷ 13 ∷ 32 ∷ 133 ∷ 160 ∷ [])

unfoldable pub or_statement : Bytes → Option Bytes → Bytes
unfolding is_whitespace is_space trim_start_matches
or_statement statement none = statement
or_statement statement (some []) = statement
or_statement statement (some (c ∷ rest)) =
    if is_whitespace c then trim_start_matches is_space (c ∷ rest) else statement

-- `strip_export`
unfoldable pub strip_export : Bytes → Bytes
unfolding or_statement strip_prefix
strip_export statement = or_statement statement (strip_prefix (codes "export") statement)

-- The key, what is left behind its end, and whether it is inherited.
pub record KeyScan : Type 0 where
  pub key : Bytes
  pub left : Bytes
  pub inherited : Bool

module _ (is_alphanumeric : ℕ → Bool) where
  pub key_char : ℕ → Bool
  unfolding is_space
  key_char c = any (λ d. c == d) (codes "_.-[]") || is_space c || is_alphanumeric c

  -- `scan_key`, behind the characters of the key so far.
  unfoldable pub scan_key : Bytes → Bytes → Option KeyScan
  unfolding key_char
  scan_key key [] = some (record { key = key; left = []; inherited = true })
  scan_key key (c ∷ cs) =
      let rest = scan_key (key ++ c ∷ []) cs in
      if any (λ d. c == d) (61 ∷ 58 ∷ 10 ∷ [])
      then some (record { key = key; left = cs; inherited = c == 10 })
      else if key_char c
      then rest
      else none

pub record EnvFile : Type 0 where
  pub entries : List (Bytes × Bytes × ℕ)
  pub errors : List (ℕ × Reason)
  pub warnings : List (ℕ × Bytes × Bytes)

-- What the loop goes on with, or the end of it at an unterminated quote.
pub data Next : Type 0 where
  go_on : Bytes → EnvFile → Next
  stop : EnvFile → Next

unfoldable pub complain : EnvFile → ℕ → Reason → EnvFile
complain file line reason = record {
  entries = file.entries;
  errors = file.errors ++ (line, reason) ∷ [];
  warnings = file.warnings;
}

unfoldable pub set : EnvFile → Bytes → Bytes → ℕ → EnvFile
unfolding insert
set file key value line = record {
  entries = insert key value line file.entries;
  errors = file.errors;
  warnings = file.warnings;
}

unfoldable pub inherit : EnvFile → Bytes → ℕ → Option Bytes → EnvFile
unfolding set
inherit file key line none = file
inherit file key line (some value) = set file key value line

pub warned : ℕ → Bytes → List Bytes → List (ℕ × Bytes × Bytes)
warned line key [] = []
warned line key (name ∷ unset) = (line, key, name) ∷ warned line key unset

-- What the substitution of a value makes of the file; a substitution out of fuel is a `none`.
unfoldable pub substituted :
    EnvFile → Bytes → ℕ → Option (Result Bytes TemplateError × List Bytes) → Option EnvFile
unfolding set complain warned
substituted file key line none = none
substituted file key line (some (ok value, unset)) = some (
    set
      (record {
        entries = file.entries;
        errors = file.errors;
        warnings = file.warnings ++ warned line key unset;
      })
      key value line)
substituted file key line (some (err e, unset)) = some (complain file line (bad_template key e))

or_else : Option Bytes → Option Bytes → Option Bytes
or_else none other = other
or_else (some v) other = some v

module _ (is_alphanumeric : ℕ → Bool) (process earlier : Lookup) (text : Bytes) where
  pub lookup : EnvFile → Lookup
  unfolding or_else get
  lookup file name = or_else (process name) (or_else (get file.entries name) (earlier name))

  pub next : Bytes → Option EnvFile → Option Next
  next left none = none
  next left (some file) = some (go_on left file)

  -- A statement with a value, behind `extract_value`.
  pub valued : EnvFile → Bytes → ℕ → Result Extracted ValueError → Option Next
  unfolding complain substituted substitute lookup set next
  valued file key line (err e) = some (stop (complain file line unterminated_quote))
  valued file key line (ok (raw, true, left)) =
      next left (substituted file key line (substitute (lookup file) (suc (length raw)) raw []))
  valued file key line (ok (raw, false, left)) = some (go_on left (set file key raw line))

  -- A statement, behind `scan_key`; the error goes on at the next line.
  pub scanned : EnvFile → ℕ → Bytes → Option KeyScan → Option Next
  unfolding complain inherit lookup valued next_line trim_end extract_value is_space
      trim_start_matches
  scanned file line start none =
      some (go_on (next_line start) (complain file line unexpected_character))
  scanned file line start (some scan) =
      let key = trim_end scan.key in
      let assigned = valued file key line (extract_value (trim_start_matches is_space scan.left)) in
      if any (λ c. c == 32) key
      then some (go_on (next_line start) (complain file line key_with_space))
      else if scan.inherited
      then some (go_on scan.left (inherit file key line (lookup file key)))
      else assigned

  -- One pass of the loop, at a statement.
  pub statement : EnvFile → Bytes → Option Next
  unfolding scanned scan_key strip_export line_of
  statement file start =
      scanned file (line_of text start) start (scan_key is_alphanumeric [] (strip_export start))

  pub continue : (Bytes → EnvFile → Option EnvFile) → Option Next → Option EnvFile
  continue loop none = none
  continue loop (some (go_on left file)) = loop left file
  continue loop (some (stop file)) = some file

  pub at_start : (Bytes → EnvFile → Option EnvFile) → EnvFile → Option Bytes → Option EnvFile
  unfolding continue statement
  at_start loop file none = some file
  at_start loop file (some start) = continue loop (statement file start)

  -- The loop over the statements, on fuel.
  unfoldable pub parse_loop : ℕ → Bytes → EnvFile → Option EnvFile
  unfolding at_start start_from
  parse_loop zero left file = none
  parse_loop (suc fuel) left file = at_start (parse_loop fuel) file (start_from false left)

or_text : Bytes → Option Bytes → Bytes
or_text text none = text
or_text text (some rest) = rest

parsed : Option EnvFile → Option (Result EnvFile (List (ℕ × Reason)))
parsed none = none
parsed (some file) = some (of_errors file.errors)
  where
    of_errors : List (ℕ × Reason) → Result EnvFile (List (ℕ × Reason))
    of_errors [] = ok file
    of_errors (e ∷ es) = err (e ∷ es)

-- `parse`
unfoldable pub parse :
    (ℕ → Bool) → Lookup → Lookup → Bytes → Option (Result EnvFile (List (ℕ × Reason)))
unfolding parse_loop or_text strip_prefix parsed
parse is_alphanumeric process earlier text =
    let text' = or_text text (strip_prefix (0xfeff ∷ []) text) in
    parsed (
      parse_loop is_alphanumeric process earlier text' (suc (length text')) text'
        (record { entries = []; errors = []; warnings = [] }))
