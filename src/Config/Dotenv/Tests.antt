-- ===== src/Config/Dotenv/Tests.antt =====
-- Env files with every kind of value.
use dbmcp.Prelude.{
  ℕ, ◌≡◌, refl, Bytes, codes, List, [], ◌∷◌, ◌++◌, length, true, Option, none, some, Result, ok,
  err, suc, arith, is_ascii_alphanumeric,
}
use dbmcp.Config.Template.{Lookup, substitute}
use dbmcp.Config.Dotenv.Values.{extract_value, expand_escapes}
use dbmcp.Config.Dotenv.Values.Quoted.{protect, extract-protect}
use dbmcp.Config.Dotenv.Ends.{parse_loop-returns}
use dbmcp.Config.Dotenv.{
  EnvFile, unexpected_character, unterminated_quote, parse_loop, parse, get, strip_export,
}

abbrev no_vars : Lookup
no_vars name = none

abbrev file_of : Bytes → Option (Result EnvFile (List (ℕ × dbmcp.Config.Dotenv.Reason)))
file_of text = parse is_ascii_alphanumeric no_vars no_vars text

abbrev nothing : EnvFile
nothing = record { entries = []; errors = []; warnings = [] }

reads_lines :
    file_of (codes "# c\nexport A=1 # one\nB: \"x\\t${A}\"\nA='$A'\n")
    ≡ some (
        ok (record {
          entries = (codes "A", codes "$A", 4) ∷ (codes "B", 120 ∷ 9 ∷ 49 ∷ [], 3) ∷ [];
          errors = [];
          warnings = [];
        }))
unfolding parse
reads_lines = refl

collects_errors :
    file_of (codes "A!=1\nB=\"x\n")
    ≡ some (err ((1, unexpected_character) ∷ (2, unterminated_quote) ∷ []))
unfolding parse
collects_errors = refl

octal_escape : expand_escapes (codes "\\0101\\08") ≡ codes "A\\08"
unfolding expand_escapes
octal_escape = refl

extract-protect_example :
    (template : Bytes) × (extract_value (34 ∷ protect (codes "a\"$b\\") ++ 34 ∷ codes "\nC=1")
      ≡ ok (template, true, codes "\nC=1"))
    × ((unset : List Bytes)
        → substitute no_vars (suc (length template)) template unset
          ≡ some (ok (codes "a\"$b\\"), unset))
extract-protect_example = extract-protect no_vars (codes "a\"$b\\") (codes "\nC=1")

parse_loop-returns_example :
    (file : EnvFile) × (parse_loop is_ascii_alphanumeric no_vars no_vars
        (codes "A=1")
        4
        (codes "A=1")
        nothing
      ≡ some file)
parse_loop-returns_example =
    parse_loop-returns is_ascii_alphanumeric no_vars no_vars (codes "A=1") 4 (codes "A=1") nothing
      (omega arith)
