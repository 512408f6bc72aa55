-- ===== src/Config/Template/Tests.antt =====
-- Substitution of single templates.
use dbmcp.Prelude.{
  ◌++◌, ◌<◌, length, List, Result, arith, true, ◌≡◌, refl, Bytes, codes, [], ◌∷◌, Option, none,
  some, bytes_eq, if◌then◌else◌, err, ok,
}
use dbmcp.Config.Template.Escapes.{escape, Apart, substitute-escape, substitute-braces}
use dbmcp.Config.Template.Ends.{substitute-returns}
use dbmcp.Config.Template.{
  TemplateError, is_name_start, is_name_char, Lookup, missing_required, substitute,
}

abbrev one_set : Lookup
one_set name = if bytes_eq name (codes "A") then some (codes "v") else none

default_of_unset :
    substitute one_set 30 (codes "x${B:-d$A}y$$z$B") [] ≡ some (ok (codes "xdvy$z"), codes "B" ∷ [])
unfolding substitute
default_of_unset = refl

required :
    substitute one_set 30 (codes "$C${B?no $A}") []
    ≡ some (err (missing_required (codes "B") (codes "no v")), codes "C" ∷ [])
unfolding substitute
required = refl

greedy_rest : substitute one_set 30 (codes "${A+x}y}") [] ≡ some (ok (codes "xy}"), [])
unfolding substitute
greedy_rest = refl

escapes : escape (codes "a$b") ≡ codes "a$$b"
unfolding escape
escapes = refl

length_of : length (escape (codes "a$b")) < 9
unfolding escape
length_of = omega arith

substitute-escape_example :
    substitute one_set 9 (escape (codes "a$b")) [] ≡ some (ok (codes "a$b"), [])
substitute-escape_example = substitute-escape one_set 9 (codes "a$b") [] length_of

substitute-returns_example :
    (r : Result Bytes TemplateError × List Bytes) × (substitute one_set 13 (codes "${B:-x${A}y}") []
      ≡ some r)
substitute-returns_example = substitute-returns one_set 13 (codes "${B:-x${A}y}") [] (omega arith)

start_of : is_name_start 65 ≡ true
unfolding is_name_start dbmcp.Prelude.is_ascii_lowercase dbmcp.Prelude.is_ascii_uppercase
start_of = refl

dash-Apart : Apart (codes "-z")
unfolding Apart is_name_char dbmcp.Prelude.is_ascii_alphanumeric dbmcp.Prelude.is_ascii_digit
    dbmcp.Prelude.is_ascii_lowercase dbmcp.Prelude.is_ascii_uppercase
dash-Apart = refl

substitute-braces_example :
    substitute one_set 9 (codes "${" ++ (65 ∷ [] ++ 125 ∷ codes "-z")) []
    ≡ substitute one_set 9 (codes "$" ++ (65 ∷ [] ++ codes "-z")) []
substitute-braces_example = substitute-braces one_set 9 65 [] (codes "-z") [] start_of tt dash-Apart
