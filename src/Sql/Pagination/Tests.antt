-- ===== src/Sql/Pagination/Tests.antt =====
-- The wrapped statement at the examples of the tests.
use dbmcp.Prelude.{
  ℕ, ◌+◌, ◌≡◌, refl, Bytes, codes, [], ◌∷◌, ◌++◌, none, All, is_whitespace, true, trim_end,
}
use dbmcp.Sql.Pagination.{strip_suffix, with_limit_offset}
use dbmcp.Sql.Pagination.Semicolon.{with_limit_offset_semicolon}

-- A digit.
abbrev print_digit : ℕ → Bytes
print_digit n = (48 + n) ∷ []

abbrev select_one : Bytes
select_one = codes "SELECT 1"

wraps :
    with_limit_offset print_digit (codes "SELECT 1 ;\n") 3 0
    ≡ codes "SELECT * FROM (SELECT 1\n) AS paginated LIMIT 3 OFFSET 0"
unfolding with_limit_offset
wraps = refl

spaces : All (λ c. is_whitespace c ≡ true) (codes " \n")
unfolding is_whitespace
spaces = (refl, (refl, tt))

no_semicolon : strip_suffix b';' (trim_end select_one) ≡ none
unfolding strip_suffix trim_end
no_semicolon = refl

with_limit_offset_semicolon_example :
    (with_limit_offset print_digit (select_one ++ b';' ∷ codes " \n") 3 0
      ≡ with_limit_offset print_digit select_one 3 0)
    × (with_limit_offset print_digit (select_one ++ codes " \n") 3 0
        ≡ with_limit_offset print_digit select_one 3 0)
with_limit_offset_semicolon_example =
    with_limit_offset_semicolon print_digit select_one (codes " \n") 3 0 spaces no_semicolon
