-- ===== src/Server/Listing/Tests.antt =====
-- Pages and cursors at examples.
use dbmcp.Prelude.{
  ℕ, ◌≡◌, ◌≤◌, refl, Bytes, codes, List, [], ◌∷◌, true, false, Option, none, some, Result, ok, err,
  arith, All, is_whitespace,
}
use dbmcp.Server.Listing.{
  Page, ListEntriesResponse, brief, list_entries, split, encode_cursor, decode_cursor, not_base64,
}
use dbmcp.Server.Listing.Paging.{table_fetch, follow, follow-all}
use dbmcp.Server.Listing.Entries.{count, list_entries-bounded}

abbrev names : List Bytes
names = codes "a" ∷ codes "b" ∷ codes "c" ∷ []

abbrev brief_rows : Page → Option Bytes → Result (List Bytes) ℕ
brief_rows page pattern = ok names

abbrev full_rows : Page → Option Bytes → Result (List (Bytes × ℕ)) ℕ
full_rows page pattern = ok []

abbrev first_page : ListEntriesResponse ℕ
first_page = record {
  entries = brief (codes "a" ∷ codes "b" ∷ []);
  next_cursor = some (record { offset = 2 });
}

lists : list_entries none 2 none false brief_rows full_rows ≡ ok first_page
unfolding list_entries split
lists = refl

follow-all_example : follow 2 (table_fetch {E = ℕ} names) 4 none ≡ some (ok names)
follow-all_example = follow-all 2 names (omega arith) (omega arith) (omega arith) 4 (omega arith)

list_entries-bounded_example : count first_page.entries ≤ 2
list_entries-bounded_example = list_entries-bounded none 2 none brief_rows full_rows false lists

blank : All (λ c. is_whitespace c ≡ true) (codes "  ")
unfolding is_whitespace
blank = (refl, (refl, tt))

-- A cursor through libraries that write a number as one byte.
abbrev one_byte : Bytes → Option ℕ
one_byte [] = none
one_byte (n ∷ s) = some n

cursor_round_trip :
    decode_cursor
      (λ n. n ∷ [])
      one_byte
      (λ s. 0 ∷ s)
      some
      (encode_cursor (λ n. n ∷ []) one_byte (λ s. s) some 7)
    ≡ ok 7
unfolding decode_cursor encode_cursor
cursor_round_trip = refl

cursor_not_base64 :
    decode_cursor (λ n. n ∷ []) one_byte (λ s. s) (λ s. none) (codes "!") ≡ err not_base64
unfolding decode_cursor
cursor_not_base64 = refl
