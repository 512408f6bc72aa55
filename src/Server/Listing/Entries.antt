-- ===== src/Server/Listing/Entries.antt =====
-- What `paginate` and `list_entries` answer, whatever the backend returns.
use dbmcp.Prelude.{
  ℕ, ◌+◌, ◌≤◌, ◌≡◌, refl, Bytes, List, [], ◌∷◌, Bool, true, false, Option, none, some, Result, ok,
  err, ◌>>=◌, arith, length, length-take_le, trim_start, is_whitespace, All,
}
use dbmcp.Server.Listing.{
  Cursor, Page, split, insert, collect, ListEntries, brief, detailed, ListEntriesResponse,
  search_pattern, list_entries, cursor_offset,
}

split_bounded :
    {T : Type 0} (page : Page) (items : List T) → length (split page items).0 ≤ page.size
unfolding split
split_bounded page items = ground (arith, length-take_le page.size items)

abbrev pub count : {V : Type 0} → ListEntries V → ℕ
count (brief names) = length names
count (detailed rows) = length rows

module _ {V : Type 0} where
  length-insert : (m : List (Bytes × V)) (k : Bytes) (v : V) → length (insert m k v) ≤ length m + 1
  unfolding insert
  length-insert [] k v = omega arith
  length-insert ((j, w) ∷ m) k v = ground (arith, length-insert m k v)

  length-collect : (rows m : List (Bytes × V)) → length (collect m rows) ≤ length m + length rows
  unfolding collect
  length-collect [] m = omega arith
  length-collect ((k, v) ∷ rows) m =
      omega (arith, length-insert m k v, length-collect rows (insert m k v))

trim_start-blank : (s : Bytes) → All (λ c. is_whitespace c ≡ true) s → trim_start s ≡ []
unfolding trim_start
trim_start-blank [] h = refl
trim_start-blank (c ∷ s) (hc, hs) = rw hc (trim_start-blank s hs)

search_pattern-blank :
    (s : Bytes) → All (λ c. is_whitespace c ≡ true) s → search_pattern (some s) ≡ none
unfolding search_pattern
search_pattern-blank s h = rw (trim_start-blank s h)

module _ {V E : Type 0} (cursor : Option Cursor) (page_size : ℕ) (filter : Option Bytes)
    (brief_rows : Page → Option Bytes → Result (List Bytes) E)
    (full_rows : Page → Option Bytes → Result (List (Bytes × V)) E) where
  abbrev page : Page
  page = record { offset = cursor_offset cursor; size = page_size }

  -- A response holds at most `page_size` entries, in both modes, whatever the backend returned.
  pub list_entries-bounded :
      (mode : Bool) {r : ListEntriesResponse V}
      → list_entries cursor page_size filter mode brief_rows full_rows ≡ ok r
      → count r.entries ≤ page_size
  unfolding list_entries
  list_entries-bounded true {r} h = bound (full_rows page (search_pattern filter)) h
    where
      bound :
          (m : Result (List (Bytes × V)) E)
          → ((m >>= λ rows. ok (split page rows)) >>= λ p.
              ok (record { entries = detailed (collect [] p.0); next_cursor = p.1 }))
            ≡ ok r
          → count r.entries ≤ page_size
      bound (ok rows) h =
          grind (arith, length-collect (split page rows).0 [], split_bounded page rows)
      bound (err e) h = cc
  list_entries-bounded false {r} h = bound (brief_rows page (search_pattern filter)) h
    where
      bound :
          (m : Result (List Bytes) E)
          → ((m >>= λ rows. ok (split page rows)) >>= λ p.
              ok (record { entries = brief p.0; next_cursor = p.1 }))
            ≡ ok r
          → count r.entries ≤ page_size
      bound (ok rows) h = grind (arith, split_bounded page rows)
      bound (err e) h = cc

  -- A search that holds only white space is no search.
  pub list_entries-blank :
      (mode : Bool) (s : Bytes)
      → All (λ c. is_whitespace c ≡ true) s
      → list_entries cursor page_size (some s) mode brief_rows full_rows
        ≡ list_entries cursor page_size none mode brief_rows full_rows
  unfolding list_entries
  list_entries-blank true s h = rw (search_pattern-blank s h)
  list_entries-blank false s h = rw (search_pattern-blank s h)
