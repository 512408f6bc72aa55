-- ===== src/Server/Listing/Paging.antt =====
-- Pages of listing.rs, followed by a client from cursor to cursor.
use native.Mathlib.Nat.{min-eq_left}
use native.Mathlib.Decide.{dec_le}
use native.Mathlib.Numerals.{add-one}
use dbmcp.Prelude.{
  le→leb, ap, ◌∙◌, lt→ltb, le→ltb, take-take-suc, take_all, ℕ, zero, suc, ◌+◌, ◌^◌, ◌-◌, ◌≤◌, ◌<◌,
  List, ◌++◌, ◌≡◌, Option, none, some, Result, ok, err, arith, length, take, drop, length-take,
  length-drop, take-append-drop, drop-drop,
}
use dbmcp.Server.Listing.{
  u64_max, Cursor, Page, i64_max, bound_offset, bound_limit, split, paginate,
}

-- A backend that holds `rows` in a fixed order and answers `LIMIT` and `OFFSET` as bound.
abbrev pub table_fetch : {T E : Type 0} → List T → Page → Result (List T) E
table_fetch rows page = ok (take (bound_limit page) (drop (bound_offset page) rows))

abbrev pub u16_max : ℕ
u16_max = 2 ^ 16 - 1

-- A client that asks for pages until none follows; `none` means that the fuel ran out.
module _ {T E : Type 0} (page_size : ℕ) (fetch : Page → Result (List T) E) where
  unfoldable pub follow : ℕ → Option Cursor → Option (Result (List T) E)
  follow zero cursor = none
  follow (suc fuel) cursor = elim (paginate cursor page_size fetch) [
    | err e ↦ some (err e)
    | ok (page, none) ↦ some (ok page)
    | ok (page, some next) ↦ elim (follow fuel (some next)) [
      | none ↦ none
      | some (err e) ↦ some (err e)
      | some (ok rest) ↦ some (ok (page ++ rest))
    ]
  ]

module _ {T : Type 0} (page_size offset : ℕ) (rows : List T) where
  abbrev rest : List T
  rest = drop offset rows

  abbrev fetched : List T
  fetched = take (suc page_size) rest

  -- The last page: everything that is left.
  split_last :
      length rest ≤ page_size
      → split (record { offset = offset; size = page_size }) fetched ≡ (rest, none)
  unfolding split
  split_last short =
      rw (take_all (suc page_size) rest (omega arith), le→ltb page_size (length rest) short)

  -- A page before it: the lookahead row is dropped, and the cursor is behind the page.
  split_inner :
      page_size < length rest
      → offset + page_size ≤ u64_max
      → split (record { offset = offset; size = page_size }) fetched
        ≡ (take page_size rest, some (record { offset = offset + page_size }))
  unfolding split
  split_inner long fits = rw (
    length-take (suc page_size) rest long,
    lt→ltb page_size (suc page_size) (omega arith),
    take-take-suc page_size rest,
    min-eq_left fits,
  )

module _ {T E : Type 0} (page_size : ℕ) (rows : List T) where
  paginate_table :
      (offset : ℕ)
      → offset ≤ i64_max
      → paginate (some (record { offset = offset })) page_size (table_fetch {E = E} rows)
        ≡ ok (split (record { offset = offset; size = page_size }) (fetched page_size offset rows))
  unfolding paginate bound_offset bound_limit
  paginate_table offset fits = rw (le→leb offset i64_max fits, add-one)

  module _ (pos : 0 < page_size) (small : page_size ≤ u16_max) (fits : length rows ≤ i64_max) where
    follow_table :
        (fuel offset : ℕ)
        → offset ≤ length rows
        → length rows < fuel + offset
        → follow page_size (table_fetch {E = E} rows) fuel (some (record { offset = offset }))
          ≡ some (ok (drop offset rows))
    unfolding follow
    follow_table zero offset inside enough = absurd (omega arith)
    follow_table (suc fuel) offset inside enough =
        elim (dec_le (length (drop offset rows)) page_size) [
          | yes short ↦ rw (
            paginate_table offset (omega arith) ∙ ap ok (split_last page_size offset rows short),
            follow,
          )
          | no long ↦
              let left : length (drop offset rows) ≡ length rows - offset =
                length-drop offset rows in
              let longer : page_size < length (drop offset rows) = omega arith in
              rw (
                paginate_table offset (omega arith)
                    ∙ ap ok (split_inner page_size offset rows longer (omega arith)),
                follow,
                follow_table fuel (offset + page_size) (omega arith) (omega arith),
                ← drop-drop page_size offset rows,
                take-append-drop,
              )
        ]

    -- Starting with no cursor and following `next_cursor`, a client of a backend that holds `rows`
    -- gets every row once and in order, after at most one request more than there are rows, for
    -- every page size from 1 to 65535 and up to 2^63 - 1 rows.
    pub follow-all :
        (fuel : ℕ)
        → length rows < fuel
        → follow page_size (table_fetch {E = E} rows) fuel none ≡ some (ok rows)
    unfolding follow paginate
    follow-all (suc fuel) enough = follow_table (suc fuel) 0 (omega arith) (omega arith)
    follow-all zero enough = absurd (omega arith)
