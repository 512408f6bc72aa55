-- ===== src/Server/Listing.antt =====
-- crates/server/src/listing.rs: pages of rows, and the cursors between them. The backend's fetch is
-- an argument. `u64`, `u16` and `i64` values are numbers in range; no operation here wraps around.
pub mod Paging
pub mod Entries
mod Tests
use Prim.Native.Nat.{min}
use dbmcp.Prelude.{
  ℕ, ◌+◌, ◌-◌, ◌^◌, Bytes, List, [], ◌∷◌, Bool, true, false, Option, none, some, Result, ok, err,
  ◌>>=◌, ltb, leb, if◌then◌else◌, length, take, trim, bytes_eq,
}

pub record Cursor : Type 0 where
  pub offset : ℕ

pub record Page : Type 0 where
  pub offset : ℕ
  pub size : ℕ

abbrev pub i64_max : ℕ
i64_max = 2 ^ 63 - 1

abbrev pub u64_max : ℕ
u64_max = 2 ^ 64 - 1

-- `Page::offset`: `i64::try_from(..).unwrap_or(i64::MAX)`
unfoldable pub bound_offset : Page → ℕ
bound_offset page = if leb page.offset i64_max then page.offset else i64_max

-- `Page::limit`
unfoldable pub bound_limit : Page → ℕ
bound_limit page = page.size + 1

-- `u64::saturating_add`
saturating_add : ℕ → ℕ → ℕ
saturating_add a b = min (a + b) u64_max

-- `cursor.map_or(0, |c| c.offset)`
cursor_offset : Option Cursor → ℕ
cursor_offset none = 0
cursor_offset (some c) = c.offset

module _ {T : Type 0} where
  unfoldable pub split : Page → List T → List T × Option Cursor
  unfolding saturating_add
  split page items =
      if ltb page.size (length items)
      then (take page.size items, some (record { offset = saturating_add page.offset page.size }))
      else (items, none)

  unfoldable pub paginate :
      {E : Type 0}
      → Option Cursor
      → ℕ
      → (Page → Result (List T) E)
      → Result (List T × Option Cursor) E
  unfolding cursor_offset
  paginate cursor page_size fetch = do
    let page : Page = record { offset = cursor_offset cursor; size = page_size }
    rows ← fetch page
    ok (split page rows)

-- `IndexMap::from_iter`: a repeated key keeps its place and takes the later value.
module _ {V : Type 0} where
  insert : List (Bytes × V) → Bytes → V → List (Bytes × V)
  insert [] k v = (k, v) ∷ []
  insert ((j, w) ∷ m) k v = if bytes_eq j k then (j, v) ∷ m else (j, w) ∷ insert m k v

  collect : List (Bytes × V) → List (Bytes × V) → List (Bytes × V)
  unfolding insert bytes_eq
  collect m [] = m
  collect m ((k, v) ∷ rows) = collect (insert m k v) rows

pub data ListEntries (V : Type 0) : Type 0 where
  brief : List Bytes → ListEntries V
  detailed : List (Bytes × V) → ListEntries V

pub record ListEntriesResponse (V : Type 0) : Type 0 where
  pub entries : ListEntries V
  pub next_cursor : Option Cursor

-- `Option::filter(|s| !s.is_empty())`
non_empty : Bytes → Option Bytes
non_empty [] = none
non_empty (c ∷ s) = some (c ∷ s)

-- `search.map(str::trim).filter(|s| !s.is_empty())`
search_pattern : Option Bytes → Option Bytes
unfolding trim non_empty
search_pattern none = none
search_pattern (some s) = non_empty (trim s)

module _ {V E : Type 0} where
  pub list_entries :
      Option Cursor
      → ℕ
      → Option Bytes
      → Bool
      → (Page → Option Bytes → Result (List Bytes) E)
      → (Page → Option Bytes → Result (List (Bytes × V)) E)
      → Result (ListEntriesResponse V) E
  unfolding paginate search_pattern collect
  list_entries cursor page_size filter true brief_rows full_rows = do
    let pattern = search_pattern filter
    (rows, next) ← paginate cursor page_size (λ page. full_rows page pattern)
    ok (record { entries = detailed (collect [] rows); next_cursor = next })
  list_entries cursor page_size filter false brief_rows full_rows = do
    let pattern = search_pattern filter
    (names, next) ← paginate cursor page_size (λ page. brief_rows page pattern)
    ok (record { entries = brief names; next_cursor = next })

-- `encode_cursor` and `decode_cursor` over the JSON and base64 libraries.
pub data CursorError : Type 0 where
  not_base64 malformed : CursorError

module _ (to_vec : ℕ → Bytes) (from_slice : Bytes → Option ℕ) (encode : Bytes → Bytes)
    (decode : Bytes → Option Bytes) where
  pub encode_cursor : ℕ → Bytes
  encode_cursor offset = encode (to_vec offset)

  abbrev or_error : {A : Type 0} → Option A → CursorError → Result A CursorError
  or_error none e = err e
  or_error (some a) e = ok a

  pub decode_cursor : Bytes → Result ℕ CursorError
  decode_cursor raw = do
    bytes ← or_error (decode raw) not_base64
    or_error (from_slice bytes) malformed
