-- ===== src/Pii/Redactor/Json.antt =====
-- The `serde_json::Value` of crates/pii/src/redact.rs, and where a `&mut Value` of its frames points
-- to: the positions of the children on the way from the rows. A number is its text.
use dbmcp.Prelude.{ℕ, zero, suc, Bytes, List, [], ◌∷◌, Bool, Option, none, some}

mutual
  pub data Value : Type 0 where
    null : Value
    bool : Bool → Value
    number : Bytes → Value
    string : Bytes → Value
    array : Items → Value
    object : Fields → Value

  pub data Items : Type 0 where
    no_items : Items
    item : Value → Items → Items

  pub data Fields : Type 0 where
    no_fields : Fields
    field : Bytes → Value → Fields → Fields

abbrev pub Loc : Type 0
Loc = List ℕ

-- The value behind a pointer.
unfoldable mutual
  pub at : Loc → Value → Option Value
  at [] v = some v
  at (i ∷ is) null = none
  at (i ∷ is) (bool b) = none
  at (i ∷ is) (number n) = none
  at (i ∷ is) (string s) = none
  at (i ∷ is) (array vs) = at_items i is vs
  at (i ∷ is) (object fs) = at_fields i is fs

  pub at_items : ℕ → Loc → Items → Option Value
  at_items i is no_items = none
  at_items zero is (item v vs) = at is v
  at_items (suc i) is (item v vs) = at_items i is vs

  pub at_fields : ℕ → Loc → Fields → Option Value
  at_fields i is no_fields = none
  at_fields zero is (field k v fs) = at is v
  at_fields (suc i) is (field k v fs) = at_fields i is fs

-- A write through a pointer.
unfoldable mutual
  pub put : Loc → Value → Value → Value
  put [] w v = w
  put (i ∷ is) w null = null
  put (i ∷ is) w (bool b) = bool b
  put (i ∷ is) w (number n) = number n
  put (i ∷ is) w (string s) = string s
  put (i ∷ is) w (array vs) = array (put_items i is w vs)
  put (i ∷ is) w (object fs) = object (put_fields i is w fs)

  pub put_items : ℕ → Loc → Value → Items → Items
  put_items i is w no_items = no_items
  put_items zero is w (item v vs) = item (put is w v) vs
  put_items (suc i) is w (item v vs) = item v (put_items i is w vs)

  pub put_fields : ℕ → Loc → Value → Fields → Fields
  put_fields i is w no_fields = no_fields
  put_fields zero is w (field k v fs) = field k (put is w v) fs
  put_fields (suc i) is w (field k v fs) = field k v (put_fields i is w fs)
