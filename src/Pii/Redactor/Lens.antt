-- ===== src/Pii/Redactor/Lens.antt =====
-- Where the pointers of crates/pii/src/redact.rs point to, as a context around the value.
use dbmcp.Prelude.{ℕ, zero, suc, ◌+◌, ◌≡◌, ap, ◌∙◌, Bytes, List, [], ◌∷◌, ◌++◌, length, some, arith}
use dbmcp.Pii.Redactor.Json.{
  Value, null, bool, number, string, array, object, Items, no_items, item, Fields, no_fields, field,
  Loc, at, at_items, at_fields, put, put_items, put_fields,
}

-- The items behind those that were passed, the last first.
unfoldable pub behind : List Value → Items → Items
behind [] vs = vs
behind (v ∷ pre) vs = behind pre (item v vs)

unfoldable pub behind_fields : List (Bytes × Value) → Fields → Fields
behind_fields [] fs = fs
behind_fields ((k, v) ∷ pre) fs = behind_fields pre (field k v fs)

-- `plug v` has `v` at the pointer, and a write through it changes nothing but that.
abbrev pub Lens : Loc → (Value → Value) → Type 0
Lens loc plug =
    (v : Value) → (at loc (plug v) ≡ some v) × ((w : Value) → put loc w (plug v) ≡ plug w)

mutual
  unfolding at

  at-append : (is js : Loc) (v w : Value) → at is v ≡ some w → at (is ++ js) v ≡ at js w
  at-append [] js v w e = ground arith
  at-append (i ∷ is) js null w e = ground arith
  at-append (i ∷ is) js (bool b) w e = ground arith
  at-append (i ∷ is) js (number n) w e = ground arith
  at-append (i ∷ is) js (string s) w e = ground arith
  at-append (i ∷ is) js (array vs) w e = at_items-append i is js vs w e
  at-append (i ∷ is) js (object fs) w e = at_fields-append i is js fs w e

  at_items-append :
      (i : ℕ) (is js : Loc) (vs : Items) (w : Value)
      → at_items i is vs ≡ some w
      → at_items i (is ++ js) vs ≡ at js w
  at_items-append i is js no_items w e = ground arith
  at_items-append zero is js (item v vs) w e = at-append is js v w e
  at_items-append (suc i) is js (item v vs) w e = at_items-append i is js vs w e

  at_fields-append :
      (i : ℕ) (is js : Loc) (fs : Fields) (w : Value)
      → at_fields i is fs ≡ some w
      → at_fields i (is ++ js) fs ≡ at js w
  at_fields-append i is js no_fields w e = ground arith
  at_fields-append zero is js (field k v fs) w e = at-append is js v w e
  at_fields-append (suc i) is js (field k v fs) w e = at_fields-append i is js fs w e

mutual
  unfolding at put

  put-append :
      (is js : Loc) (v w x : Value) → at is v ≡ some w → put (is ++ js) x v ≡ put is (put js x w) v
  put-append [] js v w x e = ground arith
  put-append (i ∷ is) js null w x e = ground arith
  put-append (i ∷ is) js (bool b) w x e = ground arith
  put-append (i ∷ is) js (number n) w x e = ground arith
  put-append (i ∷ is) js (string s) w x e = ground arith
  put-append (i ∷ is) js (array vs) w x e = ap array (put_items-append i is js vs w x e)
  put-append (i ∷ is) js (object fs) w x e = ap object (put_fields-append i is js fs w x e)

  put_items-append :
      (i : ℕ) (is js : Loc) (vs : Items) (w x : Value)
      → at_items i is vs ≡ some w
      → put_items i (is ++ js) x vs ≡ put_items i is (put js x w) vs
  put_items-append i is js no_items w x e = ground arith
  put_items-append zero is js (item v vs) w x e = ap (λ u. item u vs) (put-append is js v w x e)
  put_items-append (suc i) is js (item v vs) w x e = ap (item v) (put_items-append i is js vs w x e)

  put_fields-append :
      (i : ℕ) (is js : Loc) (fs : Fields) (w x : Value)
      → at_fields i is fs ≡ some w
      → put_fields i (is ++ js) x fs ≡ put_fields i is (put js x w) fs
  put_fields-append i is js no_fields w x e = ground arith
  put_fields-append zero is js (field k v fs) w x e =
      ap (λ u. field k u fs) (put-append is js v w x e)
  put_fields-append (suc i) is js (field k v fs) w x e =
      ap (field k v) (put_fields-append i is js fs w x e)

at_items-behind :
    (pre : List Value) (j : ℕ) (is : Loc) (vs : Items)
    → at_items (length pre + j) is (behind pre vs) ≡ at_items j is vs
unfolding behind at
at_items-behind [] j is vs = ap (λ n. at_items n is vs) (omega arith)
at_items-behind (v ∷ pre) j is vs =
    ap (λ n. at_items n is (behind pre (item v vs))) (omega arith)
    ∙ at_items-behind pre (suc j) is (item v vs)

at_fields-behind :
    (pre : List (Bytes × Value)) (j : ℕ) (is : Loc) (fs : Fields)
    → at_fields (length pre + j) is (behind_fields pre fs) ≡ at_fields j is fs
unfolding behind_fields at
at_fields-behind [] j is fs = ap (λ n. at_fields n is fs) (omega arith)
at_fields-behind ((k, v) ∷ pre) j is fs =
    ap (λ n. at_fields n is (behind_fields pre (field k v fs))) (omega arith)
    ∙ at_fields-behind pre (suc j) is (field k v fs)

put_items-behind :
    (pre : List Value) (j : ℕ) (is : Loc) (w : Value) (vs : Items)
    → put_items (length pre + j) is w (behind pre vs) ≡ behind pre (put_items j is w vs)
unfolding behind put
put_items-behind [] j is w vs = ap (λ n. put_items n is w vs) (omega arith)
put_items-behind (v ∷ pre) j is w vs =
    ap (λ n. put_items n is w (behind pre (item v vs))) (omega arith)
    ∙ put_items-behind pre (suc j) is w (item v vs)

put_fields-behind :
    (pre : List (Bytes × Value)) (j : ℕ) (is : Loc) (w : Value) (fs : Fields)
    → put_fields (length pre + j) is w (behind_fields pre fs)
      ≡ behind_fields pre (put_fields j is w fs)
unfolding behind_fields put
put_fields-behind [] j is w fs = ap (λ n. put_fields n is w fs) (omega arith)
put_fields-behind ((k, v) ∷ pre) j is w fs =
    ap (λ n. put_fields n is w (behind_fields pre (field k v fs))) (omega arith)
    ∙ put_fields-behind pre (suc j) is w (field k v fs)

-- The pointer to an element of an array.
pub Lens-item :
    (loc : Loc) (plug : Value → Value) (pre : List Value) (vs : Items)
    → Lens loc plug
    → Lens (loc ++ length pre ∷ []) (λ v. plug (array (behind pre (item v vs))))
unfolding at put
Lens-item loc plug pre vs lens v =
    let here : at_items (length pre) [] (behind pre (item v vs)) ≡ some v =
      ap (λ n. at_items n [] (behind pre (item v vs))) (omega arith)
      ∙ at_items-behind pre 0 [] (item v vs) in
    let (found, written) = lens (array (behind pre (item v vs))) in
    (
      at-append loc (length pre ∷ []) (plug (array (behind pre (item v vs))))
            (array (behind pre (item v vs))) found
          ∙ here,
      λ w.
          put-append loc (length pre ∷ []) (plug (array (behind pre (item v vs))))
            (array (behind pre (item v vs))) w found
          ∙ written (array (put_items (length pre) [] w (behind pre (item v vs))))
          ∙ ap (λ n. plug (array (put_items n [] w (behind pre (item v vs))))) (omega arith)
          ∙ ap (λ us. plug (array us)) (put_items-behind pre 0 [] w (item v vs)),
    )

-- The pointer to a child of an object.
pub Lens-field :
    (loc : Loc) (plug : Value → Value) (pre : List (Bytes × Value)) (k : Bytes) (fs : Fields)
    → Lens loc plug
    → Lens (loc ++ length pre ∷ []) (λ v. plug (object (behind_fields pre (field k v fs))))
unfolding at put
Lens-field loc plug pre k fs lens v =
    let here : at_fields (length pre) [] (behind_fields pre (field k v fs)) ≡ some v =
      ap (λ n. at_fields n [] (behind_fields pre (field k v fs))) (omega arith)
      ∙ at_fields-behind pre 0 [] (field k v fs) in
    let (found, written) = lens (object (behind_fields pre (field k v fs))) in
    (
      at-append loc (length pre ∷ []) (plug (object (behind_fields pre (field k v fs))))
            (object (behind_fields pre (field k v fs))) found
          ∙ here,
      λ w.
          put-append loc (length pre ∷ []) (plug (object (behind_fields pre (field k v fs))))
            (object (behind_fields pre (field k v fs))) w found
          ∙ written (object (put_fields (length pre) [] w (behind_fields pre (field k v fs))))
          ∙ ap (λ n. plug (object (put_fields n [] w (behind_fields pre (field k v fs)))))
              (omega arith)
          ∙ ap (λ us. plug (object us)) (put_fields-behind pre 0 [] w (field k v fs)),
    )
