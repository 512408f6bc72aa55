-- ===== src/Pii/Redactor/Walk.antt =====
-- The traversal that crates/pii/src/redact.rs makes, without its stack, its shared path and its
-- pointers.
use dbmcp.Prelude.{
  ℕ, suc, ◌+◌, ◌-◌, ◌≡◌, refl, sym, ap, ◌∙◌, Bytes, List, [], ◌∷◌, ◌++◌, length, take,
  length-append, take-append, take_all, not, split_with, is_ascii_alphanumeric, Option, some, none,
  arith,
}
use dbmcp.Prelude.Opt.{◌>>=◌}
use dbmcp.Pii.Words.{push_key_words, key_words}
use dbmcp.Pii.Redactor.Json.{
  Value, null, bool, number, string, array, object, Items, no_items, item, Fields, no_fields, field,
  Loc, put,
}
use dbmcp.Pii.Redactor.Lens.{Lens, Lens-item, Lens-field, behind, behind_fields}
use dbmcp.Pii.Redactor.{
  Frame, root, keyed_child, pop, Gathered, Walker, push_fields, push_items, row_frames, visit,
  enter, step, run, weight, weight_items, weight_fields,
}

bind_some :
    {A B C : Type 0} (m : Option A) (f : A → B) (h : B → Option C)
    → ((m >>= λ a. some (f a)) >>= h) ≡ (m >>= λ a. h (f a))
bind_some none f h = refl
bind_some (some a) f h = refl

bind_bind :
    {A B C D : Type 0} (m : Option A) (n : A → Option B) (f : A → B → C) (h : C → Option D)
    → ((m >>= λ a. n a >>= λ b. some (f a b)) >>= h) ≡ (m >>= λ a. n a >>= λ b. h (f a b))
bind_bind none n f h = refl
bind_bind (some a) n f h = bind_some (n a) (f a) h

bind_cong :
    {A B : Type 0} (m : Option A) (f g : A → Option B)
    → ((a : A) → f a ≡ g a)
    → (m >>= f) ≡ (m >>= g)
bind_cong none f g e = refl
bind_cong (some a) f g e = e a

-- The words of a key behind those of the keys above it.
abbrev pub below : List Bytes → Bytes → List Bytes
below path key = (push_key_words path key).0

module _ (leaf : Loc → List Bytes → Bytes → Gathered → Option (Bytes × Gathered)) where
  -- Each leaf under the words of the keys above it; the last child first.
  unfoldable mutual
    pub walk : Loc → List Bytes → Value → Gathered → Option (Value × Gathered)
    walk loc path null g = some (null, g)
    walk loc path (bool b) g = some (bool b, g)
    walk loc path (number n) g = some (number n, g)
    walk loc path (string s) g = do (s', g') ← leaf loc path s g; some (string s', g')
    walk loc path (array vs) g = do (vs', g') ← walk_items loc path 0 vs g; some (array vs', g')
    walk loc path (object fs) g = do (fs', g') ← walk_fields loc path 0 fs g; some (object fs', g')

    pub walk_items : Loc → List Bytes → ℕ → Items → Gathered → Option (Items × Gathered)
    walk_items loc path i no_items g = some (no_items, g)
    walk_items loc path i (item v vs) g = do
      (vs', g') ← walk_items loc path (suc i) vs g
      (v', g'') ← walk (loc ++ i ∷ []) path v g'
      some (item v' vs', g'')

    pub walk_fields : Loc → List Bytes → ℕ → Fields → Gathered → Option (Fields × Gathered)
    walk_fields loc path i no_fields g = some (no_fields, g)
    walk_fields loc path i (field k v fs) g = do
      (fs', g') ← walk_fields loc path (suc i) fs g
      (v', g'') ← walk (loc ++ i ∷ []) (below path k) v g'
      some (field k v' fs', g'')

  -- The frames of a value but its own.
  inner : Value → ℕ
  unfolding weight
  inner (array vs) = weight_items vs
  inner (object fs) = weight_fields fs
  inner null = 0
  inner (bool b) = 0
  inner (number n) = 0
  inner (string s) = 0

  weight-inner : (v : Value) → weight v ≡ suc (inner v)
  unfolding weight inner
  weight-inner (array vs) = refl
  weight-inner (object fs) = refl
  weight-inner null = refl
  weight-inner (bool b) = refl
  weight-inner (number n) = refl
  weight-inner (string s) = refl

  -- The key words are appended, so that taking off as many leaves the path.
  take-push_key_words :
      (path : List Bytes) (key : Bytes)
      → take
          (length (push_key_words path key).0 - (push_key_words path key).1)
          (push_key_words path key).0
        ≡ path
  unfolding push_key_words
  take-push_key_words path key =
      let more = key_words (split_with (λ c. not (is_ascii_alphanumeric c)) key []) in
      let lengths = length-append path more in
      ap (λ n. take n (path ++ more)) (omega arith)
      ∙ take-append (length path) path more (omega arith)
      ∙ take_all (length path) path (omega arith)

  -- What is left to do after a value, where the walk of it returns.
  then : ℕ → List Frame → List Bytes → Value × Gathered → Option (Value × Gathered)
  unfolding run
  then k stack path (rows, g) = run leaf k stack path rows g

  -- The pass for a frame, and the passes after it.
  passes : ℕ → Walker → Option (Value × Gathered)
  unfolding run
  passes k w = run leaf k w.stack w.path w.rows w.gathered

  -- The match on a value, and the passes for the frames it pushes.
  Visited : Loc → (Value → Value) → Value → List Frame → List Bytes → Gathered → ℕ → Type 0
  Visited loc plug v stack path g k =
      (visit leaf loc (some v) (record { stack = stack; path = path; rows = plug v; gathered = g })
        >>= passes (inner v + k))
      ≡ (walk loc path v g >>= λ r. then k stack path (plug r.0, r.1))

  runs :
      (loc : Loc) (plug : Value → Value) (v : Value) (stack : List Frame) (path : List Bytes)
      (g : Gathered) (k : ℕ)
      → Lens loc plug
      → Visited loc plug v stack path g k
      → run leaf (weight v + k) (root loc ∷ stack) path (plug v) g
        ≡ (walk loc path v g >>= λ r. then k stack path (plug r.0, r.1))
  unfolding Visited run step passes
  runs loc plug v stack path g k lens e =
      let w : Walker = record { stack = stack; path = path; rows = plug v; gathered = g } in
      let counted : weight v + k ≡ suc (inner v + k) = rw (weight-inner v) (omega arith) in
      ap (λ n. run leaf n (root loc ∷ stack) path (plug v) g) counted
      ∙ ap (λ o. visit leaf loc o w >>= passes (inner v + k)) (lens v).0
      ∙ e

  runs_key :
      (loc : Loc) (plug : Value → Value) (v : Value) (key : Bytes) (stack : List Frame)
      (path : List Bytes) (g : Gathered) (k : ℕ)
      → Lens loc plug
      → Visited loc plug v (pop (push_key_words path key).1 ∷ stack) (below path key) g (suc k)
      → run leaf (weight v + suc k) (keyed_child loc key ∷ stack) path (plug v) g
        ≡ (walk loc (below path key) v g >>= λ r. then k stack path (plug r.0, r.1))
  unfolding Visited run step enter passes then
  runs_key loc plug v key stack path g k lens e =
      let w : Walker = record {
        stack = pop (push_key_words path key).1 ∷ stack;
        path = below path key;
        rows = plug v;
        gathered = g;
      } in
      let counted : weight v + suc k ≡ suc (inner v + suc k) = rw (weight-inner v) (omega arith) in
      ap (λ n. run leaf n (keyed_child loc key ∷ stack) path (plug v) g) counted
      ∙ ap (λ o. visit leaf loc o w >>= passes (inner v + suc k)) (lens v).0
      ∙ e
      ∙ bind_cong (walk loc (below path key) v g)
          (λ r.
            then (suc k) (pop (push_key_words path key).1 ∷ stack) (below path key) (plug r.0, r.1))
          (λ r. then k stack path (plug r.0, r.1))
          (λ r. ap (λ p. run leaf k stack p (plug r.0) r.1) (take-push_key_words path key))

  mutual
    unfolding behind behind_fields visit walk inner then passes push_fields push_items weight
        Visited

    visits :
        (loc : Loc) (plug : Value → Value) (v : Value) (stack : List Frame) (path : List Bytes)
        (g : Gathered) (k : ℕ)
        → Lens loc plug
        → Visited loc plug v stack path g k
    visits loc plug null stack path g k lens =
        ap (λ n. run leaf n stack path (plug null) g) (omega arith)
    visits loc plug (bool b) stack path g k lens =
        ap (λ n. run leaf n stack path (plug (bool b)) g) (omega arith)
    visits loc plug (number n) stack path g k lens =
        ap (λ m. run leaf m stack path (plug (number n)) g) (omega arith)
    visits loc plug (string s) stack path g k lens =
        bind_some (leaf loc path s g)
          (λ x. record {
            stack = stack;
            path = path;
            rows = put loc (string x.0) (plug (string s));
            gathered = x.1;
          })
          (passes (0 + k))
        ∙ bind_cong (leaf loc path s g)
            (λ x. run leaf (0 + k) stack path (put loc (string x.0) (plug (string s))) x.1)
            (λ x. then k stack path (plug (string x.0), x.1))
            (λ x.
              ap (λ n. run leaf n stack path (put loc (string x.0) (plug (string s))) x.1)
                (omega arith)
              ∙ ap (λ rows. run leaf k stack path rows x.1) ((lens (string s)).1 (string x.0)))
        ∙ sym (
            bind_some (leaf loc path s g) (λ x. (string x.0, x.1))
              (λ r. then k stack path (plug r.0, r.1)))
    visits loc plug (array vs) stack path g k lens =
        visits_items loc plug [] vs stack path g k lens
        ∙ sym (
            bind_some (walk_items loc path 0 vs g) (λ x. (array x.0, x.1))
              (λ r. then k stack path (plug r.0, r.1)))
    visits loc plug (object fs) stack path g k lens =
        visits_fields loc plug [] fs stack path g k lens
        ∙ sym (
            bind_some (walk_fields loc path 0 fs g) (λ x. (object x.0, x.1))
              (λ r. then k stack path (plug r.0, r.1)))

    visits_items :
        (loc : Loc) (plug : Value → Value) (pre : List Value) (vs : Items) (stack : List Frame)
        (path : List Bytes) (g : Gathered) (k : ℕ)
        → Lens loc plug
        → run leaf
            (weight_items vs + k)
            (push_items loc (length pre) vs stack)
            path
            (plug (array (behind pre vs)))
            g
          ≡ (walk_items loc path (length pre) vs g >>= λ r.
              then k stack path (plug (array (behind pre r.0)), r.1))
    visits_items loc plug pre no_items stack path g k lens =
        ap (λ n. run leaf n stack path (plug (array (behind pre no_items))) g) (omega arith)
    visits_items loc plug pre (item v vs) stack path g k lens =
        let here : Loc = loc ++ length pre ∷ [] in
        let done : Items × Gathered → Option (Value × Gathered) =
          λ r. then k stack path (plug (array (behind pre r.0)), r.1) in
        ap
          (λ n.
            run leaf n (push_items loc (suc (length pre)) vs (root here ∷ stack)) path
              (plug (array (behind pre (item v vs)))) g)
          (omega arith)
        ∙ visits_items loc plug (v ∷ pre) vs (root here ∷ stack) path g (weight v + k) lens
        ∙ bind_cong (walk_items loc path (suc (length pre)) vs g)
            (λ x.
              then (weight v + k) (root here ∷ stack) path
                (plug (array (behind pre (item v x.0))), x.1))
            (λ x. walk here path v x.1 >>= λ y. done (item y.0 x.0, y.1))
            (λ x.
              runs here (λ u. plug (array (behind pre (item u x.0)))) v stack path x.1 k
                (Lens-item loc plug pre x.0 lens)
                (visits here (λ u. plug (array (behind pre (item u x.0)))) v stack path x.1 k
                  (Lens-item loc plug pre x.0 lens)))
        ∙ sym (
            bind_bind (walk_items loc path (suc (length pre)) vs g) (λ x. walk here path v x.1)
              (λ x y. (item y.0 x.0, y.1)) done)

    visits_fields :
        (loc : Loc) (plug : Value → Value) (pre : List (Bytes × Value)) (fs : Fields)
        (stack : List Frame) (path : List Bytes) (g : Gathered) (k : ℕ)
        → Lens loc plug
        → run leaf
            (weight_fields fs + k)
            (push_fields loc (length pre) fs stack)
            path
            (plug (object (behind_fields pre fs)))
            g
          ≡ (walk_fields loc path (length pre) fs g >>= λ r.
              then k stack path (plug (object (behind_fields pre r.0)), r.1))
    visits_fields loc plug pre no_fields stack path g k lens =
        ap (λ n. run leaf n stack path (plug (object (behind_fields pre no_fields))) g)
          (omega arith)
    visits_fields loc plug pre (field key v fs) stack path g k lens =
        let here : Loc = loc ++ length pre ∷ [] in
        let done : Fields × Gathered → Option (Value × Gathered) =
          λ r. then k stack path (plug (object (behind_fields pre r.0)), r.1) in
        let plugged : Fields → Value → Value =
          λ fs' u. plug (object (behind_fields pre (field key u fs'))) in
        ap
          (λ n.
            run leaf n (push_fields loc (suc (length pre)) fs (keyed_child here key ∷ stack)) path
              (plugged fs v) g)
          (omega arith)
        ∙ visits_fields loc plug ((key, v) ∷ pre) fs (keyed_child here key ∷ stack) path g
            (weight v + suc k) lens
        ∙ bind_cong (walk_fields loc path (suc (length pre)) fs g)
            (λ x. then (weight v + suc k) (keyed_child here key ∷ stack) path (plugged x.0 v, x.1))
            (λ x. walk here (below path key) v x.1 >>= λ y. done (field key y.0 x.0, y.1))
            (λ x.
              runs_key here (plugged x.0) v key stack path x.1 k
                (Lens-field loc plug pre key x.0 lens)
                (visits here (plugged x.0) v (pop (push_key_words path key).1 ∷ stack)
                  (below path key) x.1 (suc k) (Lens-field loc plug pre key x.0 lens)))
        ∙ sym (
            bind_bind (walk_fields loc path (suc (length pre)) fs g)
              (λ x. walk here (below path key) v x.1) (λ x y. (field key y.0 x.0, y.1)) done)

  -- The rows, the first one first.
  unfoldable pub walk_rows : ℕ → Items → Gathered → Option (Items × Gathered)
  unfolding walk
  walk_rows i no_items g = some (no_items, g)
  walk_rows i (item v vs) g = do
    (v', g') ← walk (i ∷ []) [] v g
    (vs', g'') ← walk_rows (suc i) vs g'
    some (item v' vs', g'')

  runs_rows :
      (pre : List Value) (vs : Items) (g : Gathered)
      → run leaf (weight_items vs) (row_frames (length pre) vs) [] (array (behind pre vs)) g
        ≡ (walk_rows (length pre) vs g >>= λ r. some (array (behind pre r.0), r.1))
  unfolding behind walk_rows row_frames weight run then
  runs_rows pre no_items g = refl
  runs_rows pre (item v vs) g =
      let here : Loc = length pre ∷ [] in
      let plug : Value → Value = λ u. array (behind pre (item u vs)) in
      let lens : Lens here plug = Lens-item [] (λ u. u) pre vs (λ u. (refl, λ w. refl)) in
      let rest : List Frame = row_frames (suc (length pre)) vs in
      runs here plug v rest [] g (weight_items vs) lens
        (visits here plug v rest [] g (weight_items vs) lens)
      ∙ bind_cong (walk here [] v g) (λ r. then (weight_items vs) rest [] (plug r.0, r.1))
          (λ r. walk_rows (suc (length pre)) vs r.1 >>= λ t.
            some (array (behind pre (item r.0 t.0)), t.1))
          (λ r. runs_rows (r.0 ∷ pre) vs r.1)
      ∙ sym (
          bind_bind (walk here [] v g) (λ r. walk_rows (suc (length pre)) vs r.1)
            (λ r t. (item r.0 t.0, t.1)) (λ r. some (array (behind pre r.0), r.1)))

  -- The loop returns what the traversal does, given as much fuel as the rows have frames.
  pub run-walk_rows :
      (rows : Items) (g : Gathered)
      → run leaf (weight_items rows) (row_frames 0 rows) [] (array rows) g
        ≡ (walk_rows 0 rows g >>= λ r. some (array r.0, r.1))
  unfolding behind
  run-walk_rows rows g = runs_rows [] rows g
