-- ===== src/Sql/Validation/ReadOnly.antt =====
-- crates/sql/src/validation.rs: the statements that read-only mode is to let through, and `classify`.
use dbmcp.Prelude.{
  ℕ, suc, zero, ◌<◌, ◌≡◌, ◌⊎◌, inl, inr, refl, subst, List, [], ◌∷◌, true, false, none, Result, ok,
  err, All, arith,
}
use dbmcp.Sql.Functions.{NamePart, dangerous_function}
use dbmcp.Sql.Validation.{
  StatementKind, select, non_select, View, query_view, explain, reads, other_view, ReadStatement,
  Node, statement, select_node, function_call, table, table_function, other_node, Parser,
  breaks_modifying, found_at, visit_modifying, visit_dangerous, none_found,
  check_data_modifying_queries, check_dangerous_functions, classify_within,
}

-- A name that is on no list of dangerous functions.
abbrev pub Allowed : List NamePart → Type 0
Allowed name = dangerous_function name ≡ none

pub Result-cases :
    {A E : Type 0} (r : Result A E) → ((a : A) × (r ≡ ok a)) ⊎ ((e : E) × (r ≡ err e))
Result-cases (ok a) = inl (a, refl)
Result-cases (err e) = inr (e, refl)

module _ (parser : Parser) where
  open parser use {Statement, view, nodes, depth, parse_sql, to_uppercase}

  -- A nested statement is a query, a `SELECT` has no `INTO`, and a called function is allowed.
  abbrev pub Harmless : Node Statement → Type 0
  Harmless (statement s) = view s ≡ query_view
  Harmless (select_node into) = into ≡ false
  Harmless (function_call name) = Allowed name
  Harmless (table name true) = Allowed name
  Harmless (table name false) = Unit
  Harmless (table_function name) = Allowed name
  Harmless other_node = Unit

  -- What read-only mode is to let through, and how it is paged.
  pub data ReadOnly : Statement → StatementKind → Type 0 where
    of_query : {s : Statement} → view s ≡ query_view → All Harmless (nodes s) → ReadOnly s select
    of_explain :
        {s t : Statement} {k : StatementKind}
        → view s ≡ explain t
        → ReadOnly t k
        → ReadOnly s non_select
    of_read : {s : Statement} {r : ReadStatement} → view s ≡ reads r → ReadOnly s non_select

  View-cases :
      (v : View Statement)
      → (v ≡ query_view)
        ⊎ ((t : Statement) × (v ≡ explain t))
        ⊎ ((r : ReadStatement) × (v ≡ reads r))
        ⊎ (v ≡ other_view)
  View-cases query_view = inl refl
  View-cases (explain t) = inr (inl (t, refl))
  View-cases (reads r) = inr (inr (inl (r, refl)))
  View-cases other_view = inr (inr (inr refl))

  Harmless-passes :
      (n : Node Statement)
      → Harmless n
      → (breaks_modifying parser n ≡ false) × (found_at parser n ≡ none)
  unfolding breaks_modifying found_at
  Harmless-passes (statement s) h = (rw (h, breaks_modifying) refl, refl)
  Harmless-passes (select_node into) h = (h, refl)
  Harmless-passes (function_call name) h = (refl, h)
  Harmless-passes (table name true) h = (refl, h)
  Harmless-passes (table name false) h = (refl, refl)
  Harmless-passes (table_function name) h = (refl, h)
  Harmless-passes other_node h = (refl, refl)

  passes-Harmless :
      (n : Node Statement)
      → breaks_modifying parser n ≡ false
      → found_at parser n ≡ none
      → Harmless n
  unfolding breaks_modifying found_at
  passes-Harmless (statement s) h _ = ground (arith, View-cases (view s))
  passes-Harmless (select_node into) h _ = h
  passes-Harmless (function_call name) _ h = h
  passes-Harmless (table name true) _ h = h
  passes-Harmless (table name false) _ _ = tt
  passes-Harmless (table_function name) _ h = h
  passes-Harmless other_node _ _ = tt

  visits-Harmless :
      (ns : List (Node Statement))
      → visit_modifying parser ns ≡ false
      → visit_dangerous parser ns ≡ none
      → All Harmless ns
  unfolding visit_modifying visit_dangerous
  visits-Harmless [] _ _ = tt
  visits-Harmless (n ∷ ns) h k =
      let b : breaks_modifying parser n ≡ false = ground arith in
      let f : found_at parser n ≡ none = ground arith in
      let bs : visit_modifying parser ns ≡ false = ground arith in
      let fs : visit_dangerous parser ns ≡ none = ground arith in
      (passes-Harmless n b f, visits-Harmless ns bs fs)

  Harmless-visits :
      (ns : List (Node Statement))
      → All Harmless ns
      → (visit_modifying parser ns ≡ false) × (visit_dangerous parser ns ≡ none)
  unfolding visit_modifying visit_dangerous
  Harmless-visits [] _ = (refl, refl)
  Harmless-visits (n ∷ ns) (h, hs) =
      let (b, f) = Harmless-passes n h in
      let (bs, fs) = Harmless-visits ns hs in
      (rw (b, visit_modifying) bs, rw (f, visit_dangerous) fs)

  pub classify-ReadOnly :
      (fuel : ℕ) (s : Statement) (k : StatementKind)
      → classify_within parser fuel s ≡ ok k
      → ReadOnly s k
  unfolding classify_within check_data_modifying_queries check_dangerous_functions none_found
  classify-ReadOnly zero s k h = ground arith
  classify-ReadOnly (suc fuel) s k h = elim (View-cases (view s)) [
    | inl e ↦
        let b : visit_modifying parser (nodes s) ≡ false = ground arith in
        let f : visit_dangerous parser (nodes s) ≡ none = ground arith in
        let i : select ≡ k = ground arith in
        subst (ReadOnly s) i (of_query e (visits-Harmless (nodes s) b f))
    | inr (inl (t, e)) ↦ elim (Result-cases (classify_within parser fuel t)) [
      | inl (k', r) ↦
          let i : non_select ≡ k = ground arith in
          subst (ReadOnly s) i (of_explain e (classify-ReadOnly fuel t k' r))
      | inr (x, r) ↦ absurd (ground arith)
    ]
    | inr (inr (inl (r, e))) ↦
        let i : non_select ≡ k = ground arith in subst (ReadOnly s) i (of_read e)
    | inr (inr (inr e)) ↦ absurd (ground arith)
  ]

  pub ReadOnly-classify :
      (fuel : ℕ) (s : Statement) (k : StatementKind)
      → ((s t : Statement) → view s ≡ explain t → depth t < depth s)
      → depth s < fuel
      → ReadOnly s k
      → classify_within parser fuel s ≡ ok k
  unfolding classify_within check_data_modifying_queries check_dangerous_functions none_found
  ReadOnly-classify zero s k _ h _ = absurd (omega arith)
  ReadOnly-classify (suc fuel) s _ d h (of_query e ns) =
      let (b, f) = Harmless-visits (nodes s) ns in ground arith
  ReadOnly-classify (suc fuel) s _ d h (of_explain {t = t} {k = k} e r) =
      let inner : classify_within parser fuel t ≡ ok k =
        ReadOnly-classify fuel t k d (omega (arith, d s t e)) r in
      ground arith
  ReadOnly-classify (suc fuel) s _ d h (of_read e) = ground arith
