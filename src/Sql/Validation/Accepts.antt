-- ===== src/Sql/Validation/Accepts.antt =====
-- crates/sql/src/validation.rs: the texts that the two entry points accept.
use dbmcp.Prelude.{
  ℕ, suc, ◌<◌, ◌≡◌, ◌≢◌, ◌↔◌, ◌∙◌, inl, inr, refl, ap, Bytes, [], ◌∷◌, false, none, some, ok, arith,
  trim,
}
use dbmcp.Sql.Validation.{
  StatementKind, explain, Parser, mentions_outfile, classify_within, classify, single, parsed, pop,
  ok_or, parse_single, read_only_of, validate_read_only, validate_single_statement,
}
use dbmcp.Sql.Validation.ReadOnly.{ReadOnly, Result-cases, classify-ReadOnly, ReadOnly-classify}

module _ (parser : Parser) where
  open parser use {Statement, view, nodes, depth, parse_sql, to_uppercase}

  single-cases :
      (sql : Bytes) (s : Statement)
      → parse_single parser sql ≡ ok (some s)
      → parse_sql sql ≡ ok (s ∷ [])
  unfolding parse_single single parsed pop
  single-cases sql s h = elim (Result-cases (parse_sql sql)) [
    | inl ([], e) ↦ absurd (ground arith)
    | inl (t ∷ [], e) ↦ let i : t ≡ s = ground arith in e ∙ ap (λ u. ok (u ∷ [])) i
    | inl (t ∷ u ∷ us, e) ↦ absurd (ground arith)
    | inr (x, e) ↦ absurd (ground arith)
  ]

  sound_of :
      (trimmed : Bytes) (k : StatementKind)
      → read_only_of parser trimmed ≡ ok k
      → (mentions_outfile (to_uppercase trimmed) ≡ false)
        × ((s : Statement) × (parse_sql trimmed ≡ ok (s ∷ [])) × ReadOnly parser s k)
  unfolding read_only_of ok_or classify
  sound_of [] k h = absurd (ground arith)
  sound_of (c ∷ t) k h = elim (Result-cases (parse_single parser (c ∷ t))) [
    | inl (none, e) ↦ absurd (ground arith)
    | inl (some s, e) ↦
        let clear : mentions_outfile (to_uppercase (c ∷ t)) ≡ false = ground arith in
        let inner : classify_within parser (suc (depth s)) s ≡ ok k = ground arith in
        (clear, (s, single-cases (c ∷ t) s e, classify-ReadOnly parser (suc (depth s)) s k inner))
    | inr (x, e) ↦ absurd (ground arith)
  ]

  -- What `validate_read_only` lets through does not mention `INTO OUTFILE` or `INTO DUMPFILE`, and
  -- parses to exactly one statement, which is read-only and of the kind that is answered.
  pub validate_read_only-ReadOnly :
      (sql : Bytes) (k : StatementKind)
      → validate_read_only parser sql ≡ ok k
      → (mentions_outfile (to_uppercase (trim sql)) ≡ false)
        × ((s : Statement) × (parse_sql (trim sql) ≡ ok (s ∷ [])) × ReadOnly parser s k)
  unfolding validate_read_only
  validate_read_only-ReadOnly sql k h = sound_of (trim sql) k h

  complete_of :
      (c : ℕ) (t : Bytes) (s : Statement) (k : StatementKind)
      → ((s t : Statement) → view s ≡ explain t → depth t < depth s)
      → mentions_outfile (to_uppercase (c ∷ t)) ≡ false
      → parse_sql (c ∷ t) ≡ ok (s ∷ [])
      → ReadOnly parser s k
      → read_only_of parser (c ∷ t) ≡ ok k
  unfolding read_only_of ok_or classify parse_single single parsed pop
  complete_of c t s k d m p r =
      rw (m, p) (ReadOnly-classify parser (suc (depth s)) s k d (omega arith) r)

  -- Where the statement that `EXPLAIN` wraps is less deep than its `EXPLAIN`, `validate_read_only`
  -- lets through every text that is not blank, does not mention `INTO OUTFILE` or `INTO DUMPFILE`,
  -- and parses to exactly one statement, which is read-only; it answers the statement's kind.
  pub ReadOnly-validate_read_only :
      (sql : Bytes) (s : Statement) (k : StatementKind)
      → ((s t : Statement) → view s ≡ explain t → depth t < depth s)
      → trim sql ≢ []
      → mentions_outfile (to_uppercase (trim sql)) ≡ false
      → parse_sql (trim sql) ≡ ok (s ∷ [])
      → ReadOnly parser s k
      → validate_read_only parser sql ≡ ok k
  unfolding validate_read_only
  ReadOnly-validate_read_only sql s k d n m p r = at (trim sql) n m p
    where
      at :
          (trimmed : Bytes)
          → trimmed ≢ []
          → mentions_outfile (to_uppercase trimmed) ≡ false
          → parse_sql trimmed ≡ ok (s ∷ [])
          → read_only_of parser trimmed ≡ ok k
      at [] n m p = absurd (n refl)
      at (c ∷ t) n m p = complete_of c t s k d m p r

  -- `validate_single_statement` accepts a text exactly when it parses to one statement.
  validate_single_statement_iff :
      (sql : Bytes)
      → (validate_single_statement parser sql ≡ ok tt)
        ↔ ((s : Statement) × (parse_sql (trim sql) ≡ ok (s ∷ [])))
  unfolding validate_single_statement parse_single single parsed pop ok_or
  validate_single_statement_iff sql = (only, accepts)
    where
      only :
          validate_single_statement parser sql ≡ ok tt
          → (s : Statement) × (parse_sql (trim sql) ≡ ok (s ∷ []))
      only h = elim (Result-cases (parse_single parser (trim sql))) [
        | inl (none, e) ↦ absurd (ground arith)
        | inl (some s, e) ↦ (s, single-cases (trim sql) s e)
        | inr (x, e) ↦ absurd (ground arith)
      ]

      accepts :
          (s : Statement) × (parse_sql (trim sql) ≡ ok (s ∷ []))
          → validate_single_statement parser sql ≡ ok tt
      accepts (s, p) = rw p refl
