-- ===== src/Pii/Redactor/Leaves.antt =====
-- crates/pii/src/redact.rs one string leaf and its share of the statistics.
use dbmcp.Prelude.{
  ℕ, suc, ◌+◌, ◌-◌, ◌%◌, ◌≡◌, refl, sym, ap, ◌∙◌, Bytes, List, [], ◌∷◌, map, length, between,
  take_all, some, arith,
}
use dbmcp.Pii.Result.{RecognizerResult}
use dbmcp.Pii.Operators.{Digests}
use dbmcp.Pii.Anonymizer.{OperatorConfig, OperatorResult, AnonymizedText, anonymize}
use dbmcp.Pii.Anonymizer.Rewrites.{rewritten}
use dbmcp.Pii.Redactor.Json.{
  Value, null, bool, number, string, array, object, Items, no_items, item, Fields, no_fields, field,
}
use dbmcp.Pii.Redactor.Spans.{
  increment, count_all, RedactionStats, applied, apply_spans, apply_found,
}

pub increments :
    (a n : ℕ) → n ≡ a % 18446744073709551616 → increment n ≡ (a + 1) % 18446744073709551616
unfolding increment
increments a n e = omega arith

pub total-count_all :
    (ops : List OperatorResult) (stats : RedactionStats) (a : ℕ)
    → stats.total ≡ a % 18446744073709551616
    → ((count_all ops stats).total ≡ (a + length ops) % 18446744073709551616)
      × ((count_all ops stats).string_leaves_scanned ≡ stats.string_leaves_scanned)
unfolding count_all
total-count_all [] stats a e = (e ∙ ap (λ n. n % 18446744073709551616) (omega arith), refl)
total-count_all (op ∷ ops) stats a e =
    let (t, l) = total-count_all ops _ (a + 1) (increments a _ e) in
    (t ∙ ap (λ n. n % 18446744073709551616) (omega arith), l)

between_whole : (s : Bytes) → between 0 (length s) s ≡ s
between_whole s = take_all (length s - 0) s (omega arith)

pub length-map_eq :
    {A B C : Type 0} (f : A → C) (g : B → C) (xs : List A) (ys : List B)
    → map f xs ≡ map g ys
    → length xs ≡ length ys
length-map_eq f g [] [] e = refl
length-map_eq f g [] (y ∷ ys) e = ground arith
length-map_eq f g (x ∷ xs) [] e = ground arith
length-map_eq f g (x ∷ xs) (y ∷ ys) e = ap suc (length-map_eq f g xs ys (ground arith))

module _ (digests : Digests) (config : OperatorConfig) where
  applied-rewritten :
      (s : Bytes) (rs : List RecognizerResult) (ops : List OperatorResult) (text : Bytes)
      (stats : RedactionStats)
      → text ≡ rewritten digests s config 0 rs
      → length ops ≡ length rs
      → applied digests config s ops text stats
        ≡ (rewritten digests s config 0 rs, count_all ops stats)
  unfolding applied count_all
  applied-rewritten s [] [] text stats e l = ap (λ t. (t, stats)) (sym (between_whole s))
  applied-rewritten s (r ∷ rs) [] text stats e l = ground arith
  applied-rewritten s rs (op ∷ ops) text stats e l = ap (λ t. (t, count_all (op ∷ ops) stats)) e

  -- The leaf becomes its rewritten text, and each of the results is counted.
  pub apply_found-rewritten :
      (s : Bytes) (rs : List RecognizerResult) (out : AnonymizedText) (stats : RedactionStats)
      → anonymize digests s config rs ≡ some out
      → out.text ≡ rewritten digests s config 0 rs
      → length out.operations ≡ length rs
      → (ops : List OperatorResult) × (apply_found digests config s rs stats
          ≡ some (rewritten digests s config 0 rs, count_all ops stats))
        × (length ops ≡ length rs)
  unfolding apply_found apply_spans count_all
  apply_found-rewritten s [] out stats a e l =
      ([], ap (λ t. some (t, stats)) (sym (between_whole s)), refl)
  apply_found-rewritten s (r ∷ rs) out stats a e l = (
    out.operations,
    rw a (ap some (applied-rewritten s (r ∷ rs) out.operations out.text stats e l)),
    l,
  )

-- The leaves that are strings.
unfoldable mutual
  pub leaves : Value → ℕ
  leaves null = 0
  leaves (bool b) = 0
  leaves (number n) = 0
  leaves (string s) = 1
  leaves (array vs) = leaves_items vs
  leaves (object fs) = leaves_fields fs

  pub leaves_items : Items → ℕ
  leaves_items no_items = 0
  leaves_items (item v vs) = leaves v + leaves_items vs

  pub leaves_fields : Fields → ℕ
  leaves_fields no_fields = 0
  leaves_fields (field k v fs) = leaves v + leaves_fields fs
