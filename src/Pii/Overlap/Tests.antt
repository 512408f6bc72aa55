-- ===== src/Pii/Overlap/Tests.antt =====
-- Overlap resolution at examples.
use dbmcp.Prelude.{ℕ, ◌≡◌, refl, inl, inr, codes, List, [], ◌∷◌, false, true, none, All, arith}
use dbmcp.Pii.Entity.{url}
use dbmcp.Pii.Outcome.{unknown}
use dbmcp.Pii.Score.{rank}
use dbmcp.Pii.Result.{RecognizerResult}
use dbmcp.Pii.Overlap.{overlaps, dominate, candidate, resolve}
use dbmcp.Pii.Overlap.Disjoint.{Disjoint, resolve-Disjoint}
use dbmcp.Pii.Overlap.Order.{Sorted, resolve-Sorted, resolve-resolve}
use dbmcp.Pii.Overlap.Winners.{Has, SameOrBeaten, resolve-Has, resolve-chain}

abbrev at : ℕ → ℕ → ℕ → RecognizerResult
at start end bits = record {
  entity_type = url;
  start = start;
  end = end;
  score = record { bits = bits };
  explanation = record {
    recognizer_name = codes "r";
    pattern_name = none;
    original_score = record { bits = bits };
    validation = unknown;
    final_score = record { bits = bits };
    supportive_keyword = none;
  };
}

-- Scores 0.5, 0.75 and 1.0 of three results in a chain.
abbrev low : RecognizerResult
low = at 0 5 0x3f000000

abbrev middle : RecognizerResult
middle = at 4 9 0x3f400000

abbrev high : RecognizerResult
high = at 8 12 0x3f800000

abbrev chain : List RecognizerResult
chain = low ∷ middle ∷ high ∷ []

high_wins : resolve (middle ∷ high ∷ []) ≡ high ∷ []
unfolding resolve overlaps dominate rank
high_wins = refl

resolve-Disjoint_example : Disjoint (resolve chain)
resolve-Disjoint_example = resolve-Disjoint chain

resolve-Sorted_example : Sorted (resolve chain)
resolve-Sorted_example = resolve-Sorted chain

resolve-resolve_example : resolve (resolve chain) ≡ resolve chain
resolve-resolve_example = resolve-resolve chain

high-beats : All (SameOrBeaten high) chain
unfolding overlaps dominate rank
high-beats = (inr (inl (refl, refl)), (inr (inr (refl, refl)), (inl refl, tt)))

resolve-Has_example : Has high (resolve chain)
resolve-Has_example = resolve-Has high chain (inr (inr (inl refl))) high-beats

touch : (overlaps low middle ≡ true) × (overlaps middle high ≡ true) × (overlaps low high ≡ false)
unfolding overlaps
touch = (refl, refl, refl)

lose : (dominate low middle ≡ candidate) × (dominate middle high ≡ candidate)
unfolding dominate rank
lose = (refl, refl)

resolve-chain_example :
    (resolve chain ≡ high ∷ []) × All (λ s. overlaps low s ≡ false) (resolve chain)
resolve-chain_example =
    resolve-chain low middle high (omega arith) (omega arith) touch.0 touch.1 touch.2 lose.0 lose.1
