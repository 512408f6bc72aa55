-- ===== src/Pii/Validators/Digits.antt =====
-- crates/pii/src/validators/digits.rs, and the sums that the validators share
pub mod Laws
pub mod Sums
pub mod Verdicts
use dbmcp.Prelude.{
  ℕ, ◌+◌, ◌-◌, ◌*◌, Bytes, List, [], ◌∷◌, ◌++◌, not, Option, none, some, ◌==◌, if◌then◌else◌,
  length, as_bytes, is_ascii_digit,
}

-- `u32::from(b - b'0')`, behind a digit test.
unfoldable pub digit : ℕ → ℕ
digit b = b - b'0'

-- The loop of `collect_digits`; `out` is the filled part of the array and `i` its length.
collect_from : ℕ → Bytes → List ℕ → Option (List ℕ)
unfolding is_ascii_digit digit
collect_from n [] out = if length out == n then some out else none
collect_from n (b ∷ s) out =
    let skip = collect_from n s out in
    let push = collect_from n s (out ++ digit b ∷ []) in
    if not (is_ascii_digit b) then skip else if length out == n then none else push

unfoldable pub collect_digits : ℕ → Bytes → Option (List ℕ)
unfolding collect_from as_bytes
collect_digits n candidate = collect_from n (as_bytes candidate) []

-- `d.iter().zip(weights).map(|(x, w)| x * w).sum()`
unfoldable pub weighted : List ℕ → List ℕ → ℕ
weighted [] ws = 0
weighted (d ∷ ds) [] = 0
weighted (d ∷ ds) (w ∷ ws) = d * w + weighted ds ws
