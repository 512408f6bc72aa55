-- ===== src/Pii/Validators/Digits/Sums.antt =====
-- Weighted sums modulo a number, when one digit is replaced.
use native.Mathlib.Nat.{add_assoc}
use dbmcp.Prelude.{
  ℕ, ◌+◌, ◌*◌, ◌%◌, ◌≤◌, ◌<◌, ◌≡◌, ◌∙◌, sym, ap, List, [], ◌∷◌, ◌++◌, arith, length, All,
}
use dbmcp.Pii.Validators.Digits.{weighted}

-- Two digits that a sum with this weight does not tell apart are equal.
abbrev pub Detects : ℕ → ℕ → Type 0
Detects m w = (d e k : ℕ) → d ≤ 9 → e ≤ 9 → (d * w + k) % m ≡ (e * w + k) % m → d ≡ e

module _ (m : ℕ) where
  pub weighted-Detects :
      (xs ys ws : List ℕ) (d e k : ℕ)
      → All (Detects m) ws
      → length xs < length ws
      → d ≤ 9
      → e ≤ 9
      → (weighted (xs ++ d ∷ ys) ws + k) % m ≡ (weighted (xs ++ e ∷ ys) ws + k) % m
      → d ≡ e
  unfolding weighted
  weighted-Detects xs ys [] d e k ok room hd he same = absurd (omega arith)
  weighted-Detects [] ys (w ∷ ws) d e k (hw, hws) room hd he same =
      hw d e (weighted ys ws + k) hd he (
        ap (λ (n : ℕ). n % m) (sym (add_assoc (d * w) (weighted ys ws) k))
        ∙ same
        ∙ ap (λ (n : ℕ). n % m) (add_assoc (e * w) (weighted ys ws) k))
  weighted-Detects (x ∷ xs) ys (w ∷ ws) d e k (hw, hws) room hd he same =
      weighted-Detects xs ys ws d e (x * w + k) hws (omega arith) hd he (
        ap (λ (n : ℕ). n % m) (shift (weighted (xs ++ d ∷ ys) ws))
        ∙ same
        ∙ ap (λ (n : ℕ). n % m) (sym (shift (weighted (xs ++ e ∷ ys) ws))))
    where
      shift : (s : ℕ) → s + (x * w + k) ≡ x * w + s + k
      shift s = omega arith
