-- ===== src/Prelude/Results.antt =====
-- `Result`, with `?` as bind.

pub data Result {ℓ κ} (A : Type ℓ) (E : Type κ) : Type (ℓ ⊔ κ) where
  ok : A → Result A E
  err : E → Result A E

infixl 5 ◌>>=◌
abbrev pub ◌>>=◌ {ℓ κ μ} :
    {A : Type ℓ} {B : Type κ} {E : Type μ} → Result A E → (A → Result B E) → Result B E
ok a >>= f = f a
err e >>= f = err e

-- What holds of the value, if there is one.
abbrev pub Returns {ℓ κ} : {A : Type ℓ} {E : Type κ} → (A → Type 0) → Result A E → Type 0
Returns P (ok a) = P a
Returns P (err e) = Unit

pub bind-Returns {ℓ κ μ} :
    {A : Type ℓ} {B : Type κ} {E : Type μ} (P : A → Type 0) (Q : B → Type 0) (m : Result A E)
    (f : A → Result B E)
    → Returns P m
    → ((a : A) → P a → Returns Q (f a))
    → Returns Q (m >>= f)
bind-Returns P Q (ok a) f h k = k a h
bind-Returns P Q (err e) f h k = tt
