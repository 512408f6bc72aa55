-- ===== src/Pii/Validators/Iban/Laws.antt =====
-- crates/pii/src/validators/iban.rs: the remainder modulo 97.
use dbmcp.Prelude.{
  leb, ◌*◌, ◌-◌, le→leb, inl, inr, leb, is_ascii_uppercase, ◌⊎◌, is_ascii_digit, ℕ, ◌+◌, ◌-◌, ◌*◌,
  ◌%◌, ◌≤◌, ◌≡◌, refl, Bytes, [], ◌∷◌, false, some, arith, leb, if◌then◌else◌, is_ascii_digit, inl,
  inr, All,
}
use dbmcp.Pii.Validators.Digits.{digit}
use dbmcp.Pii.Validators.Iban.{mod97_from, mod97}

-- The number spelled, with a letter as two digits, `A` as 10 to `Z` as 35, behind `n`.
unfoldable pub spelled : ℕ → Bytes → ℕ
spelled n [] = n
spelled n (b ∷ s) =
    spelled (if is_ascii_digit b then n * 10 + digit b else n * 100 + (b - b'A' + 10)) s

abbrev pub IsAlphanumeric : ℕ → Type 0
IsAlphanumeric b = ((b'0' ≤ b) × (b ≤ b'9')) ⊎ ((b'A' ≤ b) × (b ≤ b'Z'))

mod97_from-spelled :
    (s : Bytes) (n : ℕ) → All IsAlphanumeric s → mod97_from (n % 97) s ≡ some (spelled n s % 97)
unfolding mod97_from spelled is_ascii_digit is_ascii_uppercase
mod97_from-spelled [] n h = refl
mod97_from-spelled (b ∷ s) n (hb, hs) = elim hb [
  | inl number ↦
      let same : (n % 97 * 10 + digit b) % 97 ≡ (n * 10 + digit b) % 97 = omega arith in
      rw (le→leb b'0' b number.0, le→leb b b'9' number.1, same)
        (mod97_from-spelled s (n * 10 + digit b) hs)
  | inr letter ↦
      let v : ℕ = b - b'A' + 10 in
      let same : (n % 97 * 100 + v) % 97 ≡ (n * 100 + v) % 97 = omega arith in
      let no_digit : leb b b'9' ≡ false = ground arith in
      rw
        (
          le→leb b'0' b (omega arith),
          no_digit,
          le→leb b'A' b letter.0,
          le→leb b b'Z' letter.1,
          same,
        )
        (mod97_from-spelled s (n * 100 + v) hs)
]

-- Over digits and upper-case letters `mod97` is the number that they spell, modulo 97, however long
-- it is: nothing is lost by reducing at each character.
pub mod97-spelled : (s : Bytes) → All IsAlphanumeric s → mod97 s ≡ some (spelled 0 s % 97)
unfolding mod97
mod97-spelled s h = mod97_from-spelled s 0 h
