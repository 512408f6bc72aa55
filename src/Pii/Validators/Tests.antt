-- ===== src/Pii/Validators/Tests.antt =====
-- The validators at numbers from their tests.
use dbmcp.Prelude.{
  ℕ, ◌≡◌, ◌≢◌, ◌%◌, refl, inl, inr, Bytes, codes, [], ◌∷◌, ◌++◌, Option, none, some, true, false,
  arith, All, if◌then◌else◌, length, ◌==◌, as_bytes,
}
use dbmcp.Pii.Outcome.{valid, invalid, unknown}
use dbmcp.Pii.Validators.{Libraries, noop, validate}
use dbmcp.Pii.Validators.AbaRoutingUsa
use dbmcp.Pii.Validators.Luhn
use dbmcp.Pii.Validators.LuhnSinCan
use dbmcp.Pii.Validators.Mod11NhsGbr
use dbmcp.Pii.Validators.TaxIdDeu
use dbmcp.Pii.Validators.Iban
use dbmcp.Pii.Validators.IdCardDeu
use dbmcp.Pii.Validators.HealthInsuranceDeu
use dbmcp.Pii.Validators.IcaoMrz9
use dbmcp.Pii.Validators.Iban.{mod97}
use dbmcp.Pii.Validators.Iban.Laws.{spelled, mod97-spelled}

one_is_not_two : ◌≢◌ {A = ℕ} b'1' b'2'
one_is_not_two h = omega arith

card : Luhn.validate (codes "4" ++ b'1' ∷ codes "11111111111111") ≡ valid
unfolding Luhn.validate
card = refl

insurance : LuhnSinCan.validate (codes "" ++ b'1' ∷ codes "30692544") ≡ valid
unfolding LuhnSinCan.validate
insurance = refl

routing : AbaRoutingUsa.validate (codes "0" ++ b'1' ∷ codes "1000015") ≡ valid
unfolding AbaRoutingUsa.validate
routing = refl

nhs : Mod11NhsGbr.validate (codes "943476591" ++ b'9' ∷ codes "") ≡ valid
unfolding Mod11NhsGbr.validate
nhs = refl

tax : TaxIdDeu.validate (codes "8609574271" ++ b'9' ∷ codes "") ≡ valid
unfolding TaxIdDeu.validate TaxIdDeu.crowded TaxIdDeu.product_of
tax = refl

mod97-spelled_example : mod97 (codes "4W") ≡ some (spelled 0 (codes "4W") % 97)
mod97-spelled_example =
    mod97-spelled (codes "4W")
      (inl (omega arith, omega arith), (inr (omega arith, omega arith), tt))

iban_passes : Iban.validate (codes "DE89 3704 0044 0532 0130 00") ≡ valid
unfolding Iban.validate Iban.clean as_bytes mod97
iban_passes = refl

iban_fails : Iban.validate (codes "DE00 3704 0044 0532 0130 00") ≡ invalid
unfolding Iban.validate Iban.clean as_bytes mod97
iban_fails = refl

insured : HealthInsuranceDeu.validate (codes "A123456780") ≡ valid
unfolding HealthInsuranceDeu.validate
insured = refl

passport :
    (IcaoMrz9.validate (codes "C01234565") ≡ valid)
    × (IcaoMrz9.validate (codes "A01234567") ≡ invalid)
unfolding IcaoMrz9.validate as_bytes dbmcp.Prelude.trim dbmcp.Prelude.is_ascii_digit
    IcaoMrz9.sum_values
passport = (refl, refl)

old_id_card : IdCardDeu.validate (codes "T22000129") ≡ unknown
unfolding IdCardDeu.validate
old_id_card = refl

-- Libraries that reject everything.
abbrev no_libraries : Libraries
no_libraries = record {
  ip_from_str = λ s. false;
  base64_decode = λ s. none;
  header_alg = λ s. none;
  base58check = λ s n. false;
  bech32_hrp = λ s. none;
}

noop_abstains : validate no_libraries noop (codes "x") ≡ unknown
unfolding validate
noop_abstains = refl
