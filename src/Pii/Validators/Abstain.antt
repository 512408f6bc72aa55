-- ===== src/Pii/Validators/Abstain.antt =====
-- crates/pii/src/validators: which validators may abstain, so that the score of the pattern stands.
use dbmcp.Prelude.{Bytes, [], ◌∷◌, as_bytes, Bool, true, false, ◌≡◌, ◌≢◌, refl, arith, Option}
use dbmcp.Pii.Outcome.{unknown}
use dbmcp.Pii.Validators.Luhn
use dbmcp.Pii.Validators.LuhnSinCan
use dbmcp.Pii.Validators.NpiUsa
use dbmcp.Pii.Validators.AbaRoutingUsa
use dbmcp.Pii.Validators.Mod11NhsGbr
use dbmcp.Pii.Validators.LifetimePhysicianNumberDeu
use dbmcp.Pii.Validators.MedicalLicenseUsa
use dbmcp.Pii.Validators.SsnUsa
use dbmcp.Pii.Validators.EinPrefixUsa
use dbmcp.Pii.Validators.HealthInsuranceDeu
use dbmcp.Pii.Validators.SocialSecurityDeu
use dbmcp.Pii.Validators.TaxIdDeu
use dbmcp.Pii.Validators.IcaoMrz9
use dbmcp.Pii.Validators.Iban
use dbmcp.Pii.Validators.VatCountryLengthEur
use dbmcp.Pii.Validators.PrivateKeyType
use dbmcp.Pii.Validators.Ip
use dbmcp.Pii.Validators.JwtHeader
use dbmcp.Pii.Validators.{
  Libraries, Validator, noop, crypto, medical_practice_id_deu, id_card_deu, luhn, luhn_sin_can,
  npi_usa, aba_routing_usa, mod11_nhs_gbr, lifetime_physician_number_deu, medical_license_usa_dea,
  ssn_usa, ein_prefix_usa, health_insurance_deu, social_security_deu, tax_id_deu, icao_mrz9, iban,
  vat_country_length_eur, private_key_type, ip_address, jwt_header, validate,
}

-- The validators whose outcome is not always accept or reject.
abbrev pub may_abstain : Validator → Bool
may_abstain noop = true
may_abstain crypto = true
may_abstain medical_practice_id_deu = true
may_abstain id_card_deu = true
may_abstain _ = false

luhn-decides : (s : Bytes) → Luhn.validate s ≢ unknown
unfolding Luhn.validate
luhn-decides s h = ground arith

luhn_sin_can-decides : (s : Bytes) → LuhnSinCan.validate s ≢ unknown
unfolding LuhnSinCan.validate
luhn_sin_can-decides s h = ground arith

npi_usa-decides : (s : Bytes) → NpiUsa.validate s ≢ unknown
unfolding NpiUsa.validate
npi_usa-decides s h = ground arith

aba_routing_usa-decides : (s : Bytes) → AbaRoutingUsa.validate s ≢ unknown
unfolding AbaRoutingUsa.validate
aba_routing_usa-decides s h = ground arith

mod11_nhs_gbr-decides : (s : Bytes) → Mod11NhsGbr.validate s ≢ unknown
unfolding Mod11NhsGbr.validate
mod11_nhs_gbr-decides s h = ground arith

lifetime_physician_number_deu-decides :
    (s : Bytes) → LifetimePhysicianNumberDeu.validate s ≢ unknown
unfolding LifetimePhysicianNumberDeu.validate
lifetime_physician_number_deu-decides s h = ground arith

medical_license_usa_dea-decides : (s : Bytes) → MedicalLicenseUsa.validate s ≢ unknown
unfolding MedicalLicenseUsa.validate
medical_license_usa_dea-decides s h = ground arith

ssn_usa-decides : (s : Bytes) → SsnUsa.validate s ≢ unknown
unfolding SsnUsa.validate
ssn_usa-decides s h = ground arith

ein_prefix_usa-decides : (s : Bytes) → EinPrefixUsa.validate s ≢ unknown
unfolding EinPrefixUsa.validate
ein_prefix_usa-decides s h = ground arith

health_insurance_deu-decides : (s : Bytes) → HealthInsuranceDeu.validate s ≢ unknown
unfolding HealthInsuranceDeu.validate
health_insurance_deu-decides s h = ground arith

social_security_deu-decides : (s : Bytes) → SocialSecurityDeu.validate s ≢ unknown
unfolding SocialSecurityDeu.validate
social_security_deu-decides s h = ground arith

tax_id_deu-decides : (s : Bytes) → TaxIdDeu.validate s ≢ unknown
unfolding TaxIdDeu.validate
tax_id_deu-decides s h = ground arith

icao_mrz9-decides : (s : Bytes) → IcaoMrz9.validate s ≢ unknown
unfolding IcaoMrz9.validate
icao_mrz9-decides s h = ground arith

iban-decides : (s : Bytes) → Iban.validate s ≢ unknown
unfolding Iban.validate
iban-decides s h = ground arith

check_body-decides : (prefix body : Bytes) → VatCountryLengthEur.check_body prefix body ≢ unknown
unfolding VatCountryLengthEur.check_body
check_body-decides prefix body h = ground arith

split_prefix-decides : (bytes : Bytes) → VatCountryLengthEur.split_prefix bytes ≢ unknown
unfolding VatCountryLengthEur.split_prefix
split_prefix-decides [] h = cc
split_prefix-decides (a ∷ []) h = cc
split_prefix-decides (a ∷ b ∷ body) h = check_body-decides (a ∷ b ∷ []) body h

vat_country_length_eur-decides : (s : Bytes) → VatCountryLengthEur.validate s ≢ unknown
unfolding VatCountryLengthEur.validate
vat_country_length_eur-decides s h = split_prefix-decides (as_bytes s) h

private_key_type-decides : (s : Bytes) → PrivateKeyType.validate s ≢ unknown
unfolding PrivateKeyType.validate
private_key_type-decides s h = ground arith

ip_address-decides : (ip_from_str : Bytes → Bool) (s : Bytes) → Ip.validate ip_from_str s ≢ unknown
unfolding Ip.validate
ip_address-decides ip_from_str s h = ground arith

jwt_header-decides :
    (decode : Bytes → Option Bytes) (header_alg : Bytes → Option Bool) (s : Bytes)
    → JwtHeader.validate decode header_alg s ≢ unknown
unfolding JwtHeader.validate
jwt_header-decides decode header_alg s h = ground arith

module _ (libraries : Libraries) where
  open libraries use {ip_from_str, base64_decode, header_alg}

  -- Only the default validator, the Bitcoin, medical-practice and identity-card validators may
  -- abstain: every other one accepts or rejects each candidate.
  pub validate-may_abstain :
      (v : Validator) (s : Bytes) → validate libraries v s ≡ unknown → may_abstain v ≡ true
  unfolding validate
  validate-may_abstain noop s h = refl
  validate-may_abstain crypto s h = refl
  validate-may_abstain medical_practice_id_deu s h = refl
  validate-may_abstain id_card_deu s h = refl
  validate-may_abstain aba_routing_usa s h = absurd (aba_routing_usa-decides s h)
  validate-may_abstain ein_prefix_usa s h = absurd (ein_prefix_usa-decides s h)
  validate-may_abstain health_insurance_deu s h = absurd (health_insurance_deu-decides s h)
  validate-may_abstain iban s h = absurd (iban-decides s h)
  validate-may_abstain icao_mrz9 s h = absurd (icao_mrz9-decides s h)
  validate-may_abstain ip_address s h = absurd (ip_address-decides ip_from_str s h)
  validate-may_abstain jwt_header s h = absurd (jwt_header-decides base64_decode header_alg s h)
  validate-may_abstain lifetime_physician_number_deu s h =
      absurd (lifetime_physician_number_deu-decides s h)
  validate-may_abstain luhn s h = absurd (luhn-decides s h)
  validate-may_abstain luhn_sin_can s h = absurd (luhn_sin_can-decides s h)
  validate-may_abstain medical_license_usa_dea s h = absurd (medical_license_usa_dea-decides s h)
  validate-may_abstain mod11_nhs_gbr s h = absurd (mod11_nhs_gbr-decides s h)
  validate-may_abstain npi_usa s h = absurd (npi_usa-decides s h)
  validate-may_abstain private_key_type s h = absurd (private_key_type-decides s h)
  validate-may_abstain social_security_deu s h = absurd (social_security_deu-decides s h)
  validate-may_abstain ssn_usa s h = absurd (ssn_usa-decides s h)
  validate-may_abstain tax_id_deu s h = absurd (tax_id_deu-decides s h)
  validate-may_abstain vat_country_length_eur s h = absurd (vat_country_length_eur-decides s h)
