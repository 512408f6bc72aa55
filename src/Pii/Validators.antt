-- ===== src/Pii/Validators.antt =====
-- crates/pii/src/validators: one module for each validator, and the dispatch of validators/mod.rs
pub mod Digits
pub mod Luhn
pub mod LuhnSinCan
pub mod NpiUsa
pub mod AbaRoutingUsa
pub mod Mod11NhsGbr
pub mod LifetimePhysicianNumberDeu
pub mod MedicalLicenseUsa
pub mod MedicalPracticeIdDeu
pub mod SsnUsa
pub mod EinPrefixUsa
pub mod HealthInsuranceDeu
pub mod SocialSecurityDeu
pub mod TaxIdDeu
pub mod IcaoMrz9
pub mod IdCardDeu
pub mod Iban
pub mod VatCountryLengthEur
pub mod PrivateKeyType
pub mod Ip
pub mod JwtHeader
pub mod Crypto
pub mod Abstain
mod Tests
use dbmcp.Prelude.{ℕ, Bytes, Bool, Option}
use dbmcp.Pii.Outcome.{ValidationOutcome, unknown}

-- What the validators take from other libraries: the parse of `std::net::IpAddr`, base64url and
-- JSON for a JWT header, and the decoders of Bitcoin addresses.
pub record Libraries : Type 0 where
  pub ip_from_str : Bytes → Bool
  pub base64_decode : Bytes → Option Bytes
  pub header_alg : Bytes → Option Bool
  pub base58check : Bytes → ℕ → Bool
  pub bech32_hrp : Bytes → Option Bytes

pub data Validator : Type 0 where
  noop aba_routing_usa crypto ein_prefix_usa iban ip_address jwt_header luhn : Validator
  luhn_sin_can medical_license_usa_dea mod11_nhs_gbr npi_usa private_key_type : Validator
  ssn_usa vat_country_length_eur medical_practice_id_deu health_insurance_deu : Validator
  id_card_deu lifetime_physician_number_deu social_security_deu tax_id_deu icao_mrz9 : Validator

module _ (libraries : Libraries) where
  open libraries use {ip_from_str, base64_decode, header_alg, base58check, bech32_hrp}

  unfoldable pub validate : Validator → Bytes → ValidationOutcome
  validate noop candidate = unknown
  validate aba_routing_usa candidate = AbaRoutingUsa.validate candidate
  validate crypto candidate = Crypto.validate base58check bech32_hrp candidate
  validate ein_prefix_usa candidate = EinPrefixUsa.validate candidate
  validate iban candidate = Iban.validate candidate
  validate ip_address candidate = Ip.validate ip_from_str candidate
  validate jwt_header candidate = JwtHeader.validate base64_decode header_alg candidate
  validate luhn candidate = Luhn.validate candidate
  validate luhn_sin_can candidate = LuhnSinCan.validate candidate
  validate medical_license_usa_dea candidate = MedicalLicenseUsa.validate candidate
  validate mod11_nhs_gbr candidate = Mod11NhsGbr.validate candidate
  validate npi_usa candidate = NpiUsa.validate candidate
  validate private_key_type candidate = PrivateKeyType.validate candidate
  validate ssn_usa candidate = SsnUsa.validate candidate
  validate vat_country_length_eur candidate = VatCountryLengthEur.validate candidate
  validate medical_practice_id_deu candidate = MedicalPracticeIdDeu.validate candidate
  validate health_insurance_deu candidate = HealthInsuranceDeu.validate candidate
  validate id_card_deu candidate = IdCardDeu.validate candidate
  validate lifetime_physician_number_deu candidate = LifetimePhysicianNumberDeu.validate candidate
  validate social_security_deu candidate = SocialSecurityDeu.validate candidate
  validate tax_id_deu candidate = TaxIdDeu.validate candidate
  validate icao_mrz9 candidate = IcaoMrz9.validate candidate
