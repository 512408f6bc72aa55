-- ===== src/Pii/Entity.antt =====
-- crates/pii/src/entity.rs
pub mod Names
pub mod Equality
use dbmcp.Prelude.{
  ℕ, String, Bytes, List, [], ◌∷◌, Bool, Result, ok, err, ◌==◌, codes, bytes_eq, if◌then◌else◌,
}

pub data Entity : Type 0 where
  email_address credit_card iban_code ip_address url phone_number crypto us_ssn api_key : Entity
  bank_account_uk cvv itin jwt_token mac_address nhs_number nino_uk passport_uk : Entity
  passport_us private_key routing_number_us sin_ca sort_code_uk tax_id_ein vat_number : Entity
  medical_license_us bank_account_us driver_license_us mbi_us npi_us driving_licence_uk : Entity
  postcode_uk vehicle_registration_uk medical_practice_id_de driving_licence_de : Entity
  commercial_register_de health_insurance_de id_card_de license_plate_de : Entity
  lifetime_physician_number_de passport_de postcode_de social_security_de tax_id_de : Entity
  tax_number_de date_of_birth password_hash person location organization nrp facility : Entity

-- `Entity::ALL`
abbrev pub all : List Entity
all =
    email_address ∷ credit_card ∷ iban_code ∷ ip_address ∷ url ∷ phone_number ∷ crypto ∷ us_ssn
    ∷ api_key ∷ bank_account_uk ∷ cvv ∷ itin ∷ jwt_token ∷ mac_address ∷ nhs_number ∷ nino_uk
    ∷ passport_uk ∷ passport_us ∷ private_key ∷ routing_number_us ∷ sin_ca ∷ sort_code_uk
    ∷ tax_id_ein ∷ vat_number ∷ medical_license_us ∷ bank_account_us ∷ driver_license_us ∷ mbi_us
    ∷ npi_us ∷ driving_licence_uk ∷ postcode_uk ∷ vehicle_registration_uk ∷ medical_practice_id_de
    ∷ driving_licence_de ∷ commercial_register_de ∷ health_insurance_de ∷ id_card_de
    ∷ license_plate_de ∷ lifetime_physician_number_de ∷ passport_de ∷ postcode_de
    ∷ social_security_de ∷ tax_id_de ∷ tax_number_de ∷ date_of_birth ∷ password_hash ∷ person
    ∷ location ∷ organization ∷ nrp ∷ facility ∷ []

-- The discriminant, which the derived `PartialEq` and `Ord` compare.
abbrev pub discriminant : Entity → ℕ
discriminant email_address = 0
discriminant credit_card = 1
discriminant iban_code = 2
discriminant ip_address = 3
discriminant url = 4
discriminant phone_number = 5
discriminant crypto = 6
discriminant us_ssn = 7
discriminant api_key = 8
discriminant bank_account_uk = 9
discriminant cvv = 10
discriminant itin = 11
discriminant jwt_token = 12
discriminant mac_address = 13
discriminant nhs_number = 14
discriminant nino_uk = 15
discriminant passport_uk = 16
discriminant passport_us = 17
discriminant private_key = 18
discriminant routing_number_us = 19
discriminant sin_ca = 20
discriminant sort_code_uk = 21
discriminant tax_id_ein = 22
discriminant vat_number = 23
discriminant medical_license_us = 24
discriminant bank_account_us = 25
discriminant driver_license_us = 26
discriminant mbi_us = 27
discriminant npi_us = 28
discriminant driving_licence_uk = 29
discriminant postcode_uk = 30
discriminant vehicle_registration_uk = 31
discriminant medical_practice_id_de = 32
discriminant driving_licence_de = 33
discriminant commercial_register_de = 34
discriminant health_insurance_de = 35
discriminant id_card_de = 36
discriminant license_plate_de = 37
discriminant lifetime_physician_number_de = 38
discriminant passport_de = 39
discriminant postcode_de = 40
discriminant social_security_de = 41
discriminant tax_id_de = 42
discriminant tax_number_de = 43
discriminant date_of_birth = 44
discriminant password_hash = 45
discriminant person = 46
discriminant location = 47
discriminant organization = 48
discriminant nrp = 49
discriminant facility = 50

-- The derived `PartialEq`.
unfoldable pub entity_eq : Entity → Entity → Bool
entity_eq a b = discriminant a == discriminant b

unfoldable pub as_str : Entity → Bytes
as_str email_address = codes "EMAIL_ADDRESS"
as_str credit_card = codes "CREDIT_CARD"
as_str iban_code = codes "IBAN_CODE"
as_str ip_address = codes "IP_ADDRESS"
as_str url = codes "URL"
as_str phone_number = codes "PHONE_NUMBER"
as_str crypto = codes "CRYPTO"
as_str us_ssn = codes "US_SSN"
as_str api_key = codes "API_KEY"
as_str bank_account_uk = codes "BANK_ACCOUNT_UK"
as_str cvv = codes "CVV"
as_str itin = codes "ITIN"
as_str jwt_token = codes "JWT_TOKEN"
as_str mac_address = codes "MAC_ADDRESS"
as_str nhs_number = codes "NHS_NUMBER"
as_str nino_uk = codes "NINO_UK"
as_str passport_uk = codes "PASSPORT_UK"
as_str passport_us = codes "PASSPORT_US"
as_str private_key = codes "PRIVATE_KEY"
as_str routing_number_us = codes "ROUTING_NUMBER_US"
as_str sin_ca = codes "SIN_CA"
as_str sort_code_uk = codes "SORT_CODE_UK"
as_str tax_id_ein = codes "TAX_ID_EIN"
as_str vat_number = codes "VAT_NUMBER"
as_str medical_license_us = codes "MEDICAL_LICENSE_US"
as_str bank_account_us = codes "BANK_ACCOUNT_US"
as_str driver_license_us = codes "DRIVER_LICENSE_US"
as_str mbi_us = codes "MBI_US"
as_str npi_us = codes "NPI_US"
as_str driving_licence_uk = codes "DRIVING_LICENCE_UK"
as_str postcode_uk = codes "POSTCODE_UK"
as_str vehicle_registration_uk = codes "VEHICLE_REGISTRATION_UK"
as_str medical_practice_id_de = codes "MEDICAL_PRACTICE_ID_DE"
as_str driving_licence_de = codes "DRIVING_LICENCE_DE"
as_str commercial_register_de = codes "COMMERCIAL_REGISTER_DE"
as_str health_insurance_de = codes "HEALTH_INSURANCE_DE"
as_str id_card_de = codes "ID_CARD_DE"
as_str license_plate_de = codes "LICENSE_PLATE_DE"
as_str lifetime_physician_number_de = codes "LIFETIME_PHYSICIAN_NUMBER_DE"
as_str passport_de = codes "PASSPORT_DE"
as_str postcode_de = codes "POSTCODE_DE"
as_str social_security_de = codes "SOCIAL_SECURITY_DE"
as_str tax_id_de = codes "TAX_ID_DE"
as_str tax_number_de = codes "TAX_NUMBER_DE"
as_str date_of_birth = codes "DATE_OF_BIRTH"
as_str password_hash = codes "PASSWORD_HASH"
as_str person = codes "PERSON"
as_str location = codes "LOCATION"
as_str organization = codes "ORGANIZATION"
as_str nrp = codes "NATIONALITY_RELIGION_POLITICS"
as_str facility = codes "FACILITY"

unfoldable pub placeholder : Entity → Bytes
placeholder email_address = codes "<EMAIL_ADDRESS>"
placeholder credit_card = codes "<CREDIT_CARD>"
placeholder iban_code = codes "<IBAN_CODE>"
placeholder ip_address = codes "<IP_ADDRESS>"
placeholder url = codes "<URL>"
placeholder phone_number = codes "<PHONE_NUMBER>"
placeholder crypto = codes "<CRYPTO>"
placeholder us_ssn = codes "<US_SSN>"
placeholder api_key = codes "<API_KEY>"
placeholder bank_account_uk = codes "<BANK_ACCOUNT_UK>"
placeholder cvv = codes "<CVV>"
placeholder itin = codes "<ITIN>"
placeholder jwt_token = codes "<JWT_TOKEN>"
placeholder mac_address = codes "<MAC_ADDRESS>"
placeholder nhs_number = codes "<NHS_NUMBER>"
placeholder nino_uk = codes "<NINO_UK>"
placeholder passport_uk = codes "<PASSPORT_UK>"
placeholder passport_us = codes "<PASSPORT_US>"
placeholder private_key = codes "<PRIVATE_KEY>"
placeholder routing_number_us = codes "<ROUTING_NUMBER_US>"
placeholder sin_ca = codes "<SIN_CA>"
placeholder sort_code_uk = codes "<SORT_CODE_UK>"
placeholder tax_id_ein = codes "<TAX_ID_EIN>"
placeholder vat_number = codes "<VAT_NUMBER>"
placeholder medical_license_us = codes "<MEDICAL_LICENSE_US>"
placeholder bank_account_us = codes "<BANK_ACCOUNT_US>"
placeholder driver_license_us = codes "<DRIVER_LICENSE_US>"
placeholder mbi_us = codes "<MBI_US>"
placeholder npi_us = codes "<NPI_US>"
placeholder driving_licence_uk = codes "<DRIVING_LICENCE_UK>"
placeholder postcode_uk = codes "<POSTCODE_UK>"
placeholder vehicle_registration_uk = codes "<VEHICLE_REGISTRATION_UK>"
placeholder medical_practice_id_de = codes "<MEDICAL_PRACTICE_ID_DE>"
placeholder driving_licence_de = codes "<DRIVING_LICENCE_DE>"
placeholder commercial_register_de = codes "<COMMERCIAL_REGISTER_DE>"
placeholder health_insurance_de = codes "<HEALTH_INSURANCE_DE>"
placeholder id_card_de = codes "<ID_CARD_DE>"
placeholder license_plate_de = codes "<LICENSE_PLATE_DE>"
placeholder lifetime_physician_number_de = codes "<LIFETIME_PHYSICIAN_NUMBER_DE>"
placeholder passport_de = codes "<PASSPORT_DE>"
placeholder postcode_de = codes "<POSTCODE_DE>"
placeholder social_security_de = codes "<SOCIAL_SECURITY_DE>"
placeholder tax_id_de = codes "<TAX_ID_DE>"
placeholder tax_number_de = codes "<TAX_NUMBER_DE>"
placeholder date_of_birth = codes "<DATE_OF_BIRTH>"
placeholder password_hash = codes "<PASSWORD_HASH>"
placeholder person = codes "<PERSON>"
placeholder location = codes "<LOCATION>"
placeholder organization = codes "<ORGANIZATION>"
placeholder nrp = codes "<NATIONALITY_RELIGION_POLITICS>"
placeholder facility = codes "<FACILITY>"

-- `ParseEntityError`, which holds the text.
pub record ParseEntityError : Type 0 where
  pub text : Bytes

-- A `match` on the text: the first arm that is equal.
abbrev first_arm : List (String × Entity) → Bytes → Result Entity ParseEntityError
first_arm [] s = err (record { text = s })
first_arm ((name, e) ∷ arms) s = if bytes_eq (codes name) s then ok e else first_arm arms s

abbrev arms : List (String × Entity)
arms =
    ("EMAIL_ADDRESS", email_address)
    ∷ ("CREDIT_CARD", credit_card)
    ∷ ("IBAN_CODE", iban_code)
    ∷ ("IP_ADDRESS", ip_address)
    ∷ ("URL", url)
    ∷ ("PHONE_NUMBER", phone_number)
    ∷ ("CRYPTO", crypto)
    ∷ ("US_SSN", us_ssn)
    ∷ ("API_KEY", api_key)
    ∷ ("BANK_ACCOUNT_UK", bank_account_uk)
    ∷ ("CVV", cvv)
    ∷ ("ITIN", itin)
    ∷ ("JWT_TOKEN", jwt_token)
    ∷ ("MAC_ADDRESS", mac_address)
    ∷ ("NHS_NUMBER", nhs_number)
    ∷ ("NINO_UK", nino_uk)
    ∷ ("PASSPORT_UK", passport_uk)
    ∷ ("PASSPORT_US", passport_us)
    ∷ ("PRIVATE_KEY", private_key)
    ∷ ("ROUTING_NUMBER_US", routing_number_us)
    ∷ ("SIN_CA", sin_ca)
    ∷ ("SORT_CODE_UK", sort_code_uk)
    ∷ ("TAX_ID_EIN", tax_id_ein)
    ∷ ("VAT_NUMBER", vat_number)
    ∷ ("MEDICAL_LICENSE_US", medical_license_us)
    ∷ ("BANK_ACCOUNT_US", bank_account_us)
    ∷ ("DRIVER_LICENSE_US", driver_license_us)
    ∷ ("MBI_US", mbi_us)
    ∷ ("NPI_US", npi_us)
    ∷ ("DRIVING_LICENCE_UK", driving_licence_uk)
    ∷ ("POSTCODE_UK", postcode_uk)
    ∷ ("VEHICLE_REGISTRATION_UK", vehicle_registration_uk)
    ∷ ("MEDICAL_PRACTICE_ID_DE", medical_practice_id_de)
    ∷ ("DRIVING_LICENCE_DE", driving_licence_de)
    ∷ ("COMMERCIAL_REGISTER_DE", commercial_register_de)
    ∷ ("HEALTH_INSURANCE_DE", health_insurance_de)
    ∷ ("ID_CARD_DE", id_card_de)
    ∷ ("LICENSE_PLATE_DE", license_plate_de)
    ∷ ("LIFETIME_PHYSICIAN_NUMBER_DE", lifetime_physician_number_de)
    ∷ ("PASSPORT_DE", passport_de)
    ∷ ("POSTCODE_DE", postcode_de)
    ∷ ("SOCIAL_SECURITY_DE", social_security_de)
    ∷ ("TAX_ID_DE", tax_id_de)
    ∷ ("TAX_NUMBER_DE", tax_number_de)
    ∷ ("DATE_OF_BIRTH", date_of_birth)
    ∷ ("PASSWORD_HASH", password_hash)
    ∷ ("PERSON", person)
    ∷ ("LOCATION", location)
    ∷ ("ORGANIZATION", organization)
    ∷ ("NATIONALITY_RELIGION_POLITICS", nrp)
    ∷ ("FACILITY", facility)
    ∷ []

unfoldable pub from_str : Bytes → Result Entity ParseEntityError
unfolding bytes_eq
from_str s = first_arm arms s
