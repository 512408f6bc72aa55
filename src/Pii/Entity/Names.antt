-- ===== src/Pii/Entity/Names.antt =====
-- The wire names of the entity types.
use dbmcp.Prelude.{◌≡◌, refl, ok, codes, ◌++◌}
use dbmcp.Pii.Entity.{
  Entity, as_str, placeholder, from_str, email_address, credit_card, iban_code, ip_address, url,
  phone_number, crypto, us_ssn, api_key, bank_account_uk, cvv, itin, jwt_token, mac_address,
  nhs_number, nino_uk, passport_uk, passport_us, private_key, routing_number_us, sin_ca,
  sort_code_uk, tax_id_ein, vat_number, medical_license_us, bank_account_us, driver_license_us,
  mbi_us, npi_us, driving_licence_uk, postcode_uk, vehicle_registration_uk, medical_practice_id_de,
  driving_licence_de, commercial_register_de, health_insurance_de, id_card_de, license_plate_de,
  lifetime_physician_number_de, passport_de, postcode_de, social_security_de, tax_id_de,
  tax_number_de, date_of_birth, password_hash, person, location, organization, nrp, facility,
}

-- The wire name of every entity type is read back as that type.
from_str-as_str : (e : Entity) → from_str (as_str e) ≡ ok e
unfolding from_str as_str
from_str-as_str email_address = refl
from_str-as_str credit_card = refl
from_str-as_str iban_code = refl
from_str-as_str ip_address = refl
from_str-as_str url = refl
from_str-as_str phone_number = refl
from_str-as_str crypto = refl
from_str-as_str us_ssn = refl
from_str-as_str api_key = refl
from_str-as_str bank_account_uk = refl
from_str-as_str cvv = refl
from_str-as_str itin = refl
from_str-as_str jwt_token = refl
from_str-as_str mac_address = refl
from_str-as_str nhs_number = refl
from_str-as_str nino_uk = refl
from_str-as_str passport_uk = refl
from_str-as_str passport_us = refl
from_str-as_str private_key = refl
from_str-as_str routing_number_us = refl
from_str-as_str sin_ca = refl
from_str-as_str sort_code_uk = refl
from_str-as_str tax_id_ein = refl
from_str-as_str vat_number = refl
from_str-as_str medical_license_us = refl
from_str-as_str bank_account_us = refl
from_str-as_str driver_license_us = refl
from_str-as_str mbi_us = refl
from_str-as_str npi_us = refl
from_str-as_str driving_licence_uk = refl
from_str-as_str postcode_uk = refl
from_str-as_str vehicle_registration_uk = refl
from_str-as_str medical_practice_id_de = refl
from_str-as_str driving_licence_de = refl
from_str-as_str commercial_register_de = refl
from_str-as_str health_insurance_de = refl
from_str-as_str id_card_de = refl
from_str-as_str license_plate_de = refl
from_str-as_str lifetime_physician_number_de = refl
from_str-as_str passport_de = refl
from_str-as_str postcode_de = refl
from_str-as_str social_security_de = refl
from_str-as_str tax_id_de = refl
from_str-as_str tax_number_de = refl
from_str-as_str date_of_birth = refl
from_str-as_str password_hash = refl
from_str-as_str person = refl
from_str-as_str location = refl
from_str-as_str organization = refl
from_str-as_str nrp = refl
from_str-as_str facility = refl

-- The placeholder of every entity type is its wire name in angle brackets.
pub placeholder-as_str : (e : Entity) → placeholder e ≡ codes "<" ++ as_str e ++ codes ">"
unfolding placeholder as_str
placeholder-as_str email_address = refl
placeholder-as_str credit_card = refl
placeholder-as_str iban_code = refl
placeholder-as_str ip_address = refl
placeholder-as_str url = refl
placeholder-as_str phone_number = refl
placeholder-as_str crypto = refl
placeholder-as_str us_ssn = refl
placeholder-as_str api_key = refl
placeholder-as_str bank_account_uk = refl
placeholder-as_str cvv = refl
placeholder-as_str itin = refl
placeholder-as_str jwt_token = refl
placeholder-as_str mac_address = refl
placeholder-as_str nhs_number = refl
placeholder-as_str nino_uk = refl
placeholder-as_str passport_uk = refl
placeholder-as_str passport_us = refl
placeholder-as_str private_key = refl
placeholder-as_str routing_number_us = refl
placeholder-as_str sin_ca = refl
placeholder-as_str sort_code_uk = refl
placeholder-as_str tax_id_ein = refl
placeholder-as_str vat_number = refl
placeholder-as_str medical_license_us = refl
placeholder-as_str bank_account_us = refl
placeholder-as_str driver_license_us = refl
placeholder-as_str mbi_us = refl
placeholder-as_str npi_us = refl
placeholder-as_str driving_licence_uk = refl
placeholder-as_str postcode_uk = refl
placeholder-as_str vehicle_registration_uk = refl
placeholder-as_str medical_practice_id_de = refl
placeholder-as_str driving_licence_de = refl
placeholder-as_str commercial_register_de = refl
placeholder-as_str health_insurance_de = refl
placeholder-as_str id_card_de = refl
placeholder-as_str license_plate_de = refl
placeholder-as_str lifetime_physician_number_de = refl
placeholder-as_str passport_de = refl
placeholder-as_str postcode_de = refl
placeholder-as_str social_security_de = refl
placeholder-as_str tax_id_de = refl
placeholder-as_str tax_number_de = refl
placeholder-as_str date_of_birth = refl
placeholder-as_str password_hash = refl
placeholder-as_str person = refl
placeholder-as_str location = refl
placeholder-as_str organization = refl
placeholder-as_str nrp = refl
placeholder-as_str facility = refl
