-- ===== src/Pii/Tests.antt =====
-- Names and scores at examples.
use dbmcp.Prelude.{◌≡◌, refl, ok, codes}
use dbmcp.Pii.Entity.{iban_code, from_str}
use dbmcp.Pii.Score.{new}

iban_read : from_str (codes "IBAN_CODE") ≡ ok iban_code
unfolding from_str
iban_read = refl

half : new 0x3f000000 ≡ ok (record { bits = 0x3f000000 })
unfolding new
half = refl
