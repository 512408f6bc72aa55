-- ===== src/Pii/Category.antt =====
-- crates/pii/src/category.rs
use dbmcp.Prelude.{
  ℕ, Bytes, List, [], ◌∷◌, Bool, Result, ok, err, ◌==◌, codes, bytes_eq, if◌then◌else◌, ◌≡◌, refl,
}

pub data Category : Type 0 where
  personal financial government contact network digital_identity crypto : Category

abbrev pub all : List Category
all = personal ∷ financial ∷ government ∷ contact ∷ network ∷ digital_identity ∷ crypto ∷ []

abbrev pub discriminant : Category → ℕ
discriminant personal = 0
discriminant financial = 1
discriminant government = 2
discriminant contact = 3
discriminant network = 4
discriminant digital_identity = 5
discriminant crypto = 6

-- The derived `PartialEq`.
unfoldable pub category_eq : Category → Category → Bool
category_eq a b = discriminant a == discriminant b

unfoldable pub as_kebab : Category → Bytes
as_kebab personal = codes "personal"
as_kebab financial = codes "financial"
as_kebab government = codes "government"
as_kebab contact = codes "contact"
as_kebab network = codes "network"
as_kebab digital_identity = codes "digital-identity"
as_kebab crypto = codes "crypto"

-- `ParseCategoryError`, which holds the text.
pub record ParseCategoryError : Type 0 where
  pub text : Bytes

unfoldable pub from_str : Bytes → Result Category ParseCategoryError
unfolding bytes_eq
from_str s =
    if bytes_eq (codes "personal") s
    then ok personal
    else if bytes_eq (codes "financial") s
    then ok financial
    else if bytes_eq (codes "government") s
    then ok government
    else if bytes_eq (codes "contact") s
    then ok contact
    else if bytes_eq (codes "network") s
    then ok network
    else if bytes_eq (codes "digital-identity") s
    then ok digital_identity
    else if bytes_eq (codes "crypto") s
    then ok crypto
    else err (record { text = s })

from_str-as_kebab : (c : Category) → from_str (as_kebab c) ≡ ok c
unfolding from_str as_kebab
from_str-as_kebab personal = refl
from_str-as_kebab financial = refl
from_str-as_kebab government = refl
from_str-as_kebab contact = refl
from_str-as_kebab network = refl
from_str-as_kebab digital_identity = refl
from_str-as_kebab crypto = refl
