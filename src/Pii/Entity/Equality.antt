-- ===== src/Pii/Entity/Equality.antt =====
-- crates/pii/src/entity.rs: the derived `PartialEq` of `Entity` is equality.
use dbmcp.Prelude.{
  ◌≡◌, ◌∙◌, sym, ap, List, [], ◌∷◌, ◌⊎◌, inl, inr, some, true, any, Bool-cases, ==→eq, get_elem?,
  arith,
}
use dbmcp.Pii.Entity.{Entity, all, discriminant, entity_eq}

-- The discriminant is the place in `Entity::ALL`.
get-discriminant : (e : Entity) → get_elem? all (discriminant e) ≡ some e
get-discriminant e = ground arith

some-same : (a b : Entity) → some a ≡ some b → a ≡ b
some-same a b h = cc

entity_eq→eq : (a b : Entity) → entity_eq a b ≡ true → a ≡ b
unfolding entity_eq
entity_eq→eq a b h =
    let same : get_elem? all (discriminant a) ≡ get_elem? all (discriminant b) =
      ap (get_elem? all) (==→eq (discriminant a) (discriminant b) h) in
    some-same a b (sym (get-discriminant a) ∙ same ∙ get-discriminant b)

-- The entity is one of the entities.
abbrev pub OneOf : Entity → List Entity → Type 0
OneOf e [] = ⊥
OneOf e (a ∷ entities) = (e ≡ a) ⊎ OneOf e entities

pub any-OneOf :
    (e : Entity) (entities : List Entity) → any (entity_eq e) entities ≡ true → OneOf e entities
any-OneOf e [] h = cc
any-OneOf e (a ∷ entities) h = elim (Bool-cases (entity_eq e a)) [
  | inl same ↦ inl (entity_eq→eq e a same)
  | inr other ↦ inr (any-OneOf e entities (ground arith))
]
