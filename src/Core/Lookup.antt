-- ===== src/Core/Lookup.antt =====
-- What the lookups of lib/card.cpp and CoreFactory::lookup find.
use fpga.Prelude.{
  Bool, true, false, ◌||◌, List, [], ◌∷◌, ◌++◌, Option, none, some, ◌≡◌, refl, inl, inr, All, Text,
  text_eq, is_empty, Bool-cases, ap,
}
use fpga.Vlnv.{Vlnv, vlnv_eq}
use fpga.Vlnv.Match.{vlnv_eq-wildcard}
use fpga.Core.{IpIdentifier, identifier_eq, lookup_by, lookup_factory, lookup_ip_name, lookup_ip_id}

-- What a lookup's answer says of the list: the first element that passes, or that none passes.
abbrev pub Finds : {A : Type 0} → (A → Bool) → List A → Option A → Type 0
Finds test xs none = All (λ x. test x ≡ false) xs
Finds {A} test xs (some a) =
    (before : List A) × (after : List A) × (xs ≡ before ++ (a ∷ after))
    × (test a ≡ true)
    × All (λ x. test x ≡ false) before

module _ {A : Type 0} (test : A → Bool) where
  Finds-cons :
      (x : A) (xs : List A) (r : Option A)
      → test x ≡ false
      → Finds test xs r
      → Finds test (x ∷ xs) r
  Finds-cons x xs none f h = (f, h)
  Finds-cons x xs (some a) f (before, after, e, t, h) = (x ∷ before, after, ap (◌∷◌ x) e, t, (f, h))

  pub lookup_by-Finds : (xs : List A) → Finds test xs (lookup_by test xs)
  unfolding lookup_by
  lookup_by-Finds [] = tt
  lookup_by-Finds (x ∷ xs) = elim (Bool-cases (test x)) [
    | inl t ↦ rw t ([], xs, refl, t, tt)
    | inr f ↦ rw f (Finds-cons x xs (lookup_by test xs) f (lookup_by-Finds xs))
  ]

-- Looking an IP up by its instance name gives the first core of that name, or none has it.
pub lookup_ip_name-Finds :
    (ips : List IpIdentifier) (name : Text)
    → Finds (λ ip. text_eq ip.name name) ips (lookup_ip_name ips name)
unfolding lookup_ip_name
lookup_ip_name-Finds ips name = lookup_by-Finds _ ips

-- Looking a factory up gives the first one whose compatible tag matches, or none does.
pub lookup_factory-Finds :
    {F : Type 0} (compatible_vlnv : F → Vlnv) (plugins : List F) (vlnv : Vlnv)
    → Finds
        (λ f. vlnv_eq (compatible_vlnv f) vlnv)
        plugins
        (lookup_factory compatible_vlnv plugins vlnv)
unfolding lookup_factory
lookup_factory-Finds compatible_vlnv plugins vlnv = lookup_by-Finds _ plugins

-- Two identifiers compare by their names alone: whatever the two tags are, they are equal exactly
-- when a name is empty or the names agree, because every tag matches the wildcard.
pub identifier_eq-names :
    (id other : IpIdentifier)
    → identifier_eq id other
      ≡ ((is_empty id.name || is_empty other.name) || text_eq id.name other.name)
unfolding identifier_eq
identifier_eq-names id other = rw ((vlnv_eq-wildcard other.vlnv).0)

-- So a lookup by identifier ignores the tag that it is given.
pub lookup_ip_id_ignores_vlnv :
    (ips : List IpIdentifier) (id : IpIdentifier) (vlnv : Vlnv)
    → lookup_ip_id ips id ≡ lookup_ip_id ips (record id { vlnv = vlnv })
unfolding lookup_ip_id lookup_by
lookup_ip_id_ignores_vlnv [] id vlnv = refl
lookup_ip_id_ignores_vlnv (ip ∷ ips) id vlnv = rw (
  identifier_eq-names ip id,
  identifier_eq-names ip (record id { vlnv = vlnv }),
  lookup_ip_id_ignores_vlnv ips id vlnv,
)
