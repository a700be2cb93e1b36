-- ===== src/Vlnv/Match.antt =====
-- When two tags match.
use fpga.Prelude.{
  Bool, true, ◌&&◌, ◌||◌, [], ◌∷◌, ◌≡◌, refl, ◌⊎◌, inl, inr, ◌↔◌, Text, text_eq, is_empty, arith,
}
use fpga.Vlnv.{Vlnv, vlnv_eq, wildcard}

abbrev pub FieldMatches : Text → Text → Type 0
FieldMatches a b = (a ≡ []) ⊎ (b ≡ []) ⊎ (a ≡ b)

pub record Matches (v w : Vlnv) : Type 0 where
  pub vendors : FieldMatches v.vendor w.vendor
  pub libraries : FieldMatches v.library w.library
  pub names : FieldMatches v.name w.name
  pub versions : FieldMatches v.version w.version

abbrev field_test : Text → Text → Bool
field_test a b = (is_empty a || is_empty b) || text_eq a b

field_iff : (a b : Text) → (field_test a b ≡ true) ↔ FieldMatches a b
field_iff [] b = (λ _. inl refl, λ _. refl)
field_iff (c ∷ a) [] = (λ _. inr (inl refl), λ _. refl)
field_iff (c ∷ a) (d ∷ b) = (λ h. ground arith, λ h. ground arith)

and-true : (a b : Bool) → ((a && b) ≡ true) ↔ ((a ≡ true) × (b ≡ true))
and-true a b = ground arith

-- Two tags compare equal exactly when every field agrees or is empty on one side.
pub vlnv_eq-Matches : (v w : Vlnv) → (vlnv_eq v w ≡ true) ↔ Matches v w
unfolding vlnv_eq
vlnv_eq-Matches v w = (to, from)
  where
    to : vlnv_eq v w ≡ true → Matches v w
    to h =
        let (abc, d) = (and-true _ _).0 h in
        let (ab, c) = (and-true _ _).0 abc in
        let (a, b) = (and-true _ _).0 ab in
        record {
          vendors = (field_iff _ _).0 a;
          libraries = (field_iff _ _).0 b;
          names = (field_iff _ _).0 c;
          versions = (field_iff _ _).0 d;
        }

    from : Matches v w → vlnv_eq v w ≡ true
    from m = (and-true _ _).1 (
      (and-true _ _).1 (
        (and-true _ _).1 ((field_iff _ _).1 m.vendors, (field_iff _ _).1 m.libraries),
        (field_iff _ _).1 m.names,
      ),
      (field_iff _ _).1 m.versions,
    )

-- The comparison is symmetric.
pub vlnv_eq_comm : (v w : Vlnv) → vlnv_eq v w ≡ vlnv_eq w v
unfolding vlnv_eq
vlnv_eq_comm v w = ground arith

-- The wildcard matches every tag, on either side.
pub vlnv_eq-wildcard : (v : Vlnv) → (vlnv_eq v wildcard ≡ true) × (vlnv_eq wildcard v ≡ true)
unfolding vlnv_eq
vlnv_eq-wildcard v = ground arith
