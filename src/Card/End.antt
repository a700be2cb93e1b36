-- ===== src/Card/End.antt =====
-- Card::~Card, over the windows of the IOMMU.
use fpga.Prelude.{
  ℕ, List, [], ◌∷◌, Option, none, some, ◌≡◌, refl, sym, subst, ap, Map, find, Distinct,
  same_key_refl, nat_key, if◌then◌else◌, Error, Spec, Spec-bind, Spec-pure, Spec-modify, Spec-pre,
  Spec-each, gets-keeps, arith,
}
use fpga.Card.{
  MemoryBlock, Driver, Card, IpMethods, reverse_onto, unmap_all, stop_ips, clear_ips, destroy,
  device_translation,
}
use fpga.Card.Ownership.{Owned, Owned-same, updated}
use fpga.Card.Memory.{DriverLaws, Owns, OwnsBy, unmap_space-OwnsBy}

module _ {H I : Type 0} (driver : Driver H) (laws : DriverLaws driver)
    (methods : IpMethods H I) where
  -- How the destructor fails where its IPs do not: not at all.
  abbrev FailsNever : Option Error → Card H I → Type 0
  FailsNever e card = ⊥

  -- Stopping and releasing an IP returns, and every window still belongs to a mapped block.
  pub record IpLaws : Type 0 where
    pub stop-Owns :
        (ip : I) → Spec (Owns driver laws) (methods.stop ip) (λ _. Owns driver laws) FailsNever
    pub release-Owns :
        (ip : I) → Spec (Owns driver laws) (methods.release ip) (λ _. Owns driver laws) FailsNever

  -- No window is left.
  abbrev pub Closed : Card H I → Type 0
  Closed card = (iova : ℕ) → laws.window iova card.hw ≡ none

  stop_ips-Owns :
      IpLaws
      → (ips : List I)
      → Spec (Owns driver laws) (stop_ips methods ips) (λ _. Owns driver laws) FailsNever
  unfolding stop_ips
  stop_ips-Owns ip_laws [] = Spec-pure tt (λ card o. o)
  stop_ips-Owns ip_laws (ip ∷ ips) =
      Spec-bind _ _ (ip_laws.stop-Owns ip) λ _. stop_ips-Owns ip_laws ips

  clear_ips-Owns :
      IpLaws
      → (ips : List I)
      → Spec (Owns driver laws) (clear_ips methods ips) (λ _. Owns driver laws) FailsNever
  unfolding clear_ips
  clear_ips-Owns ip_laws [] =
      Spec-modify _ (λ card o. record { distinct = o.distinct; owned = o.owned })
  clear_ips-Owns ip_laws (ip ∷ ips) =
      Spec-bind _ _ (ip_laws.release-Owns ip) λ _. clear_ips-Owns ip_laws ips

  -- The blocks behind the first one, where no key stands twice.
  rest_find :
      (space i : ℕ) (block : MemoryBlock) (blocks : Map ℕ MemoryBlock)
      → find space blocks ≡ none
      → find i blocks ≡ updated space none (λ j. find j ((space, block) ∷ blocks)) i
  rest_find space i block blocks fresh = grind arith

  none_left :
      (card : Card H I)
      → Owned
          (λ i. laws.window i card.hw)
          (λ space. device_translation driver space card)
          (λ space. none)
      → (iova : ℕ) (window : Option ℕ) → laws.window iova card.hw ≡ window
      → window ≡ none
  none_left card o iova none e = refl
  none_left card o iova (some size) e = let (space, block, m, t) = o.every iova size e in absurd cc

  unmap_all-Closed :
      (blocks all : Map ℕ MemoryBlock)
      → Distinct blocks
      → Spec
          (OwnsBy driver laws (λ i. find i blocks) all)
          (unmap_all driver blocks)
          (λ _. Closed)
          FailsNever
  unfolding unmap_all
  unmap_all-Closed [] all d = Spec-pure tt (λ card o iova. none_left card o.0 iova _ refl)
  unmap_all-Closed ((space, block) ∷ blocks) all (fresh, d) =
      Spec-bind _ _
        (unmap_space-OwnsBy driver laws space block (λ i. find i ((space, block) ∷ blocks)) all
          (ap (λ b. if b then some block else find space blocks) (same_key_refl space)))
        λ _. Spec-pre (unmap_all-Closed blocks all d) (λ card (o, same).
          (Owned-same o (λ i. refl) (λ i. refl) (λ i. rest_find space i block blocks fresh), same))

  -- Where every window belongs to a mapped block, and the IPs can be stopped and released, the
  -- destructor of a card comes to its end without an exception, and no window of the IOMMU is left.
  pub destroy-Closed :
      IpLaws → Spec (Owns driver laws) (destroy methods driver) (λ _. Closed) FailsNever
  unfolding destroy
  destroy-Closed ip_laws = Spec-bind _ _ (gets-keeps _) λ ips.
      Spec-bind _ _ (Spec-pre (stop_ips-Owns ip_laws (reverse_onto ips [])) (λ card p. p.0)) λ _.
        Spec-bind _ _ (clear_ips-Owns ip_laws ips) λ _. Spec-bind _ _ (gets-keeps _) λ blocks.
          Spec-each λ card p.
            Spec-pre (unmap_all-Closed blocks blocks (subst Distinct (sym p.1) p.0.distinct))
              (λ c e.
                subst (OwnsBy driver laws (λ i. find i blocks) blocks) (sym e)
                  (Owned-same p.0.owned (λ i. refl) (λ i. refl) (λ i. ap (find i) p.1), sym p.1))
