-- ===== src/Pcie/BridgeMaps.antt =====
-- The mappings that AxiPciExpressBridge::init of lib/ips/pcie.cpp makes.
use mathlib.Core.List.{append_assoc, append-nil}
use fpga.Prelude.{
  ℕ, Bool, true, false, List, [], ◌∷◌, ◌++◌, Option, none, some, Text, codes, Map, find, M, Error,
  pure, ◌≡◌, refl, sym, ap, subst, ◌∙◌, Spec, Spec-bind, Spec-pure, Spec-weaken, Spec-throw,
  Spec-modify, text_key, ◌>>=◌,
}
use fpga.Pcie.Bridge.{
  AxiBar, PciBar, Region, Bridge, BridgeMapping, BridgePlatform, bar_name, bar0_mapping,
  region_mapping, axi_mapping, at_key, map_regions, map_axi_bars, map_bars, bridge_init,
}

abbrev Whatever : {W : Type 0} → Option Error → W → Type 0
Whatever e w = Unit

-- The memory manager keeps the mappings, the newest last, and names an address space once; only createMapping
-- makes mappings. The device has a mapping of BAR0 or none, the size of BAR0, and its regions. All of it where
-- the calls come back.
pub record BridgeLaws {W : Type 0} (p : BridgePlatform W) : Type 0 where
  pub made : W → List BridgeMapping
  pub bar0 : Option ℕ
  pub bar0_size : ℕ
  pub space_of : Text → ℕ
  pub regions : List Region
  pub set_host_to_device-made : (space : ℕ) (w : W) → made (p.set_host_to_device space w) ≡ made w
  pub set_device_to_host-made : (space : ℕ) (w : W) → made (p.set_device_to_host space w) ≡ made w
  pub region_map-made :
      (ms : List BridgeMapping)
      → Spec (λ w. made w ≡ ms) p.region_map (λ b w. (made w ≡ ms) × (b ≡ bar0)) Whatever
  pub region_get_size-made :
      (ms : List BridgeMapping)
      → Spec (λ w. made w ≡ ms) p.region_get_size (λ n w. (made w ≡ ms) × (n ≡ bar0_size)) Whatever
  pub get_or_create-made :
      (name : Text) (ms : List BridgeMapping)
      → Spec
          (λ w. made w ≡ ms)
          (p.get_or_create_address_space name)
          (λ space w. (made w ≡ ms) × (space ≡ space_of name))
          Whatever
  pub get_regions-made :
      (ms : List BridgeMapping)
      → Spec (λ w. made w ≡ ms) p.get_regions (λ rs w. (made w ≡ ms) × (rs ≡ regions)) Whatever
  pub create_mapping-made :
      (m : BridgeMapping) (ms : List BridgeMapping)
      → Spec (λ w. made w ≡ ms) (p.create_mapping m) (λ _ w. made w ≡ ms ++ (m ∷ [])) Whatever

module _ {W : Type 0} (p : BridgePlatform W) (laws : BridgeLaws p) (bridge : Bridge) where
  -- One mapping for each region, by the BAR that the configuration has for it.
  abbrev pub RegionMappings : ℕ → List Region → List BridgeMapping → Type 0
  RegionMappings host [] l = l ≡ []
  RegionMappings host (region ∷ regions) l =
      (bar : PciBar) × (find (bar_name region.num) bridge.pcie_to_axi_translations ≡ some bar)
      × ((rest : List BridgeMapping) × RegionMappings host regions rest
          × (l ≡ region_mapping p host region bar ∷ rest))

  -- One mapping for each AXI BAR, from the address space with its name.
  abbrev pub axi_mappings : Map Text AxiBar → List BridgeMapping
  axi_mappings [] = []
  axi_mappings ((name, bar) ∷ bars) =
      axi_mapping p name bar (laws.space_of (p.slave_addr_space_name name)) ∷ axi_mappings bars

  found_key :
      {V : Type 0} {P : W → Type 0} (o : Option V)
      → Spec P (at_key p o) (λ v w. P w × (o ≡ some v)) Whatever
  unfolding at_key
  found_key none = Spec-throw _ (λ w h. tt)
  found_key (some v) = Spec-pure v (λ w h. (h, refl))

  map_regions-made :
      (host : ℕ) (regions : List Region) (ms : List BridgeMapping)
      → Spec
          (λ w. laws.made w ≡ ms)
          (map_regions p bridge host regions)
          (λ _ w.
            (l : List BridgeMapping) × RegionMappings host regions l × (laws.made w ≡ ms ++ l))
          Whatever
  unfolding map_regions
  map_regions-made host [] ms = Spec-pure tt λ w e. ([], refl, e ∙ sym (append-nil ms))
  map_regions-made host (region ∷ regions) ms =
      Spec-bind _ _ (found_key (find (bar_name region.num) bridge.pcie_to_axi_translations)) λ bar.
        Spec-bind
          {Q = λ _ w.
            (laws.made w ≡ ms ++ (region_mapping p host region bar ∷ []))
            × (find (bar_name region.num) bridge.pcie_to_axi_translations ≡ some bar)}
          _ _
          (record {
            at = λ w (e, found).
                (Spec-weaken {X = Whatever}
                    (laws.create_mapping-made (region_mapping p host region bar) ms) (λ s h. h)
                    (λ a s h. (h, found)) (λ e s h. h)).at
                  w e;
          })
          λ _. record {
            at = λ w (e, found).
                (Spec-weaken {X = Whatever}
                    (map_regions-made host regions (ms ++ (region_mapping p host region bar ∷ [])))
                    (λ s h. h)
                    (λ a s (l, maps, h). (
                      region_mapping p host region bar ∷ l,
                      (bar, found, (l, maps, refl)),
                      h ∙ append_assoc ms (region_mapping p host region bar ∷ []) l,
                    ))
                    (λ e s h. h)).at
                  w e;
          }

  map_axi_bars-made :
      (bars : Map Text AxiBar) (ms : List BridgeMapping)
      → Spec
          (λ w. laws.made w ≡ ms)
          (map_axi_bars p bars)
          (λ _ w. laws.made w ≡ ms ++ axi_mappings bars)
          Whatever
  unfolding map_axi_bars
  map_axi_bars-made [] ms = Spec-pure tt λ w e. e ∙ sym (append-nil ms)
  map_axi_bars-made ((name, bar) ∷ bars) ms =
      Spec-bind _ _ (laws.get_or_create-made (p.slave_addr_space_name name) ms) λ space.
        Spec-bind
          {Q = λ _ w.
            laws.made w
            ≡ ms ++ (axi_mapping p name bar (laws.space_of (p.slave_addr_space_name name)) ∷ [])}
          _ _
          (record {
            at = λ w (e, same).
                (Spec-weaken {X = Whatever}
                    (laws.create_mapping-made (axi_mapping p name bar space) ms) (λ s h. h)
                    (λ a s h. h ∙ ap (λ n. ms ++ (axi_mapping p name bar n ∷ [])) same)
                    (λ e s h. h)).at
                  w e;
          })
          λ _.
            Spec-weaken {X = Whatever} (map_axi_bars-made bars _) (λ s h. h)
              (λ a s h. h ∙ append_assoc ms _ (axi_mappings bars)) (λ e s h. h)

  -- What init has made where it returns: with BAR0 mapped, true and one mapping for BAR0, one for each
  -- region and one for each AXI BAR; without, false and nothing.
  abbrev pub MapsAll : List BridgeMapping → Bool → W → Type 0
  MapsAll ms true w =
      (host : ℕ) × (p.bus_master_interface (codes "M_AXI") ≡ some host)
      × ((mapped : ℕ) × (laws.bar0 ≡ some mapped)
          × ((l : List BridgeMapping) × RegionMappings host laws.regions l
              × (laws.made w
                  ≡ (ms ++ (bar0_mapping p host mapped laws.bar0_size ∷ []))
                    ++ (l ++ axi_mappings bridge.axi_to_pcie_translations))))
  MapsAll ms false w = (laws.bar0 ≡ none) × (laws.made w ≡ ms)

  map_bars-MapsAll :
      (host mapped : ℕ) (ms : List BridgeMapping)
      → p.bus_master_interface (codes "M_AXI") ≡ some host
      → laws.bar0 ≡ some mapped
      → Spec (λ w. laws.made w ≡ ms) (map_bars p bridge host mapped) (MapsAll ms) Whatever
  unfolding map_bars
  map_bars-MapsAll host mapped ms interface there =
      Spec-bind _ _ (laws.region_get_size-made ms) λ size.
        Spec-bind {Q = λ _ w. laws.made w ≡ first} _ _
          (record {
            at = λ w (e, same).
                (Spec-weaken {X = Whatever}
                    (laws.create_mapping-made (bar0_mapping p host mapped size) ms) (λ s h. h)
                    (λ a s h. h ∙ ap (λ n. ms ++ (bar0_mapping p host mapped n ∷ [])) same)
                    (λ e s h. h)).at
                  w e;
          })
          λ _. Spec-bind _ _ (laws.get_or_create-made _ first) λ space.
            Spec-bind {Q = λ _ w. laws.made w ≡ first} _ _
              (Spec-modify _ λ w h. laws.set_device_to_host-made space w ∙ h.0)
              λ _. Spec-bind _ _ (laws.get_regions-made first) λ regions. all regions
    where
      first : List BridgeMapping
      first = ms ++ (bar0_mapping p host mapped laws.bar0_size ∷ [])

      axi : List BridgeMapping
      axi = axi_mappings bridge.axi_to_pcie_translations

      all :
          (regions : List Region)
          → Spec
              (λ w. (laws.made w ≡ first) × (regions ≡ laws.regions))
              (map_regions p bridge host regions >>= λ _.
                map_axi_bars p bridge.axi_to_pcie_translations >>= λ _. pure true)
              (MapsAll ms)
              Whatever
      all regions = record {
        at = λ w (e, same).
            (Spec-bind
                {Q = λ _ w.
                  (l : List BridgeMapping) × RegionMappings host regions l
                  × (laws.made w ≡ first ++ l)}
                _ _ (map_regions-made host regions first)
                λ _. record {
                  at = λ w' (l, maps, h).
                      (Spec-bind {Q = λ _ w. laws.made w ≡ (first ++ l) ++ axi} _ _
                          (map_axi_bars-made bridge.axi_to_pcie_translations (first ++ l))
                          λ _. Spec-pure true λ t done. (
                            host,
                            interface,
                            (
                              mapped,
                              there,
                              (
                                l,
                                subst (λ rs. RegionMappings host rs l) same maps,
                                done ∙ append_assoc first l axi,
                              ),
                            ),
                          )).at
                        w' h;
                }).at
              w e;
      }

  -- From the mappings `ms`: where init returns true, it has made one mapping for BAR0, one for each region of the
  -- device, by the BAR that the configuration has for it, and one for each AXI BAR, in this order, and no
  -- other. It returns false exactly where BAR0 cannot be mapped, and then it has made none. The memory
  -- manager must keep what is mapped, and answer with the same address space for the same name.
  pub bridge_init-MapsAll :
      (ms : List BridgeMapping)
      → Spec (λ w. laws.made w ≡ ms) (bridge_init p bridge) (MapsAll ms) Whatever
  unfolding bridge_init
  bridge_init-MapsAll ms =
      Spec-bind _ _ (found_key (p.bus_master_interface (codes "M_AXI"))) λ host.
        Spec-bind
          {Q = λ _ w. (laws.made w ≡ ms) × (p.bus_master_interface (codes "M_AXI") ≡ some host)} _ _
          (Spec-modify _ λ w (e, found). (laws.set_host_to_device-made host w ∙ e, found))
          λ _. record {
            at = λ w (e, found).
                (Spec-bind _ _ (laws.region_map-made ms) λ mapped. answer host found mapped).at w e;
          }
    where
      answer :
          (host : ℕ)
          → p.bus_master_interface (codes "M_AXI") ≡ some host
          → (mapped : Option ℕ)
          → Spec
              (λ w. (laws.made w ≡ ms) × (mapped ≡ laws.bar0))
              (elim mapped as (λ _. M W Bool) [
                | none ↦ pure false
                | some bar0 ↦ map_bars p bridge host bar0
              ])
              (MapsAll ms)
              Whatever
      answer host found none = Spec-pure false λ w (e, same). (sym same, e)
      answer host found (some bar0) = record {
        at = λ w (e, same). (map_bars-MapsAll host bar0 ms found (sym same)).at w e;
      }
