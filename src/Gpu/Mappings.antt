-- ===== src/Gpu/Mappings.antt =====
-- The mappings that the memory manager has around makeAccessibleToPCIeAndVA and
-- makeAccessibleFromPCIeOrHostRam of gpu/src/gpu.cpp.
use fpga.Prelude.{
  ℕ, Bool, true, false, not, List, [], ◌∷◌, Option, none, some, if◌then◌else◌, ◌==◌, ◌≡◌, ◌⊎◌, inl,
  inr, refl, ap, ◌∙◌, Error, Ensures, Spec, Spec-bind, Spec-run, Spec-pure, Spec-if, Spec-modify,
  Spec-pre, Spec-option, gets-keeps, out_of_range, returned, threw, pure, run,
}
use fpga.Gpu.{
  Block, Mapping, Platform, Gpu, required, bus_mapping, process_mapping, add_bus_mapping, map_dma,
  map_pinned, pin_and_map, make_accessible_to_pcie_and_va,
}

-- The memory manager has the mappings that it was given; CUDA and GDRcopy make none.
pub record MappingLaws {W : Type 0} (p : Platform W) : Type 0 where
  pub mappings : W → List Mapping
  pub create_mapping-mappings :
      (m : Mapping) (w : W) → mappings (p.create_mapping m w) ≡ m ∷ mappings w
  pub set_device-mappings : (id : ℕ) (w : W) → mappings (p.set_device id w).1 ≡ mappings w
  pub host_register-mappings :
      (base size : ℕ) (io : Bool) (w : W) → mappings (p.host_register base size io w).1 ≡ mappings w
  pub host_get_device_pointer-mappings :
      (base : ℕ) (w : W) → mappings (p.host_get_device_pointer base w).1 ≡ mappings w
  pub set_sync_memops-mappings :
      (ptr : ℕ) (w : W) → mappings (p.set_sync_memops ptr w).1 ≡ mappings w
  pub gdr_pin_buffer-mappings :
      (ptr size : ℕ) (w : W) → mappings (p.gdr_pin_buffer ptr size w).1 ≡ mappings w
  pub gdr_map-mappings :
      (handle size : ℕ) (w : W) → mappings (p.gdr_map handle size w).1 ≡ mappings w
  pub gdr_get_info-mappings :
      (handle : ℕ) (w : W) → mappings (p.gdr_get_info handle w).1 ≡ mappings w
  pub gdr_map_dma-mappings : (handle : ℕ) (w : W) → mappings (p.gdr_map_dma handle w).1 ≡ mappings w

module _ {W : Type 0} (p : Platform W) (laws : MappingLaws p) where
  -- The mappings are `ms`.
  abbrev pub Has : List Mapping → W → Type 0
  Has ms w = laws.mappings w ≡ ms

  -- A mapping from one space to another is the newest one, in front of `ms`.
  abbrev pub Added : ℕ → ℕ → ℕ → List Mapping → W → Type 0
  Added from to size ms w =
      (m : Mapping) × (laws.mappings w ≡ m ∷ ms)
      × (m.from_space ≡ from)
      × (m.to_space ≡ to)
      × (m.size ≡ size)

  -- The process can reach the block through the newest mapping.
  abbrev pub ProcessReaches : Block → List Mapping → List Mapping → Type 0
  ProcessReaches mem ms now =
      (m : Mapping) × (now ≡ m ∷ ms)
      × (m.from_space ≡ p.process_address_space)
      × (m.to_space ≡ mem.addr_space_id)

  -- Where it answers true the process and, with its whole size, the PCIe bus reach the block; else
  -- at most the process does.
  abbrev pub ReachedFrom : Block → List Mapping → Bool → W → Type 0
  ReachedFrom mem ms true w =
      (now : List Mapping) × ProcessReaches mem ms now
      × Added p.pci_address_space mem.addr_space_id mem.size now w
  ReachedFrom mem ms false w = Has ms w ⊎ ProcessReaches mem ms (laws.mappings w)

  abbrev pub Unchanged : List Mapping → Option Error → W → Type 0
  Unchanged ms e w = (e ≡ some out_of_range) × Has ms w

  pub added :
      (ms : List Mapping) (m : Mapping) (w : W) → Has ms w → Has (m ∷ ms) (p.create_mapping m w)
  added ms m w has = laws.create_mapping-mappings m w ∙ ap (λ l. m ∷ l) has

  pub quiet :
      {A : Type 0} {X : Option Error → W → Type 0} (ms : List Mapping) (f : W → A × W)
      → ((w : W) → laws.mappings (f w).1 ≡ laws.mappings w)
      → Spec (Has ms) (run f) (λ _. Has ms) X
  quiet ms f same = Spec-run f λ w has. same w ∙ has

  pub required-Has :
      {A : Type 0} (ms : List Mapping) (f : W → Option A)
      → Spec (Has ms) (required p f) (λ _. Has ms) (Unchanged ms)
  unfolding required
  required-Has {A} ms f = record { at = λ w has. answer w has (f w) }
    where
      answer :
          (w : W)
          → Has ms w
          → (o : Option A)
          → Ensures
              (λ _. Has ms)
              (Unchanged ms)
              (elim o [ none ↦ threw out_of_range w | some a ↦ returned a w ])
      answer w has none = (refl, has)
      answer w has (some a) = has

  -- A call that is only made after the one before it went well.
  pub gated :
      {X : Option Error → W → Type 0} (ms : List Mapping) (ok : Bool) (f : W → Option ℕ × W)
      → ((w : W) → laws.mappings (f w).1 ≡ laws.mappings w)
      → Spec (Has ms) (if ok then run f else pure none) (λ _. Has ms) X
  gated ms ok f same = Spec-if ok _ _ (λ e. quiet ms f same) (λ e. Spec-pure none λ w has. has)

  module _ (gpu : Gpu) (mem : Block) (ms : List Mapping) where
    map_dma-Reached :
        (now : List Mapping) (handle : ℕ)
        → ProcessReaches mem ms now
        → Spec (Has now) (map_dma p gpu mem handle) (ReachedFrom mem ms) (Unchanged ms)
    unfolding map_dma add_bus_mapping
    map_dma-Reached now handle (m, e, from, to) =
        Spec-bind _ _ (quiet now _ (laws.gdr_map_dma-mappings handle)) answer
      where
        failed : Spec (Has now) (pure false) (ReachedFrom mem ms) (Unchanged ms)
        failed = Spec-pure false λ w has. inr (m, has ∙ e, from, to)

        answer :
            (addresses : List ℕ)
            → Spec
                (Has now)
                (add_bus_mapping p gpu mem addresses)
                (ReachedFrom mem ms)
                (Unchanged ms)
        answer [] = failed
        answer (a ∷ b ∷ others) = failed
        answer (a ∷ []) =
            Spec-bind _ _
              (Spec-modify _ {Q = λ _. ReachedFrom mem ms true} λ w has. (
                now,
                (m, e, from, to),
                (bus_mapping p mem a, added now (bus_mapping p mem a) w has, refl, refl, refl),
              ))
              λ _. Spec-pure true λ w r. r

    no_mapping : Spec (Has ms) (pure false) (ReachedFrom mem ms) (Unchanged ms)
    no_mapping = Spec-pure false λ w has. inl has

    map_pinned-Reached :
        (devptr handle : ℕ)
        → Spec (Has ms) (map_pinned p gpu mem devptr handle) (ReachedFrom mem ms) (Unchanged ms)
    unfolding map_pinned
    map_pinned-Reached devptr handle =
        Spec-bind _ _ (quiet ms _ (laws.gdr_map-mappings handle mem.size)) λ bar.
          Spec-option bar no_mapping λ bar_address.
            Spec-bind _ _ (quiet ms _ (laws.gdr_get_info-mappings handle)) λ info.
              Spec-option info no_mapping λ fields.
                Spec-bind _ _
                  (Spec-modify _
                    {Q = λ _. Has (process_mapping p mem devptr bar_address fields ∷ ms)}
                    (added ms _))
                  λ _.
                    map_dma-Reached _ handle
                      (process_mapping p mem devptr bar_address fields, refl, refl, refl)

    pin_and_map-Reached : Spec (Has ms) (pin_and_map p gpu mem) (ReachedFrom mem ms) (Unchanged ms)
    unfolding pin_and_map
    pin_and_map-Reached = Spec-bind _ _ (required-Has ms _) λ translation.
        Spec-bind _ _ (quiet ms _ (laws.set_sync_memops-mappings translation.0)) λ synced.
          Spec-bind _ _ (gated ms synced _ (laws.gdr_pin_buffer-mappings translation.0 mem.size))
            λ handle. Spec-option handle no_mapping λ mh. map_pinned-Reached translation.0 mh

    -- From the mappings `ms`: where `make_accessible_to_pcie_and_va` answers true, it has added two
    -- mappings to them, the first from the process to the block, the second from the PCIe bus to the
    -- block with the block's size. Where it answers false, it has added nothing, or only the first.
    -- It throws nothing but out_of_range, and then `ms` stands. CUDA and GDRcopy must make no
    -- mappings.
    pub make_accessible_to_pcie_and_va-Reached :
        Spec (Has ms) (make_accessible_to_pcie_and_va p gpu mem) (ReachedFrom mem ms) (Unchanged ms)
    unfolding make_accessible_to_pcie_and_va
    make_accessible_to_pcie_and_va-Reached =
        Spec-if (not gpu.gdr) _ _ (λ e. no_mapping)
          λ e. Spec-bind _ _ (Spec-pre (gets-keeps _) λ w has. has) λ hop.
            Spec-pre
              (Spec-option hop no_mapping λ space.
                Spec-if (space == p.pci_address_space) _ _ (λ e. no_mapping)
                  (λ e. pin_and_map-Reached))
              λ w has. has.0
