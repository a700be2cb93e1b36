-- ===== src/Gpu/Reachable.antt =====
-- The mappings that the memory manager has around registerHostMemory, and around registerIoMemory behind its
-- first test, of gpu/src/gpu.cpp.
use fpga.Prelude.{
  ℕ, Bool, true, false, List, ◌∷◌, pure, modify, ◌>>◌, ◌≡◌, refl, Spec, Spec-bind, Spec-pure,
  Spec-modify, Spec-pre, Spec-option, gets-keeps,
}
use fpga.Gpu.{
  Block, Mapping, Platform, Gpu, io_mapping, host_mapping, register_io, map_io_memory,
  register_host_memory,
}
use fpga.Gpu.Mappings.{MappingLaws, Has, Unchanged, added, quiet, required-Has, gated}

module _ {W : Type 0} (p : Platform W) (laws : MappingLaws p) (gpu : Gpu) (mem : Block)
    (ms : List Mapping) where
  -- Where `true` is answered, a mapping from the GPU to the place is the newest.
  abbrev pub GpuReaches : (Mapping → Type 0) → Bool → W → Type 0
  GpuReaches Place true w =
      (m : Mapping) × Has p laws (m ∷ ms) w × (m.from_space ≡ gpu.master_pcie_space) × Place m
  GpuReaches Place false w = Has p laws ms w

  -- At an address of the PCIe bus, with its size there.
  abbrev pub OnBus : Mapping → Type 0
  OnBus m = m.to_space ≡ p.pci_address_space

  -- The whole block.
  abbrev pub WholeBlock : Mapping → Type 0
  WholeBlock m = (m.to_space ≡ mem.addr_space_id) × (m.size ≡ mem.size)

  nothing_made :
      {Place : Mapping → Type 0}
      → Spec (Has p laws ms) (pure false) (GpuReaches Place) (Unchanged p laws ms)
  nothing_made = Spec-pure false λ w has. has

  made :
      {Place : Mapping → Type 0} (m : Mapping)
      → m.from_space ≡ gpu.master_pcie_space
      → Place m
      → Spec
          (Has p laws ms)
          (modify (p.create_mapping m) >> pure true)
          (GpuReaches Place)
          (Unchanged p laws ms)
  made {Place} m from to =
      Spec-bind _ _
        (Spec-modify _ {Q = λ _. GpuReaches Place true}
          λ w has. (m, added p laws ms m w has, from, to))
        λ _. Spec-pure true λ w r. r

  register_io-Reaches :
      (base_for_process base_on_pci size_on_pci : ℕ)
      → Spec
          (Has p laws ms)
          (register_io p gpu base_for_process base_on_pci size_on_pci)
          (GpuReaches OnBus)
          (Unchanged p laws ms)
  unfolding register_io
  register_io-Reaches base on_pci size =
      Spec-bind _ _ (quiet p laws ms _ (laws.set_device-mappings gpu.gpu_id)) λ _.
        Spec-bind _ _ (quiet p laws ms _ (laws.host_register-mappings base size true)) λ registered.
          Spec-bind _ _ (gated p laws ms registered _ (laws.host_get_device_pointer-mappings base))
            λ pointer.
              Spec-option pointer nothing_made
                λ device_pointer. made (io_mapping p gpu device_pointer on_pci size) refl refl

  map_io_memory-Reaches :
      Spec (Has p laws ms) (map_io_memory p gpu mem) (GpuReaches OnBus) (Unchanged p laws ms)
  unfolding map_io_memory
  map_io_memory-Reaches = Spec-bind _ _ (Spec-pre (gets-keeps _) λ w has. has) λ hop.
      Spec-pre
        (Spec-option hop nothing_made λ space. Spec-bind _ _ (required-Has p laws ms _) λ process.
          Spec-bind _ _ (gets-keeps _) λ on_pci.
            Spec-pre (Spec-option on_pci nothing_made λ t. register_io-Reaches process.0 t.0 t.1)
              λ w has. has.0)
        λ w has. has.0

  register_host_memory-Reaches :
      Spec
        (Has p laws ms)
        (register_host_memory p gpu mem)
        (GpuReaches WholeBlock)
        (Unchanged p laws ms)
  unfolding register_host_memory
  register_host_memory-Reaches = Spec-bind _ _ (required-Has p laws ms _) λ translation.
      Spec-bind _ _ (quiet p laws ms _ (laws.host_register-mappings translation.0 mem.size false))
        λ registered.
          Spec-bind _ _
            (gated p laws ms registered _ (laws.host_get_device_pointer-mappings translation.0))
            λ pointer.
              Spec-option pointer nothing_made
                λ device_pointer. made (host_mapping p gpu mem device_pointer) refl (refl, refl)

  -- From the mappings `ms`: where registerHostMemory answers true, exactly one mapping has been added, from the GPU
  -- to the whole block; where registerIoMemory answers true behind its first test, exactly one from the GPU
  -- to the PCIe bus. Where they answer false `ms` stands. They throw nothing but out_of_range, and then `ms`
  -- stands. CUDA must make no mappings.
  pub register_memory-GpuReaches :
      Spec
        (Has p laws ms)
        (register_host_memory p gpu mem)
        (GpuReaches WholeBlock)
        (Unchanged p laws ms)
      × Spec (Has p laws ms) (map_io_memory p gpu mem) (GpuReaches OnBus) (Unchanged p laws ms)
  register_memory-GpuReaches = (register_host_memory-Reaches, map_io_memory-Reaches)
