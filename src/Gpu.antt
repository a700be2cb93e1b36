-- ===== src/Gpu.antt =====
-- gpu/src/gpu.cpp: a GPU, and how memory becomes accessible to it and from it. CUDA, GDRcopy, the PCI
-- library and the memory manager are parameters. Its allocator stands in Gpu.Allocator.
pub mod Pages
pub mod Mappings
pub mod Reachable
pub mod Allocator
pub mod Calls
pub mod Chunks
pub mod Growth
pub mod Startup
mod Examples
use fpga.Prelude.{
  ℕ, ◌+◌, ◌-◌, ◌%◌, ◌^◌, Bool, true, false, not, List, [], ◌∷◌, ◌++◌, Option, none, some,
  if◌then◌else◌, leb, ◌==◌, Text, codes, M, pure, throw, run, modify, gets, ◌>>=◌, ◌>>◌,
  out_of_range, plain_exception, returned, threw,
}
use fpga.Pcie.Bridge.{Region}

-- MemoryBlock
pub record Block : Type 0 where
  pub offset : ℕ
  pub size : ℕ
  pub addr_space_id : ℕ

-- The arguments of MemoryManager::createMapping
pub record Mapping : Type 0 where
  pub src : ℕ
  pub dest : ℕ
  pub size : ℕ
  pub name : Text
  pub from_space : ℕ
  pub to_space : ℕ

-- cudaDeviceProp, as far as the code reads it
pub record DeviceProp : Type 0 where
  pub name : Text
  pub slot : ℕ × ℕ × ℕ

-- The libraries that the code calls, over their state `W`. A call that may fail answers `none` or false
-- then; a path is given by its first space, and `none` stands for what the memory manager throws
-- without. A translation is the local address of its start and its size. `unset_slot` and `unset_space` are
-- what members hold that nothing has set.
pub record Platform (W : Type 0) : Type 0 where
  pub set_device : ℕ → W → Bool × W
  pub get_device_properties : ℕ → W → Option DeviceProp
  pub unset_slot : W → ℕ × ℕ × ℕ
  pub unset_space : ℕ
  pub get_device_count : W → ℕ
  pub host_register : ℕ → ℕ → Bool → W → Bool × W
  pub host_get_device_pointer : ℕ → W → Option ℕ × W
  pub malloc : ℕ → W → Option ℕ × W
  pub free : ℕ → W → Bool × W
  pub memcpy : ℕ → ℕ → ℕ → W → W
  pub kernel_memcpy : ℕ → ℕ → ℕ → W → W
  pub device_synchronize : W → W
  pub set_sync_memops : ℕ → W → Bool × W
  pub gdr_open : W → Bool × W
  pub gdr_pin_buffer : ℕ → ℕ → W → Option ℕ × W
  pub gdr_map : ℕ → ℕ → W → Option ℕ × W
  pub gdr_get_info : ℕ → W → Option (ℕ × ℕ) × W
  pub gdr_map_dma : ℕ → W → List ℕ × W
  pub get_regions : ℕ × ℕ × ℕ → W → List Region × W
  pub pci_address_space : ℕ
  pub process_address_space : ℕ
  pub first_hop : ℕ → ℕ → W → Option ℕ
  pub get_translation : ℕ → ℕ → W → Option (ℕ × ℕ)
  pub get_translation_from_process : ℕ → W → Option (ℕ × ℕ)
  pub create_mapping : Mapping → W → W
  pub master_addr_space_name : Text → Text → Text
  pub slave_addr_space_name : Text → Text → Text
  pub get_or_create_address_space : Text → W → ℕ × W
  pub remove_address_space : ℕ → W → W
  pub decimal : ℕ → Text
  pub hexadecimal : ℕ → Text

-- Gpu
pub record Gpu : Type 0 where
  pub gpu_id : ℕ
  pub gdr : Bool
  pub master_pcie_space : ℕ

module _ {W : Type 0} (p : Platform W) where
  -- What the memory manager throws without.
  unfoldable pub required : {A : Type 0} → (W → Option A) → M W A
  required f w = elim (f w) [ none ↦ threw out_of_range w | some a ↦ returned a w ]

  -- Gpu::getName
  unfoldable pub get_name : ℕ → M W Text
  get_name gpu_id = do
    properties ← gets (p.get_device_properties gpu_id)
    elim properties [
      | none ↦ throw plain_exception
      | some prop ↦
          pure (codes "gpu" ++ (p.decimal gpu_id ++ (codes "(" ++ (prop.name ++ codes ")"))))
    ]

  -- Memory of the host or behind the PCIe bus, for the GPU.
  abbrev pub io_mapping : Gpu → ℕ → ℕ → ℕ → Mapping
  io_mapping gpu device_pointer base_on_pci size_on_pci = record {
    src = device_pointer;
    dest = base_on_pci;
    size = size_on_pci;
    name = codes "CudaIoMem";
    from_space = gpu.master_pcie_space;
    to_space = p.pci_address_space;
  }

  abbrev pub host_mapping : Gpu → Block → ℕ → Mapping
  host_mapping gpu mem device_pointer = record {
    src = device_pointer;
    dest = 0;
    size = mem.size;
    name = codes "CudaHostMem";
    from_space = gpu.master_pcie_space;
    to_space = mem.addr_space_id;
  }

  -- Memory of the GPU, for the process and for the PCIe bus. `info` is the address on the GPU where
  -- the mapping of GDRcopy starts, and its size.
  abbrev pub process_mapping : Block → ℕ → ℕ → ℕ × ℕ → Mapping
  process_mapping mem devptr bar_address info = record {
    src = (bar_address + (info.0 + 2 ^ 64 - devptr)) % 2 ^ 64;
    dest = 0;
    size = info.1;
    name = codes "GDRcopy";
    from_space = p.process_address_space;
    to_space = mem.addr_space_id;
  }

  abbrev pub bus_mapping : Block → ℕ → Mapping
  bus_mapping mem address = record {
    src = address;
    dest = 0;
    size = mem.size;
    name = codes "GDRcopyDMA";
    from_space = p.pci_address_space;
    to_space = mem.addr_space_id;
  }

  module _ (gpu : Gpu) where
    -- registerIoMemory, from cudaSetDevice on
    unfoldable pub register_io : ℕ → ℕ → ℕ → M W Bool
    register_io base_for_process base_on_pci size_on_pci = do
      _ ← run (p.set_device gpu.gpu_id)
      registered ← run (p.host_register base_for_process size_on_pci true)
      pointer ← (if registered then run (p.host_get_device_pointer base_for_process) else pure none)
      elim pointer [
        | none ↦ pure false
        | some device_pointer ↦ do
          modify (p.create_mapping (io_mapping gpu device_pointer base_on_pci size_on_pci))
          pure true
      ]

    -- registerIoMemory, behind the check that nothing has to be mapped
    unfoldable pub map_io_memory : Block → M W Bool
    unfolding required register_io
    map_io_memory mem = do
      hop ← gets (p.first_hop p.process_address_space mem.addr_space_id)
      elim hop [
        | none ↦ pure false
        | some mapped_base_space ↦ do
          process ← required (p.get_translation_from_process mapped_base_space)
          on_pci ← gets (p.get_translation p.pci_address_space mapped_base_space)
          elim on_pci [ none ↦ pure false | some t ↦ register_io process.0 t.0 t.1 ]
      ]

    -- Gpu::registerHostMemory
    unfoldable pub register_host_memory : Block → M W Bool
    unfolding required
    register_host_memory mem = do
      translation ← required (p.get_translation_from_process mem.addr_space_id)
      registered ← run (p.host_register translation.0 mem.size false)
      pointer ← (if registered then run (p.host_get_device_pointer translation.0) else pure none)
      elim pointer [
        | none ↦ pure false
        | some device_pointer ↦ do
          modify (p.create_mapping (host_mapping gpu mem device_pointer))
          pure true
      ]

    -- makeAccessibleToPCIeAndVA, behind gdr_map_dma
    unfoldable pub add_bus_mapping : Block → List ℕ → M W Bool
    add_bus_mapping mem [] = pure false
    add_bus_mapping mem (_ ∷ _ ∷ _) = pure false
    add_bus_mapping mem (address ∷ []) = do
      modify (p.create_mapping (bus_mapping mem address))
      pure true

    -- makeAccessibleToPCIeAndVA, from gdr_map_dma on
    unfoldable pub map_dma : Block → ℕ → M W Bool
    unfolding add_bus_mapping
    map_dma mem handle = run (p.gdr_map_dma handle) >>= add_bus_mapping mem

    -- makeAccessibleToPCIeAndVA, from the pinned buffer on
    unfoldable pub map_pinned : Block → ℕ → ℕ → M W Bool
    unfolding map_dma
    map_pinned mem devptr handle = do
      bar ← run (p.gdr_map handle mem.size)
      elim bar [
        | none ↦ pure false
        | some bar_address ↦ do
          found ← run (p.gdr_get_info handle)
          elim found [
            | none ↦ pure false
            | some info ↦ do
              modify (p.create_mapping (process_mapping mem devptr bar_address info))
              map_dma mem handle
          ]
      ]

    -- Gpu::makeAccessibleToPCIeAndVA, for memory of this GPU
    unfoldable pub pin_and_map : Block → M W Bool
    unfolding required map_pinned
    pin_and_map mem = do
      translation ← required (p.get_translation gpu.master_pcie_space mem.addr_space_id)
      synced ← run (p.set_sync_memops translation.0)
      handle ← (if synced then run (p.gdr_pin_buffer translation.0 mem.size) else pure none)
      elim handle [ none ↦ pure false | some mh ↦ map_pinned mem translation.0 mh ]

    -- Gpu::makeAccessibleToPCIeAndVA
    unfoldable pub make_accessible_to_pcie_and_va : Block → M W Bool
    unfolding pin_and_map
    make_accessible_to_pcie_and_va mem = if not gpu.gdr then pure false else (do
      hop ← gets (p.first_hop gpu.master_pcie_space mem.addr_space_id)
      elim hop [
        | none ↦ pure false
        | some space ↦ if space == p.pci_address_space then pure false else pin_and_map mem
      ])

    -- Gpu::translate
    unfoldable pub translate : Block → M W (ℕ × ℕ)
    unfolding required
    translate dst = required (p.get_translation gpu.master_pcie_space dst.addr_space_id)

    -- Gpu::memcpySync
    unfoldable pub memcpy_sync : Block → Block → ℕ → M W (Unit {0})
    unfolding translate
    memcpy_sync src dst size = do
      src_translation ← translate src
      dst_translation ← translate dst
      _ ← run (p.set_device gpu.gpu_id)
      modify (p.memcpy dst_translation.0 src_translation.0 size)

    -- Gpu::memcpyKernel
    unfoldable pub memcpy_kernel : Block → Block → ℕ → M W (Unit {0})
    unfolding translate
    memcpy_kernel src dst size = do
      src_translation ← translate src
      dst_translation ← translate dst
      _ ← run (p.set_device gpu.gpu_id)
      modify (p.kernel_memcpy dst_translation.0 src_translation.0 size)
      modify p.device_synchronize

    -- Gpu::~Gpu
    unfoldable pub destroy_gpu : M W (Unit {0})
    destroy_gpu = modify (p.remove_address_space gpu.master_pcie_space)
