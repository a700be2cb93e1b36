-- ===== src/Gpu/Startup.antt =====
-- How GPUs are made in gpu/src/gpu.cpp: their constructor, init, and GpuFactory::make.
use fpga.Prelude.{
  ℕ, zero, suc, ◌+◌, ◌-◌, ◌%◌, ◌^◌, Bool, true, List, [], ◌∷◌, ◌++◌, none, some, if◌then◌else◌,
  codes, M, pure, run, modify, gets, ◌>>=◌, ◌>>◌,
}
use fpga.Pcie.Bridge.{Region, bar_name}
use fpga.Gpu.{Platform, Gpu, get_name}

module _ {W : Type 0} (p : Platform W) where
  -- The loop of init over the regions of the device.
  unfoldable pub map_gpu_regions : ℕ → List Region → M W (Unit {0})
  unfolding get_name
  map_gpu_regions gpu_id [] = pure tt
  map_gpu_regions gpu_id (region ∷ regions) = do
    name ← get_name p gpu_id
    space ← run (p.get_or_create_address_space (p.slave_addr_space_name name (bar_name region.num)))
    modify (
        p.create_mapping (record {
          src = region.start;
          dest = 0;
          size = (region.end + 2 ^ 64 - region.start + 1) % 2 ^ 64;
          name = codes "PCI-" ++ bar_name region.num;
          from_space = p.pci_address_space;
          to_space = space;
        }))
    map_gpu_regions gpu_id regions

  -- The slot that init reads; what cudaGetDeviceProperties leaves where it fails is a parameter.
  unfoldable pub slot_of : ℕ → W → ℕ × ℕ × ℕ
  slot_of gpu_id w = elim (p.get_device_properties gpu_id w) [
    | none ↦ p.unset_slot w
    | some prop ↦ prop.slot
  ]

  -- Gpu::Gpu
  unfoldable pub construct_gpu : ℕ → M W Gpu
  unfolding get_name
  construct_gpu gpu_id = do
    _ ← get_name p gpu_id
    gdr ← run p.gdr_open
    pure (record { gpu_id = gpu_id; gdr = gdr; master_pcie_space = p.unset_space })

  -- Gpu::init
  unfoldable pub init_gpu : Gpu → M W (Gpu × Bool)
  unfolding get_name slot_of map_gpu_regions
  init_gpu gpu = do
    name ← get_name p gpu.gpu_id
    space ← run (p.get_or_create_address_space (p.master_addr_space_name name (codes "pcie")))
    slot ← gets (slot_of gpu.gpu_id)
    regions ← run (p.get_regions slot)
    map_gpu_regions gpu.gpu_id regions
    pure (record gpu { master_pcie_space = space }, true)

  -- The loop of GpuFactory::make over `count` GPUs from `gpu_id` on.
  unfoldable pub make_gpus_from : ℕ → ℕ → M W (List Gpu)
  unfolding construct_gpu init_gpu
  make_gpus_from zero gpu_id = pure []
  make_gpus_from (suc count) gpu_id = do
    active ← run (p.set_device gpu_id)
    if active
        then (do
          gpu ← construct_gpu gpu_id
          ready ← init_gpu gpu
          rest ← make_gpus_from count (gpu_id + 1)
          pure (if ready.1 then ready.0 ∷ rest else rest))
        else make_gpus_from count (gpu_id + 1)

  -- GpuFactory::make
  unfoldable pub make_gpus : M W (List Gpu)
  unfolding make_gpus_from
  make_gpus = do count ← gets p.get_device_count; make_gpus_from count 0
