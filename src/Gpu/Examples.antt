-- ===== src/Gpu/Examples.antt =====
-- Tests of gpu/src/gpu.cpp with a platform that only keeps its mappings, and its theorems there.
use fpga.Prelude.{
  ℕ, ◌+◌, ◌-◌, ◌≤◌, true, false, List, [], ◌∷◌, none, some, if◌then◌else◌, ◌==◌, ◌≡◌, refl, arith,
  ◌*◌, ◌<◌, map, stuck, codes, Spec, returned, ltb, Outcome, threw, ◌>>=◌, ◌++◌,
}
use fpga.Gpu.{
  Block, Mapping, Platform, Gpu, make_accessible_to_pcie_and_va, register_host_memory,
  map_io_memory,
}
use fpga.Gpu.Pages.{chunk_size, chunk_size-pages, gpu_page_size}
use fpga.Gpu.Mappings.{
  MappingLaws, Has, ReachedFrom, Unchanged, make_accessible_to_pcie_and_va-Reached,
}
use fpga.Gpu.Reachable.{GpuReaches, WholeBlock, OnBus, register_memory-GpuReaches}
use fpga.Gpu.Allocator.{Linear, GpuAllocator, BlockList, allocate_block, refill}
use fpga.Gpu.Chunks.{LinearLaws, Chunks, NotStuck, has_room}
use fpga.Gpu.Growth.{Allocated, allocate_block-returns}
use fpga.Gpu.Startup.{make_gpus}

-- The mappings, and the first address that cudaMalloc has not given.
record Toy : Type 0 where
  mappings : List Mapping
  next : ℕ

abbrev toy : Platform Toy
toy = record {
  set_device = λ id w. (ltb id 2, w);
  get_device_properties = λ id w. some (record { name = codes "toy"; slot = (0, 1, 2) });
  unset_slot = λ w. (0, 0, 0);
  unset_space = 0;
  get_device_count = λ w. 3;
  host_register = λ base size io w. (true, w);
  host_get_device_pointer = λ base w. (some (base + 4096), w);
  malloc = λ size w. (some w.next, record w { next = w.next + size });
  free = λ addr w. (true, w);
  memcpy = λ dst src size w. w;
  kernel_memcpy = λ dst src size w. w;
  device_synchronize = λ w. w;
  set_sync_memops = λ ptr w. (true, w);
  gdr_open = λ w. (true, w);
  gdr_pin_buffer = λ ptr size w. (some 7, w);
  gdr_map = λ handle size w. (some 500, w);
  gdr_get_info = λ handle w. (some (1024, 65536), w);
  gdr_map_dma = λ handle w. (900 ∷ [], w);
  get_regions = λ slot w. (record { num = 1; start = 0; end = 255 } ∷ [], w);
  pci_address_space = 1;
  process_address_space = 2;
  first_hop = λ from to w. if from == 3 then some to else none;
  get_translation = λ from to w. some (1000, 4096);
  get_translation_from_process = λ to w. some (2000, 8192);
  create_mapping = λ m w. record w { mappings = m ∷ w.mappings };
  master_addr_space_name = λ ip bus. ip ++ bus;
  slave_addr_space_name = λ ip mem. ip ++ mem;
  get_or_create_address_space = λ name w. (9, w);
  remove_address_space = λ id w. w;
  decimal = λ n. (b'0' + n) ∷ [];
  hexadecimal = λ n. (b'0' + n) ∷ [];
}

abbrev toy_laws : MappingLaws toy
toy_laws = record {
  mappings = λ w. w.mappings;
  create_mapping-mappings = λ m w. refl;
  set_device-mappings = λ id w. refl;
  host_register-mappings = λ base size io w. refl;
  host_get_device_pointer-mappings = λ base w. refl;
  set_sync_memops-mappings = λ ptr w. refl;
  gdr_pin_buffer-mappings = λ ptr size w. refl;
  gdr_map-mappings = λ handle size w. refl;
  gdr_get_info-mappings = λ handle w. refl;
  gdr_map_dma-mappings = λ handle w. refl;
}

abbrev gpu0 : Gpu
gpu0 = record { gpu_id = 0; gdr = true; master_pcie_space = 3 }

abbrev no_gdr : Gpu
no_gdr = record gpu0 { gdr = false }

-- A chunk has the bytes that are left of it.
abbrev bump : Linear Toy Block
bump = record {
  make = λ b. b;
  get_available_memory = λ b. b.size;
  allocate_block = λ size b w. (
    some (record b { size = size }),
    (record b { offset = b.offset + size; size = b.size - size }, w),
  );
}

abbrev bump_laws : LinearLaws bump
bump_laws = record { make-available = λ b. refl }

abbrev no_list : BlockList Toy
no_list = record { insert_memory_block = λ b w. w; remove_memory_block = λ b w. w }

abbrev fresh : GpuAllocator Toy Block
fresh = record { hw = record { mappings = []; next = 65536 }; chunks = [] }

abbrev chunks_left : Outcome (GpuAllocator Toy Block) Block → List ℕ
chunks_left (returned b s) = b.offset ∷ (b.size ∷ map (λ (c : Block). c.size) s.chunks)
chunks_left (threw e s) = []
chunks_left (stuck s) = []

test_allocate :
    chunks_left (allocate_block toy bump no_list gpu0 3 2 100 fresh) ≡ 65536 ∷ (100 ∷ (65436 ∷ []))
unfolding allocate_block ◌>>=◌ make_accessible_to_pcie_and_va chunk_size refill
test_allocate = refl

abbrev ids : Outcome Toy (List Gpu) → List ℕ
ids (returned gpus w) = map (λ (g : Gpu). g.gpu_id) gpus
ids (threw e w) = []
ids (stuck w) = []

test_make : ids (make_gpus toy fresh.hw) ≡ 0 ∷ 1 ∷ []
unfolding make_gpus ◌>>=◌
test_make = refl

chunk_size-pages_example :
    (100 < chunk_size 100)
    × (chunk_size 100 ≤ 100 + gpu_page_size)
    × ((q : ℕ) × (chunk_size 100 ≡ q * gpu_page_size))
chunk_size-pages_example = (chunk_size-pages 100 (omega arith)).0 (omega arith)

abbrev some_block : Block
some_block = record { offset = 65536; size = 4096; addr_space_id = 9 }

make_accessible_to_pcie_and_va-Reached_example :
    Spec
      (Has toy toy_laws [])
      (make_accessible_to_pcie_and_va toy gpu0 some_block)
      (ReachedFrom toy toy_laws some_block [])
      (Unchanged toy toy_laws [])
make_accessible_to_pcie_and_va-Reached_example =
    make_accessible_to_pcie_and_va-Reached toy toy_laws gpu0 some_block []

register_memory-GpuReaches_example :
    Spec
      (Has toy toy_laws [])
      (register_host_memory toy gpu0 some_block)
      (GpuReaches toy toy_laws gpu0 some_block [] (WholeBlock toy toy_laws gpu0 some_block []))
      (Unchanged toy toy_laws [])
    × Spec
        (Has toy toy_laws [])
        (map_io_memory toy gpu0 some_block)
        (GpuReaches toy toy_laws gpu0 some_block [] (OnBus toy toy_laws gpu0 some_block []))
        (Unchanged toy toy_laws [])
register_memory-GpuReaches_example = register_memory-GpuReaches toy toy_laws gpu0 some_block []

allocate_block-returns_example :
    Spec
      (Chunks [])
      (allocate_block toy bump no_list gpu0 3 2 100)
      (λ _. Allocated toy bump no_list gpu0 3 100 [] 1)
      NotStuck
unfolding has_room
allocate_block-returns_example =
    allocate_block-returns toy bump no_list gpu0 3 100 bump_laws 0 [] (omega arith)
