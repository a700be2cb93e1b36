-- ===== src/Gpu/Allocator.antt =====
-- GpuAllocator of gpu/src/gpu.cpp: chunks of GPU memory, from which blocks are allocated. The linear
-- allocator that manages a chunk is a parameter.
use fpga.Prelude.{
  ℕ, zero, suc, List, [], ◌∷◌, ◌++◌, Option, none, some, if◌then◌else◌, leb, Text, codes, M,
  returned, threw, stuck, pure, throw, hang, modify, run, gets, ◌>>=◌, ◌>>◌, bad_alloc,
}
use fpga.Gpu.{Block, Platform, Gpu, make_accessible_to_pcie_and_va}
use fpga.Gpu.Pages.{chunk_size}

-- LinearAllocator, of type `C`, over the state `W` of the memory manager. `none` stands for
-- std::bad_alloc.
pub record Linear (W C : Type 0) : Type 0 where
  pub make : Block → C
  pub get_available_memory : C → ℕ
  pub allocate_block : ℕ → C → W → Option Block × (C × W)

-- GpuAllocator, with the state of what it calls.
pub record GpuAllocator (W C : Type 0) : Type 0 where
  pub hw : W
  pub chunks : List C

-- BaseAllocator, whose base class keeps track of the blocks
pub record BlockList (W : Type 0) : Type 0 where
  pub insert_memory_block : Block → W → W
  pub remove_memory_block : Block → W → W

-- std::find_if over the chunks, with the chunks before the one it finds, the last of them first.
unfoldable pub find_chunk :
    {C : Type 0} → (C → ℕ) → ℕ → List C → List C → Option (List C × (C × List C))
find_chunk available size before [] = none
find_chunk available size before (chunk ∷ chunks) =
    let rest = find_chunk available size (chunk ∷ before) chunks in
    if leb size (available chunk) then some (before, (chunk, chunks)) else rest

-- The chunks put together again.
unfoldable pub refill : {C : Type 0} → List C → List C → List C
refill [] chunks = chunks
refill (chunk ∷ before) chunks = refill before (chunk ∷ chunks)

-- A block that is let go where a call throws.
unfoldable pub owning : {W A : Type 0} → (W → W) → M W A → M W A
owning release m w = elim (m w) [
  | returned a w' ↦ returned a w'
  | threw e w' ↦ threw e (release w')
  | stuck w' ↦ stuck w'
]

module _ {W C : Type 0} where
  -- A call of something else, for the allocator.
  unfoldable pub outside : {A : Type 0} → M W A → M (GpuAllocator W C) A
  outside m s = elim (m s.hw) [
    | returned a w ↦ returned a (record s { hw = w })
    | threw e w ↦ threw e (record s { hw = w })
    | stuck w ↦ stuck (record s { hw = w })
  ]

module _ {W C : Type 0} (p : Platform W) (linear : Linear W C) (blocks : BlockList W) (gpu : Gpu)
    (space : ℕ) where
  -- GpuAllocator::getName, of the address space of its base class
  abbrev pub allocator_name : Text
  allocator_name = codes "GpuAlloc" ++ p.decimal space

  -- The deallocator of a chunk's memory
  unfoldable pub free_chunk : Block → W → W
  free_chunk mem w =
      let (_, active) = p.set_device gpu.gpu_id w in
      let (_, freed) = p.free mem.offset active in blocks.remove_memory_block mem freed

  -- A block of a chunk that find_if has found.
  unfoldable pub allocate_from : ℕ → List C → C → List C → M (GpuAllocator W C) Block
  allocate_from size before chunk after = do
    block ← run (λ s.
        let (b, rest) = linear.allocate_block size chunk s.hw in
        (b, record { hw = rest.1; chunks = refill before (rest.0 ∷ after) }))
    elim block [ none ↦ throw bad_alloc | some b ↦ pure b ]

  -- The new chunk, behind cudaMalloc.
  unfoldable pub add_chunk : ℕ → ℕ → M (GpuAllocator W C) (Unit {0})
  unfolding outside owning free_chunk
  add_chunk size addr = do
    id ← outside (
        run (
          p.get_or_create_address_space
            (p.slave_addr_space_name allocator_name (p.hexadecimal addr))))
    let mem : Block = record { offset = addr; size = size; addr_space_id = id }
    outside (modify (blocks.insert_memory_block mem))
    _ ← outside (owning (free_chunk mem) (make_accessible_to_pcie_and_va p gpu mem))
    modify (λ s. record s { chunks = linear.make mem ∷ s.chunks })

  -- The branch without a chunk, as far as the call of itself.
  unfoldable pub grow : ℕ → M (GpuAllocator W C) (Unit {0})
  unfolding add_chunk outside
  grow size = do
    addr ← outside (run (p.malloc (chunk_size size)))
    elim addr [ none ↦ throw bad_alloc | some a ↦ add_chunk (chunk_size size) a ]

  -- The two branches of allocateBlock, with its call of itself.
  unfoldable pub allocate_in :
      ℕ → M (GpuAllocator W C) Block → Option (List C × (C × List C)) → M (GpuAllocator W C) Block
  unfolding allocate_from grow
  allocate_in size again none = grow size >> again
  allocate_in size again (some found) = allocate_from size found.0 found.1.0 found.1.1

  -- GpuAllocator::allocateBlock. Its calls of itself take fuel.
  unfoldable pub allocate_block : ℕ → ℕ → M (GpuAllocator W C) Block
  unfolding outside find_chunk allocate_in
  allocate_block zero size = hang
  allocate_block (suc fuel) size = do
    _ ← outside (run (p.set_device gpu.gpu_id))
    chunks ← gets (λ s. s.chunks)
    allocate_in size (allocate_block fuel size)
        (find_chunk linear.get_available_memory size [] chunks)
