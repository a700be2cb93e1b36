-- ===== src/Gpu/Growth.antt =====
-- How far allocateBlock of gpu/src/gpu.cpp calls itself.
use fpga.Prelude.{
  ℕ, suc, ◌+◌, ◌-◌, ◌^◌, ◌<◌, Bool, true, List, [], ◌∷◌, Option, none, some, if◌then◌else◌, ◌≡◌, ap,
  ◌∙◌, arith, length, Spec, Spec-bind, Spec-each, Spec-weaken,
}
use fpga.Gpu.{Block, Platform, Gpu}
use fpga.Gpu.Pages.{chunk_size, chunk_size-pages}
use fpga.Gpu.Calls.{run-ComesBack}
use fpga.Gpu.Allocator.{Linear, GpuAllocator, BlockList, allocate_in, allocate_from, allocate_block}
use fpga.Gpu.Chunks.{
  LinearLaws, Chunks, NotStuck, Found, find_chunk-Found, has_room, known, outside-Chunks,
  allocate_from-Chunks, grow-Chunks,
}

room_first :
    {C : Type 0} (available : C → ℕ) (size bytes : ℕ) (c : C) (cs : List C)
    → available c ≡ bytes
    → size < bytes
    → has_room available size (c ∷ cs) ≡ true
unfolding has_room
room_first available size bytes c cs e l = ground arith

module _ {W C : Type 0} (p : Platform W) (linear : Linear W C) (blocks : BlockList W) (gpu : Gpu)
    (space size : ℕ) where
  abbrev roomy : List C → Bool
  roomy cs = has_room linear.get_available_memory size cs

  -- The chunks with one that has room, of the two ends of the search.
  abbrev pub Allocated : List C → ℕ → GpuAllocator W C → Type 0
  Allocated cs more s = length s.chunks ≡ length cs + more

  -- The search, and the branch that it leads to.
  from_search :
      {Q : Block → GpuAllocator W C → Type 0} (fuel : ℕ) (cs : List C)
      → ((o : Option (List C × (C × List C)))
          → Found linear.get_available_memory size [] cs o
          → Spec
              (Chunks cs)
              (allocate_in p linear blocks gpu space size
                (allocate_block p linear blocks gpu space fuel size)
                o)
              Q
              NotStuck)
      → Spec (Chunks cs) (allocate_block p linear blocks gpu space (suc fuel) size) Q NotStuck
  unfolding allocate_block
  from_search fuel cs h =
      Spec-bind _ _ (outside-Chunks cs _ (run-ComesBack _))
        λ _. known cs _ (h _ (find_chunk-Found linear.get_available_memory size [] cs))

  from_chunk :
      (cs : List C) (found : List C × (C × List C))
      → suc (length found.0 + length found.1.1) ≡ 0 + length cs
      → Spec
          (Chunks cs)
          (allocate_from p linear blocks gpu space size found.0 found.1.0 found.1.1)
          (λ _. Allocated cs 0)
          NotStuck
  from_chunk cs found count =
      Spec-weaken
        (allocate_from-Chunks p linear blocks gpu space size cs found.0 found.1.0 found.1.1)
        (λ s same. same) (λ b s e. omega arith) (λ e s h. h)

  allocate_room :
      (fuel : ℕ) (cs : List C)
      → roomy cs ≡ true
      → Spec
          (Chunks cs)
          (allocate_block p linear blocks gpu space (suc fuel) size)
          (λ _. Allocated cs 0)
          NotStuck
  unfolding allocate_in
  allocate_room fuel cs room = from_search fuel cs answer
    where
      answer :
          (o : Option (List C × (C × List C)))
          → Found linear.get_available_memory size [] cs o
          → Spec
              (Chunks cs)
              (allocate_in p linear blocks gpu space size
                (allocate_block p linear blocks gpu space fuel size)
                o)
              (λ _. Allocated cs 0)
              NotStuck
      answer none missing = absurd cc
      answer (some found) (there, count) = from_chunk cs found count

  -- `allocate_block`, asked for at most 2 ^ 64 - 65537 bytes, calls itself at most once: with fuel for two
  -- calls it comes back, with a block or an exception. With a block, there are as many chunks as
  -- before where one of them had room, and one more where none had. A linear allocator must have all of
  -- the memory available that it is made of.
  pub allocate_block-returns :
      LinearLaws linear
      → (fuel : ℕ) (cs : List C) → size < 2 ^ 64 - 65536
      → Spec
          (Chunks cs)
          (allocate_block p linear blocks gpu space (suc (suc fuel)) size)
          (λ _. Allocated cs (if has_room linear.get_available_memory size cs then 0 else 1))
          NotStuck
  unfolding allocate_in
  allocate_block-returns laws fuel cs small = from_search (suc fuel) cs answer
    where
      more : GpuAllocator W C → Type 0
      more = Allocated cs (if has_room linear.get_available_memory size cs then 0 else 1)

      larger : size < chunk_size size
      larger = ((chunk_size-pages size (omega arith)).0 small).0

      second :
          Spec
            (λ s. (c : C) × (s.chunks ≡ c ∷ cs) × (linear.get_available_memory c ≡ chunk_size size))
            (allocate_block p linear blocks gpu space (suc fuel) size)
            (λ _ s. length s.chunks ≡ suc (length cs))
            NotStuck
      second = Spec-each λ s (c, e, room).
          Spec-weaken
            (allocate_room fuel (c ∷ cs)
              (room_first linear.get_available_memory size (chunk_size size) c cs room larger))
            (λ s' same. ap (λ (t : GpuAllocator W C). t.chunks) same ∙ e) (λ b s' n. omega arith)
            (λ x s' h. h)

      answer :
          (o : Option (List C × (C × List C)))
          → Found linear.get_available_memory size [] cs o
          → Spec
              (Chunks cs)
              (allocate_in p linear blocks gpu space size
                (allocate_block p linear blocks gpu space (suc fuel) size)
                o)
              (λ _. more)
              NotStuck
      answer none missing =
          Spec-bind _ _ (grow-Chunks p linear blocks gpu space size laws cs)
            λ _. Spec-weaken second (λ s h. h) (λ b s n. ground arith) (λ e s h. h)
      answer (some found) (there, count) =
          Spec-weaken (from_chunk cs found count) (λ s h. h) (λ b s n. ground arith) (λ e s h. h)
