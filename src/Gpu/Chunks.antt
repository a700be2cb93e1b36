-- ===== src/Gpu/Chunks.antt =====
-- The calls of allocateBlock of gpu/src/gpu.cpp to itself, and the chunks that they leave.
use fpga.Prelude.{
  ℕ, suc, ◌+◌, Bool, true, false, List, [], ◌∷◌, Option, none, some, if◌then◌else◌, leb, ◌||◌, ◌≡◌,
  ◌≢◌, refl, sym, ap, subst, ◌∙◌, arith, length, M, Outcome, Error, Ensures, Spec, Spec-bind,
  Spec-run, Spec-pure, Spec-throw, Spec-modify, Spec-option, returned, threw, stuck, gets, ◌>>=◌,
  bad_alloc,
}
use fpga.Gpu.{Block, Platform, Gpu}
use fpga.Gpu.Pages.{chunk_size}
use fpga.Gpu.Calls.{
  ComesBack, run-ComesBack, modify-ComesBack, owning-ComesBack,
  make_accessible_to_pcie_and_va-ComesBack,
}
use fpga.Gpu.Allocator.{
  Linear, GpuAllocator, BlockList, find_chunk, refill, outside, allocate_from, add_chunk, grow,
}

-- Some chunk has room.
unfoldable pub has_room : {C : Type 0} → (C → ℕ) → ℕ → List C → Bool
has_room available size [] = false
has_room available size (chunk ∷ chunks) =
    leb size (available chunk) || has_room available size chunks

length-refill :
    {C : Type 0} (before chunks : List C)
    → length (refill before chunks) ≡ length before + length chunks
unfolding refill
length-refill [] chunks = omega arith
length-refill (c ∷ before) chunks = omega (arith, length-refill before (c ∷ chunks))

-- What find_chunk answers, from the chunks that it has passed.
abbrev pub Found :
    {C : Type 0} → (C → ℕ) → ℕ → List C → List C → Option (List C × (C × List C)) → Type 0
Found available size before chunks none = has_room available size chunks ≡ false
Found available size before chunks (some found) =
    (has_room available size chunks ≡ true)
    × (suc (length found.0 + length found.1.1) ≡ length before + length chunks)

pub find_chunk-Found :
    {C : Type 0} (available : C → ℕ) (size : ℕ) (before chunks : List C)
    → Found available size before chunks (find_chunk available size before chunks)
unfolding find_chunk has_room
find_chunk-Found available size before [] = refl
find_chunk-Found available size before (c ∷ chunks) =
    answer (leb size (available c)) refl _ (find_chunk-Found available size (c ∷ before) chunks)
  where
    answer :
        (room : Bool)
        → leb size (available c) ≡ room
        → (rest : Option _) → Found available size (c ∷ before) chunks rest
        → Found available size before
            (c ∷ chunks)
            (if room then some (before, (c, chunks)) else rest)
    answer true e rest h = (ground arith, omega arith)
    answer false e none h = ground arith
    answer false e (some found) (room, count) = (ground arith, omega arith)

-- What LinearAllocator documents: one that is made of a block has all of its memory available.
pub record LinearLaws {W C : Type 0} (linear : Linear W C) : Type 0 where
  pub make-available : (b : Block) → linear.get_available_memory (linear.make b) ≡ b.size

module _ {W C : Type 0} where
  abbrev pub Chunks : List C → GpuAllocator W C → Type 0
  Chunks cs s = s.chunks ≡ cs

  abbrev pub NotStuck : Option Error → GpuAllocator W C → Type 0
  NotStuck e s = e ≢ none

  pub outside-Chunks :
      {A : Type 0} (cs : List C) (m : M W A)
      → ComesBack m
      → Spec (Chunks cs) (outside m) (λ _. Chunks cs) NotStuck
  unfolding outside
  outside-Chunks {A} cs m back = record { at = λ s same. answer s same (m s.hw) (back.at s.hw tt) }
    where
      answer :
          (s : GpuAllocator W C)
          → s.chunks ≡ cs
          → (o : Outcome W A) → Ensures (λ _ _. Unit {0}) (λ e (_ : W). e ≢ none) o
          → Ensures
              (λ _. Chunks cs)
              NotStuck
              (elim o [
                | returned a w ↦ returned a (record s { hw = w })
                | threw e w ↦ threw e (record s { hw = w })
                | stuck w ↦ stuck (record s { hw = w })
              ])
      answer s same (returned a w) h = same
      answer s same (threw e w) h = h
      answer s same (stuck w) h = h

  -- The chunks that a call reads are the ones that the state has.
  pub known :
      {A : Type 0} {Q : A → GpuAllocator W C → Type 0} (cs : List C)
      (f : List C → M (GpuAllocator W C) A)
      → Spec (Chunks cs) (f cs) Q NotStuck
      → Spec (Chunks cs) (gets (λ s. s.chunks) >>= f) Q NotStuck
  unfolding gets ◌>>=◌
  known {A} {Q} cs f h = record {
    at = λ s e. subst (λ l. Ensures Q NotStuck (f l s)) (sym e) (h.at s e);
  }

module _ {W C : Type 0} (p : Platform W) (linear : Linear W C) (blocks : BlockList W) (gpu : Gpu)
    (space size : ℕ) where
  pub allocate_from-Chunks :
      (cs before : List C) (chunk : C) (after : List C)
      → Spec
          (Chunks cs)
          (allocate_from p linear blocks gpu space size before chunk after)
          (λ _ s. length s.chunks ≡ suc (length before + length after))
          NotStuck
  unfolding allocate_from
  allocate_from-Chunks cs before chunk after =
      Spec-bind {Q = λ _ s. length s.chunks ≡ suc (length before + length after)} _ _
        (Spec-run _ λ s same. length-refill before (_ ∷ after) ∙ omega arith)
        λ block.
          Spec-option block (Spec-throw bad_alloc λ s h e. absurd cc) λ b. Spec-pure b λ s h. h

  module _ (laws : LinearLaws linear) where
    add_chunk-Chunks :
        (cs : List C) (bytes addr : ℕ)
        → Spec
            (Chunks cs)
            (add_chunk p linear blocks gpu space bytes addr)
            (λ _ s. (c : C) × (s.chunks ≡ c ∷ cs) × (linear.get_available_memory c ≡ bytes))
            NotStuck
    unfolding add_chunk
    add_chunk-Chunks cs bytes addr = Spec-bind _ _ (outside-Chunks cs _ (run-ComesBack _)) λ id.
        Spec-bind _ _ (outside-Chunks cs _ (modify-ComesBack _)) λ _.
          Spec-bind _ _
            (outside-Chunks cs _
              (owning-ComesBack _ _ (make_accessible_to_pcie_and_va-ComesBack p gpu _)))
            λ _.
              let mem : Block = record { offset = addr; size = bytes; addr_space_id = id } in
              Spec-modify _ λ s same.
                (linear.make mem, ap (λ l. linear.make mem ∷ l) same, laws.make-available mem)

    pub grow-Chunks :
        (cs : List C)
        → Spec
            (Chunks cs)
            (grow p linear blocks gpu space size)
            (λ _ s.
              (c : C) × (s.chunks ≡ c ∷ cs) × (linear.get_available_memory c ≡ chunk_size size))
            NotStuck
    unfolding grow
    grow-Chunks cs = Spec-bind _ _ (outside-Chunks cs _ (run-ComesBack _)) λ addr.
        Spec-option addr (Spec-throw bad_alloc λ s h e. absurd cc)
          λ a. add_chunk-Chunks cs (chunk_size size) a
