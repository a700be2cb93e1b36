-- ===== src/Card/Ownership.antt =====
-- Which windows of the IOMMU belong to which mapped block, over the windows, the translations and
-- the mapped blocks as functions.
use fpga.Prelude.{
  ℕ, false, Option, none, some, if◌then◌else◌, ◌==◌, ◌≡◌, sym, subst, fun_ext, arith, nat_key,
  Bool-cases, inl, inr,
}
use fpga.Card.{MemoryBlock}

-- `window iova` is the size of the window at an address of the device, `translation space` is where
-- a block stands there, and `mapped space` is the block that the card has mapped.
pub record Owned (window : ℕ → Option ℕ) (translation : ℕ → Option (ℕ × ℕ))
    (mapped : ℕ → Option MemoryBlock) : Type 0 where
  -- A mapped block has a window of its size.
  pub owned :
      (space : ℕ) (block : MemoryBlock)
      → mapped space ≡ some block
      → (iova : ℕ) × (translation space ≡ some (iova, block.size)) × (window iova ≡ some block.size)
  -- A window is that of a mapped block.
  pub every :
      (iova size : ℕ)
      → window iova ≡ some size
      → (space : ℕ) × (block : MemoryBlock) × (mapped space ≡ some block)
        × (translation space ≡ some (iova, size))
  -- Two mapped blocks have two windows.
  pub apart :
      (iova size size' space space' : ℕ) (block block' : MemoryBlock)
      → mapped space ≡ some block
      → mapped space' ≡ some block'
      → translation space ≡ some (iova, size)
      → translation space' ≡ some (iova, size')
      → space ≡ space'

-- Equal functions are owned alike.
pub Owned-same :
    {window window' : ℕ → Option ℕ} {translation translation' : ℕ → Option (ℕ × ℕ)}
    {mapped mapped' : ℕ → Option MemoryBlock}
    → Owned window translation mapped
    → ((i : ℕ) → window' i ≡ window i)
    → ((i : ℕ) → translation' i ≡ translation i)
    → ((i : ℕ) → mapped' i ≡ mapped i)
    → Owned window' translation' mapped'
Owned-same {window} {translation = translation} {translation' = translation'} {mapped = mapped}
      {mapped' = mapped'} o w t m =
    subst (λ f. Owned f translation' mapped') (sym (fun_ext w))
      (subst (λ f. Owned window f mapped') (sym (fun_ext t))
        (subst (λ f. Owned window translation f) (sym (fun_ext m)) o))

-- `f` with the value `v` at `i`
abbrev pub updated : {A : Type 0} → ℕ → A → (ℕ → A) → ℕ → A
updated i v f j = if i == j then v else f j

module _ {window : ℕ → Option ℕ} {translation : ℕ → Option (ℕ × ℕ)}
    {mapped : ℕ → Option MemoryBlock} (o : Owned window translation mapped) where
  -- A new window for a new block.
  pub Owned-added :
      (iova : ℕ) (block : MemoryBlock)
      → mapped block.addr_space_id ≡ none
      → window iova ≡ none
      → Owned
          (updated iova (some block.size) window)
          (updated block.addr_space_id (some (iova, block.size)) translation)
          (updated block.addr_space_id (some block) mapped)
  Owned-added iova block new free = record {
    owned = λ space b e. elim (Bool-cases (block.addr_space_id == space)) [
      | inl same ↦ (iova, ground arith, ground arith)
      | inr other ↦
          let (i, t, w) = o.owned space b (ground arith) in (i, ground arith, ground arith)
    ];
    every = λ i n e. elim (Bool-cases (iova == i)) [
      | inl same ↦ (block.addr_space_id, block, ground arith, ground arith)
      | inr other ↦
          let (s, b, m, t) = o.every i n (ground arith) in (s, b, ground arith, ground arith)
    ];
    apart = λ i n n' s s' b b' m m' t t'.
        grind (arith, o.owned s b, o.owned s' b', o.apart i n n' s s' b b');
  }

  -- The translation of a mapped block leads to its window.
  pub window-translation :
      (iova size space : ℕ) (block : MemoryBlock)
      → mapped space ≡ some block
      → translation space ≡ some (iova, size)
      → window iova ≡ some size
  window-translation iova size space block m t = grind (arith, o.owned space block m)

  -- The window of a mapped block is taken away with it.
  pub Owned-removed :
      (iova size space : ℕ) (block : MemoryBlock)
      → mapped space ≡ some block
      → translation space ≡ some (iova, size)
      → Owned (updated iova none window) translation (updated space none mapped)
  Owned-removed iova size space block m t = record {
    owned = λ s b e. elim (Bool-cases (space == s)) [
      | inl same ↦ absurd (ground arith)
      | inr other ↦
          let (i, u, w) = o.owned s b (ground arith) in
          (i, u, window_kept s b i (ground arith) u w other)
    ];
    every = λ i n e. elim (Bool-cases (iova == i)) [
      | inl same ↦ absurd (ground arith)
      | inr other ↦
          let (s, b, m', u) = o.every i n (ground arith) in (s, b, block_kept s b i n m' u other, u)
    ];
    apart =
        λ i n n' s s' b b' m m' t t'. o.apart i n n' s s' b b' (ground arith) (ground arith) t t';
  }
    where
      window_kept :
          (s : ℕ) (b : MemoryBlock) (i : ℕ)
          → mapped s ≡ some b
          → translation s ≡ some (i, b.size)
          → window i ≡ some b.size
          → space == s ≡ false
          → updated iova none window i ≡ some b.size
      window_kept s b i m' u w other = grind (arith, o.apart i b.size size s space b block m' m u)

      block_kept :
          (s : ℕ) (b : MemoryBlock) (i n : ℕ)
          → mapped s ≡ some b
          → translation s ≡ some (i, n)
          → iova == i ≡ false
          → updated space none mapped s ≡ some b
      block_kept s b i n m' u other = grind arith
