-- ===== src/Card/Memory.antt =====
-- Card::mapMemoryBlock and Card::unmapMemoryBlock, over the windows of the IOMMU.
use fpga.Prelude.{
  ℕ, Map, Bool, true, false, not, Option, none, some, if◌then◌else◌, ◌==◌, ◌≡◌, ◌≢◌, ◌⊎◌, inl, inr,
  ==_iff, refl, sym, ◌∙◌, arith, find, erase, Distinct, find-erase, erase-Distinct, nat_key, Error,
  Ensures, Spec, Spec-bind, Spec-pure, Spec-if, Spec-modify, gets-keeps, Spec-each, Spec-throw,
  subst, ◌>>◌, find-insert, insert-Distinct, same_key_nat, same_key_refl, ap, ◌>>=◌, gets, modify,
  pure, throw, plain_exception, Spec-pre, Spec-weaken, returned, threw, out_of_range,
}
use fpga.Card.{
  MemoryBlock, uintptr_max, Driver, Card, translated, act, call, device_translation,
  remember_mapping, create_vfio_mapping, map_memory_block, unmap_space, unmap_memory_block,
}
use fpga.Card.Ownership.{Owned, Owned-same, Owned-added, Owned-removed, window-translation, updated}

-- What VFIO and the memory manager document. `window iova` is the size of the window of the IOMMU
-- at an address; memory_map answers UINTPTR_MAX where it maps nothing, and otherwise the address of
-- a window that was free.
pub record DriverLaws {H : Type 0} (driver : Driver H) : Type 0 where
  pub window : ℕ → H → Option ℕ
  pub map-window :
      (base iova len : ℕ) (h : H)
      → ((driver.memory_map base iova len h).0 ≡ uintptr_max
          × ((i : ℕ) → window i (driver.memory_map base iova len h).1 ≡ window i h))
        ⊎ (((driver.memory_map base iova len h).0 ≢ uintptr_max)
            × (window (driver.memory_map base iova len h).0 h ≡ none)
            × ((i : ℕ)
                → window i (driver.memory_map base iova len h).1
                  ≡ updated (driver.memory_map base iova len h).0 (some len) (λ j. window j h) i))
  pub map-translation :
      (base iova len from to : ℕ) (h : H)
      → driver.get_translation from to (driver.memory_map base iova len h).1
        ≡ driver.get_translation from to h
  pub unmap-window :
      (iova size i : ℕ) (h : H)
      → window iova h ≡ some size
      → window i (driver.memory_unmap iova size h) ≡ updated iova none (λ j. window j h) i
  pub unmap-translation :
      (iova size from to : ℕ) (h : H)
      → driver.get_translation from to (driver.memory_unmap iova size h)
        ≡ driver.get_translation from to h
  pub create-window :
      (src dest size from to i : ℕ) (h : H)
      → window i (driver.create_mapping src dest size from to h) ≡ window i h
  -- The first mapping between two spaces is the translation between them.
  pub create-translation :
      (src size from to i : ℕ) (h : H)
      → driver.get_translation from to h ≡ none
      → driver.get_translation from i (driver.create_mapping src 0 size from to h)
        ≡ updated to (some (src, size)) (λ j. driver.get_translation from j h) i

wrong : (iova : ℕ) → iova ≡ uintptr_max → iova == uintptr_max ≡ false → ⊥
wrong iova full e = ground arith

module _ {H I : Type 0} (driver : Driver H) (laws : DriverLaws driver) where
  -- Every window belongs to a mapped block, and every mapped block has a window of its own.
  pub record Owns (card : Card H I) : Type 0 where
    pub distinct : Distinct card.memory_blocks_mapped
    pub owned :
        Owned
          (λ i. laws.window i card.hw)
          (λ space. device_translation driver space card)
          (λ space. find space card.memory_blocks_mapped)

  abbrev pub Mapped : ℕ → Card H I → Type 0
  Mapped space card = (b : MemoryBlock) × (find space card.memory_blocks_mapped ≡ some b)

  -- The memory manager has no translation of a block that is not mapped.
  abbrev pub Fresh : ℕ → Card H I → Type 0
  Fresh space card =
      find space card.memory_blocks_mapped ≡ none → device_translation driver space card ≡ none

  abbrev New : MemoryBlock → Card H I → Type 0
  New block card =
      Owns card
      × (find block.addr_space_id card.memory_blocks_mapped ≡ none)
      × (device_translation driver block.addr_space_id card ≡ none)

  -- Between memoryMap and createMapping: the window at `iova` is there, and no block has it yet.
  abbrev Waiting : MemoryBlock → ℕ → Card H I → Type 0
  Waiting block iova card =
      (window : ℕ → Option ℕ) × Owned window (λ space. device_translation driver space card)
        (λ space. find space card.memory_blocks_mapped)
      × (window iova ≡ none)
      × ((i : ℕ) → laws.window i card.hw ≡ updated iova (some block.size) window i)
      × Distinct card.memory_blocks_mapped
      × (find block.addr_space_id card.memory_blocks_mapped ≡ none)
      × (device_translation driver block.addr_space_id card ≡ none)

  abbrev After : MemoryBlock → ℕ → Card H I → Type 0
  After block iova card =
      ((iova ≡ uintptr_max) × Owns card) ⊎ ((iova ≢ uintptr_max) × Waiting block iova card)

  translated-keeps :
      {A : Type 0} (P : Card H I → Type 0) (f : Card H I → Option A)
      → Spec P (translated f) (λ a card. P card × (f card ≡ some a)) (λ e. P)
  unfolding translated
  translated-keeps {A} P f = record { at = λ card p. answer card p (f card) refl }
    where
      answer :
          (card : Card H I)
          → P card
          → (o : Option A) → f card ≡ o
          → Ensures
              (λ a c. P c × (f c ≡ some a))
              (λ e. P)
              (elim o [ none ↦ threw out_of_range card | some t ↦ returned t card ])
      answer card p none e = p
      answer card p (some a) e = (p, e)

  memory_map-After :
      (block : MemoryBlock) (base : ℕ)
      → Spec
          (New block)
          (call (driver.memory_map base uintptr_max block.size))
          (After block)
          (λ e. Owns)
  unfolding call
  memory_map-After block base = record {
    at = λ card (o, new, fresh). elim (laws.map-window base uintptr_max block.size card.hw) [
      | inl (none_free, same) ↦ inl (
        none_free,
        record {
          distinct = o.distinct;
          owned =
              Owned-same o.owned same
                (λ space. laws.map-translation base uintptr_max block.size _ space card.hw)
                (λ space. refl);
        },
      )
      | inr (good, free, added) ↦ inr (
        good,
        (
          (λ i. laws.window i card.hw),
          Owned-same o.owned (λ i. refl)
              (λ space. laws.map-translation base uintptr_max block.size _ space card.hw)
              (λ space. refl),
          free,
          added,
          o.distinct,
          new,
          laws.map-translation base uintptr_max block.size _ _ card.hw ∙ fresh,
        ),
      )
    ];
  }

  remember_mapping-Owns :
      (block : MemoryBlock) (iova : ℕ)
      → Spec
          (Waiting block iova)
          (remember_mapping driver block iova)
          (λ b card. Owns card × (b ≡ true → Mapped block.addr_space_id card))
          (λ e. Owns)
  unfolding remember_mapping act gets modify pure ◌>>=◌
  remember_mapping-Owns block iova = record {
    at = λ card (window, o, free, added, distinct, new, fresh). (
      record {
        distinct = insert-Distinct block.addr_space_id block card.memory_blocks_mapped distinct;
        owned =
            Owned-same (Owned-added o iova block new free)
              (λ i. laws.create-window iova 0 block.size _ block.addr_space_id i card.hw ∙ added i)
              (λ i. laws.create-translation iova block.size _ block.addr_space_id i card.hw fresh)
              (λ i.
                find-insert block.addr_space_id i block card.memory_blocks_mapped new
                ∙ same_key_nat block.addr_space_id i (some block) _);
      },
      λ e. (
        block,
        find-insert block.addr_space_id block.addr_space_id block card.memory_blocks_mapped new
            ∙ ap (λ b. if b then some block else find block.addr_space_id card.memory_blocks_mapped)
                (same_key_refl block.addr_space_id),
      ),
    );
  }

  create_vfio_mapping-Owns :
      (block : MemoryBlock)
      → Spec
          (New block)
          (create_vfio_mapping driver block)
          (λ b card. Owns card × (b ≡ true → Mapped block.addr_space_id card))
          (λ e. Owns)
  unfolding create_vfio_mapping
  create_vfio_mapping-Owns block =
      Spec-bind _ _
        (Spec-weaken (translated-keeps (New block) _) (λ card p. p) (λ base card p. p)
          (λ e card p. p.0))
        λ base.
          Spec-bind _ _
            (Spec-weaken (memory_map-After block base) (λ card p. p.0) (λ iova card p. p)
              (λ e card p. p))
            λ iova.
              Spec-if (iova == uintptr_max) _ _
                (λ e. Spec-pure false (λ card p. elim p [
                  | inl (full, o) ↦ (o, λ bad. absurd cc)
                  | inr (good, w) ↦ absurd (good ((==_iff iova uintptr_max).0 e))
                ]))
                (λ e. Spec-pre (remember_mapping-Owns block iova) (λ card p. elim p [
                  | inl (full, o) ↦ absurd (wrong iova full e)
                  | inr (good, w) ↦ w
                ]))

  -- Where every window belongs to a mapped block, `map_memory_block` keeps it so, errors included,
  -- and the block is mapped where it answers true. The memory manager must have no translation of
  -- the block, unless it is mapped.
  pub map_memory_block-Owns :
      (block : MemoryBlock)
      → Spec
          (λ card. Owns card × Fresh block.addr_space_id card)
          (map_memory_block driver block)
          (λ b card. Owns card × (b ≡ true → Mapped block.addr_space_id card))
          (λ e. Owns)
  unfolding map_memory_block
  map_memory_block-Owns block = Spec-bind _ _ (gets-keeps _) λ enabled.
      Spec-bind _ _ (gets-keeps _) λ mapped.
        Spec-if (not enabled) _ _ (λ e. Spec-pure false (λ card p. (p.0.0.0, λ bad. absurd cc)))
          (λ e. Spec-pre (answer mapped) (λ card p. (p.0.0, p.1)))
    where
      answer :
          (mapped : Option MemoryBlock)
          → Spec
              (λ card.
                (Owns card × Fresh block.addr_space_id card)
                × (mapped ≡ find block.addr_space_id card.memory_blocks_mapped))
              (elim mapped [ some _ ↦ pure true | none ↦ create_vfio_mapping driver block ])
              (λ b card. Owns card × (b ≡ true → Mapped block.addr_space_id card))
              (λ e. Owns)
      answer none =
          Spec-pre (create_vfio_mapping-Owns block) (λ card p. (p.0.0, sym p.1, p.0.1 (sym p.1)))
      answer (some b) = Spec-pure true (λ card p. (p.0.0, λ e. (b, sym p.1)))

  -- The windows belong to the blocks of `mapped`, and the card lists `blocks`.
  abbrev pub OwnsBy : (ℕ → Option MemoryBlock) → Map ℕ MemoryBlock → Card H I → Type 0
  OwnsBy mapped blocks card =
      Owned (λ i. laws.window i card.hw) (λ space. device_translation driver space card) mapped
      × (card.memory_blocks_mapped ≡ blocks)

  translated-found :
      {A : Type 0} {P : Card H I → Type 0} {X : Option Error → Card H I → Type 0}
      (f : Card H I → Option A)
      → ((card : Card H I) → P card → (a : A) × (f card ≡ some a))
      → Spec P (translated f) (λ a card. P card × (f card ≡ some a)) X
  unfolding translated
  translated-found {A} {P} {X} f there = record {
    at = λ card p. answer card p (f card) refl (there card p);
  }
    where
      answer :
          (card : Card H I)
          → P card
          → (o : Option A) → f card ≡ o
          → (a : A) × (f card ≡ some a)
          → Ensures
              (λ a c. P c × (f c ≡ some a))
              X
              (elim o [ none ↦ threw out_of_range card | some t ↦ returned t card ])
      answer card p none e (a, e') = absurd cc
      answer card p (some a) e found = (p, e)

  -- The window of a mapped block goes, and nothing fails.
  pub unmap_space-OwnsBy :
      {X : Option Error → Card H I → Type 0} (space : ℕ) (block : MemoryBlock)
      (mapped : ℕ → Option MemoryBlock) (blocks : Map ℕ MemoryBlock)
      → mapped space ≡ some block
      → Spec
          (OwnsBy mapped blocks)
          (unmap_space driver space)
          (λ _. OwnsBy (updated space none mapped) blocks)
          X
  unfolding unmap_space act
  unmap_space-OwnsBy space block mapped blocks m =
      Spec-bind _ _
        (translated-found (device_translation driver space)
          λ card (o, same). let (iova, t, w) = o.owned space block m in ((iova, block.size), t))
        λ translation. record { at = λ card ((o, same), t). (removed card o translation t, same) }
    where
      removed :
          (card : Card H I)
          → Owned
              (λ i. laws.window i card.hw)
              (λ space. device_translation driver space card)
              mapped
          → (translation : ℕ × ℕ) → device_translation driver space card ≡ some translation
          → Owned
              (λ i. laws.window i (driver.memory_unmap translation.0 translation.1 card.hw))
              (λ i.
                driver.get_translation card.addr_space_id_device_to_host i
                  (driver.memory_unmap translation.0 translation.1 card.hw))
              (updated space none mapped)
      removed card o translation t =
          Owned-same (Owned-removed o translation.0 translation.1 space block m t)
            (λ i.
              laws.unmap-window translation.0 translation.1 i card.hw
                (window-translation o translation.0 translation.1 space block m t))
            (λ i. laws.unmap-translation translation.0 translation.1 _ i card.hw) (λ i. refl)

  -- The card behind the unmapping of a mapped block: the block is not mapped any more, and each other one
  -- is where it was before.
  abbrev pub Unmapped : MemoryBlock → Card H I → Bool → Card H I → Type 0
  Unmapped block before b card =
      Owns card
      × (b ≡ true)
      × Mapped block.addr_space_id before
      × ((i : ℕ)
          → find i card.memory_blocks_mapped
            ≡ (if block.addr_space_id == i then none else find i before.memory_blocks_mapped))

  -- The exception for a block that was not mapped, with the card as it was.
  abbrev pub Refused : MemoryBlock → Card H I → Option Error → Card H I → Type 0
  Refused block before e card =
      (e ≡ some plain_exception)
      × (find block.addr_space_id before.memory_blocks_mapped ≡ none)
      × (card ≡ before)

  -- From a card where every window belongs to a mapped block, and the reverse, unmapping a block that is
  -- mapped answers true: the block and its window are gone, and every other mapped block is kept with its
  -- window. Unmapping one that is not mapped throws, and leaves the card as it is.
  pub unmap_memory_block-Owns :
      (block : MemoryBlock) (before : Card H I)
      → Owns before
      → Ensures
          (Unmapped block before)
          (Refused block before)
          (unmap_memory_block driver block before)
  unfolding unmap_memory_block
  unmap_memory_block-Owns block before owns =
      (Spec-bind _ _ (gets-keeps _) answer).at before (owns, refl)
    where
      Post : Bool → Card H I → Type 0
      Post = Unmapped block before

      Failed : Option Error → Card H I → Type 0
      Failed = Refused block before

      erased :
          (card : Card H I)
          → Mapped block.addr_space_id before
          → OwnsBy
              (updated block.addr_space_id none (λ i. find i before.memory_blocks_mapped))
              before.memory_blocks_mapped
              card
          → Post true (record card {
            memory_blocks_mapped = erase block.addr_space_id card.memory_blocks_mapped;
          })
      erased card was (o, same) = (
        record {
          distinct =
              erase-Distinct block.addr_space_id card.memory_blocks_mapped
                (subst Distinct (sym same) owns.distinct);
          owned = Owned-same o (λ i. refl) (λ i. refl) left;
        },
        refl,
        was,
        left,
      )
        where
          left :
              (i : ℕ)
              → find i (erase block.addr_space_id card.memory_blocks_mapped)
                ≡ (if block.addr_space_id == i then none else find i before.memory_blocks_mapped)
          left i =
              find-erase block.addr_space_id i card.memory_blocks_mapped
              ∙ (same_key_nat block.addr_space_id i none _
                  ∙ ap (λ m. if block.addr_space_id == i then none else find i m) same)

      answer :
          (mapped : Option MemoryBlock)
          → Spec
              (λ card.
                (Owns card × (card ≡ before))
                × (mapped ≡ find block.addr_space_id card.memory_blocks_mapped))
              (elim mapped [
                | none ↦ throw plain_exception
                | some _ ↦
                    unmap_space driver block.addr_space_id
                    >> (modify (λ card. record card {
                      memory_blocks_mapped = erase block.addr_space_id card.memory_blocks_mapped;
                    })
                        >> pure true)
              ])
              Post
              Failed
      answer none = Spec-throw plain_exception (λ card p. (
        refl,
        sym (p.1 ∙ ap (λ (c : Card H I). find block.addr_space_id c.memory_blocks_mapped) p.0.1),
        p.0.1,
      ))
      answer (some b) = Spec-each λ card p.
          let there : find block.addr_space_id before.memory_blocks_mapped ≡ some b =
            sym (
              p.1 ∙ ap (λ (c : Card H I). find block.addr_space_id c.memory_blocks_mapped) p.0.1) in
          Spec-pre
            (Spec-bind _ _
              (unmap_space-OwnsBy block.addr_space_id b (λ i. find i before.memory_blocks_mapped)
                before.memory_blocks_mapped there)
              λ _.
                Spec-bind _ _ (Spec-modify _ {Q = λ _. Post true} λ c. erased c (b, there))
                  λ _. Spec-pure true (λ c post. post))
            (λ c e.
              subst (OwnsBy (λ i. find i before.memory_blocks_mapped) before.memory_blocks_mapped)
                (sym (e ∙ p.0.1)) (owns.owned, refl))
