-- ===== src/Card.antt =====
-- lib/card.cpp: the memory that a card maps for its FPGA, and the end of a card. The VFIO container
-- and the memory manager are parameters. The lookups stand in `Core`.
pub mod Ownership
pub mod Memory
pub mod End
mod Examples
use fpga.Prelude.{
  ℕ, ◌-◌, ◌^◌, Bool, true, false, not, ◌==◌, List, [], ◌∷◌, Option, none, some, if◌then◌else◌, Map,
  find, insert, erase, nat_key, M, returned, threw, pure, throw, modify, gets, ◌>>=◌, ◌>>◌,
  out_of_range, plain_exception,
}

-- MemoryBlock, as far as the card reads it
pub record MemoryBlock : Type 0 where
  pub addr_space_id : ℕ
  pub size : ℕ

-- UINTPTR_MAX
abbrev pub uintptr_max : ℕ
uintptr_max = 2 ^ 64 - 1

-- vfio::Container and MemoryManager, over the state `H` of the two. `none` stands for a translation
-- that is not there, where the memory manager throws; a translation is a local address and a size.
pub record Driver (H : Type 0) : Type 0 where
  pub is_iommu_enabled : H → Bool
  pub memory_map : ℕ → ℕ → ℕ → H → ℕ × H
  pub memory_unmap : ℕ → ℕ → H → H
  pub get_translation_from_process : ℕ → H → Option ℕ
  pub get_translation : ℕ → ℕ → H → Option (ℕ × ℕ)
  pub create_mapping : ℕ → ℕ → ℕ → ℕ → ℕ → H → H

-- Card, with the state of what it calls; `I` is the type of its IPs.
pub record Card (H I : Type 0) : Type 0 where
  pub hw : H
  pub addr_space_id_device_to_host : ℕ
  pub ips : List I
  pub memory_blocks_mapped : Map ℕ MemoryBlock

-- What a card does to an IP: it stops it, and it gives up its pointer to it.
pub record IpMethods (H I : Type 0) : Type 0 where
  pub stop : I → M (Card H I) Bool
  pub release : I → M (Card H I) (Unit {0})

-- The elements from the last to the first, in front of `done`.
abbrev pub reverse_onto : {A : Type 0} → List A → List A → List A
reverse_onto [] done = done
reverse_onto (x ∷ xs) done = reverse_onto xs (x ∷ done)

module _ {H I : Type 0} where
  -- A translation that the memory manager throws without.
  unfoldable pub translated : {A : Type 0} → (Card H I → Option A) → M (Card H I) A
  translated f card = elim (f card) [ none ↦ threw out_of_range card | some t ↦ returned t card ]

  unfoldable pub act : (H → H) → M (Card H I) (Unit {0})
  act f card = returned tt (record card { hw = f card.hw })

  unfoldable pub call : {A : Type 0} → (H → A × H) → M (Card H I) A
  call f card = returned (f card.hw).0 (record card { hw = (f card.hw).1 })

module _ {H I : Type 0} (driver : Driver H) where
  -- The translation of a mapped block.
  abbrev pub device_translation : ℕ → Card H I → Option (ℕ × ℕ)
  device_translation space card =
      driver.get_translation card.addr_space_id_device_to_host space card.hw

  -- The end of mapMemoryBlock, where the IOMMU has given an address.
  unfoldable pub remember_mapping : MemoryBlock → ℕ → M (Card H I) Bool
  unfolding act
  remember_mapping block iova = do
    device ← gets (λ card. card.addr_space_id_device_to_host)
    act (driver.create_mapping iova 0 block.size device block.addr_space_id)
    modify (λ card. record card {
      memory_blocks_mapped = insert block.addr_space_id block card.memory_blocks_mapped;
    })
    pure true

  -- mapMemoryBlock, for a block that is not mapped
  unfoldable pub create_vfio_mapping : MemoryBlock → M (Card H I) Bool
  unfolding translated call remember_mapping
  create_vfio_mapping block = do
    base ← translated (λ card. driver.get_translation_from_process block.addr_space_id card.hw)
    iova ← call (driver.memory_map base uintptr_max block.size)
    if iova == uintptr_max then pure false else remember_mapping block iova

  -- Card::mapMemoryBlock
  unfoldable pub map_memory_block : MemoryBlock → M (Card H I) Bool
  unfolding create_vfio_mapping
  map_memory_block block = do
    enabled ← gets (λ card. driver.is_iommu_enabled card.hw)
    mapped ← gets (λ card. find block.addr_space_id card.memory_blocks_mapped)
    if not enabled
        then pure false
        else elim mapped [ some _ ↦ pure true | none ↦ create_vfio_mapping block ]

  -- The two lines that unmapMemoryBlock and the destructor share.
  unfoldable pub unmap_space : ℕ → M (Card H I) (Unit {0})
  unfolding translated act
  unmap_space space = do
    translation ← translated (device_translation space)
    act (driver.memory_unmap translation.0 translation.1)

  -- Card::unmapMemoryBlock
  unfoldable pub unmap_memory_block : MemoryBlock → M (Card H I) Bool
  unfolding unmap_space
  unmap_memory_block block = do
    mapped ← gets (λ card. find block.addr_space_id card.memory_blocks_mapped)
    elim mapped [
      | none ↦ throw plain_exception
      | some _ ↦ do
        unmap_space block.addr_space_id
        modify (λ card. record card {
          memory_blocks_mapped = erase block.addr_space_id card.memory_blocks_mapped;
        })
        pure true
    ]

  -- The loop of the destructor over the mapped blocks.
  unfoldable pub unmap_all : Map ℕ MemoryBlock → M (Card H I) (Unit {0})
  unfolding unmap_space
  unmap_all [] = pure tt
  unmap_all ((space, _) ∷ blocks) = do unmap_space space; unmap_all blocks

module _ {H I : Type 0} (methods : IpMethods H I) where
  -- The first loop of the destructor.
  unfoldable pub stop_ips : List I → M (Card H I) (Unit {0})
  stop_ips [] = pure tt
  stop_ips (ip ∷ ips) = do _ ← methods.stop ip; stop_ips ips

  -- ips.clear()
  unfoldable pub clear_ips : List I → M (Card H I) (Unit {0})
  clear_ips [] = modify (λ card. record card { ips = [] })
  clear_ips (ip ∷ ips) = do methods.release ip; clear_ips ips

  -- Card::~Card
  unfoldable pub destroy : Driver H → M (Card H I) (Unit {0})
  unfolding stop_ips clear_ips unmap_all
  destroy driver = do
    ips ← gets (λ card. card.ips)
    stop_ips (reverse_onto ips [])
    clear_ips ips
    blocks ← gets (λ card. card.memory_blocks_mapped)
    unmap_all driver blocks
