-- ===== src/Dma/Locks/Teardown.antt =====
-- hwLock in the destructor of lib/ips/dma.cpp, which ends with a reset.
use fpga.Prelude.{
  throw, modify, gets, erase, Spec-focus, nat_key, plain_exception, out_of_range, ◌≢◌, ◌>>◌, Error,
  ℕ, Bool, true, false, Option, none, some, if◌then◌else◌, ◌==◌, ◌≡◌, refl, sym, subst, M, Outcome,
  returned, threw, stuck, Ensures, Ensures-map, Spec, Spec-bind, Spec-pure, Spec-weaken, pure,
  ◌>>=◌,
}
use fpga.Card.{Card, Driver, MemoryBlock, translated, act, unmap_space, unmap_memory_block}
use fpga.Dma.Calls.{act as dma_act}
use fpga.Dma.{Dma, DmaDriver, Direction, mm2s, s2mm}
use fpga.Dma.Calls.{look, field, on_hw}
use fpga.Dma.Transfer.{reset}
use fpga.Dma.Config.{DmaEnd, free_ring, unmap_ring, release_rings, destroy_dma}
use fpga.Dma.Locks.{Free, Held, lock_blocks}
use fpga.Dma.Locks.Completions.{reset-lock}

-- A call that comes back, with a result or an exception.
abbrev Returns : {S A : Type 0} → M S A → Type 0
Returns {S} m = Spec (λ (s : S). Unit {0}) m (λ _ _. Unit {0}) (λ e _. e ≢ none)

module _ {C I : Type 0} (driver : Driver C) where
  translated-Returns : {A : Type 0} (f : Card C I → Option A) → Returns (translated f)
  unfolding translated
  translated-Returns f = record { at = λ card u. from card (f card) }
    where
      from :
          {A : Type 0} (card : Card C I) (o : Option A)
          → Ensures
              (λ _ _. Unit {0})
              (λ e _. e ≢ none)
              (elim o as (λ _. Outcome (Card C I) A) [
                | none ↦ threw out_of_range card
                | some a ↦ returned a card
              ])
      from card none = λ e. cc
      from card (some a) = tt

  unmap_space-Returns : (space : ℕ) → Returns {S = Card C I} (unmap_space driver space)
  unfolding unmap_space act
  unmap_space-Returns space =
      Spec-bind _ _ (translated-Returns _) λ translation. record { at = λ card u. tt }

  -- unmapMemoryBlock comes back, whatever the memory manager and VFIO answer.
  after_look :
      (block : MemoryBlock) (mapped : Option MemoryBlock)
      → Returns (elim mapped as (λ _. M (Card C I) Bool) [
        | none ↦ throw plain_exception
        | some _ ↦
            unmap_space driver block.addr_space_id
            >> (modify (λ card. record card {
              memory_blocks_mapped = erase block.addr_space_id card.memory_blocks_mapped;
            })
                >> pure true)
      ])
  unfolding modify pure throw
  after_look block none = record { at = λ card u e. cc }
  after_look block (some b) =
      Spec-bind {Q = λ _ _. Unit {0}} _ _ (unmap_space-Returns block.addr_space_id) λ _.
        Spec-bind {Q = λ _ _. Unit {0}} _ _ (record { at = λ card u. tt })
          λ _. record { at = λ card u. tt }

  unmap_memory_block-Returns :
      (block : MemoryBlock) → Returns {S = Card C I} (unmap_memory_block driver block)
  unfolding unmap_memory_block gets
  unmap_memory_block-Returns block =
      Spec-bind {Q = λ _ _. Unit {0}} _ _ (record { at = λ card u. tt }) (after_look block)

module _ {H C I : Type 0} (drv : DmaDriver H) (end : DmaEnd H C I) where
  module _ (b : Bool) where
    -- The controller is mapped, and its lock is as it was.
    abbrev Kept : Dma H → Type 0
    Kept dma = (dma.locked ≡ b) × (dma.reg_base == 0 ≡ false)

    -- The same behind an exception.
    abbrev Thrown : Option Error → Dma H → Type 0
    Thrown e dma = (e ≢ none) × Kept dma

    free_ring-Kept : (dir : Direction) → Spec Kept (free_ring drv end dir) (λ _. Kept) Thrown
    unfolding free_ring dma_act look pure ◌>>=◌
    free_ring-Kept dir = record { at = λ dma kept. from (drv.has_ring dir dma.hw) dma kept }
      where
        from :
            (there : Bool) (dma : Dma H)
            → Kept dma
            → Ensures
                (λ _. Kept)
                Thrown
                ((if there then dma_act (end.free_cyclic_bd dir) else pure tt) dma)
        from true dma kept = kept
        from false dma kept = kept

    on_hw-Kept : {A : Type 0} (m : M H A) → Returns m → Spec Kept (on_hw m) (λ _. Kept) Thrown
    unfolding on_hw
    on_hw-Kept m returns = record {
      at = λ dma kept. from dma kept (m dma.hw) (returns.at dma.hw tt);
    }
      where
        from :
            {A : Type 0} (dma : Dma H)
            → Kept dma
            → (o : Outcome H A) → Ensures (λ _ _. Unit {0}) (λ e _. e ≢ none) o
            → Ensures
                (λ _. Kept)
                Thrown
                (elim o as (λ _. Outcome (Dma H) A) [
                  | returned a h ↦ returned a (record dma { hw = h })
                  | threw e h ↦ threw e (record dma { hw = h })
                  | stuck h ↦ stuck (record dma { hw = h })
                ])
        from dma kept (returned a h) ends = kept
        from dma kept (threw e h) ends = (ends, kept)
        from dma kept (stuck h) ends = absurd (ends refl)

    unmap_ring-Kept : (ring : Option ℕ) → Spec Kept (unmap_ring drv end ring) (λ _. Kept) Thrown
    unfolding unmap_ring
    unmap_ring-Kept none = Spec-pure tt λ dma kept. kept
    unmap_ring-Kept (some block) =
        Spec-bind _ _
          (on_hw-Kept _ (
            Spec-focus end.card end.with_card _
              (unmap_memory_block-Returns end.driver (end.block block)) (λ h u. tt)
              (λ h a c u v. tt) (λ h e c u ne. ne)))
          λ _. Spec-pure tt λ dma kept. kept

    field-Kept : {A : Type 0} (f : Dma H → A) → Spec Kept (field f) (λ _. Kept) Thrown
    unfolding field
    field-Kept f = record { at = λ dma kept. kept }

    release_rings-Kept : Spec Kept (release_rings drv end) (λ _. Kept) Thrown
    unfolding release_rings
    release_rings-Kept = Spec-bind _ _ (free_ring-Kept mm2s) λ _.
        Spec-bind _ _ (free_ring-Kept s2mm) λ _. Spec-bind _ _ (field-Kept _) λ tx.
          Spec-bind _ _ (unmap_ring-Kept tx)
            λ _. Spec-bind _ _ (field-Kept _) λ rx. unmap_ring-Kept rx

    rings-Kept :
        (scatter_gather : Bool)
        → Spec Kept (if scatter_gather then release_rings drv end else pure tt) (λ _. Kept) Thrown
    rings-Kept true = release_rings-Kept
    rings-Kept false = Spec-pure tt λ dma kept. kept

  reset_stuck : (dma : Dma H) → Kept true dma → reset drv dma ≡ stuck dma
  unfolding reset field ◌>>=◌
  reset_stuck dma (held, mapped) = rw (mapped) (lock_blocks _ dma held)

  reset-Free : Spec (Kept false) (reset drv) (λ _ _. Unit {0}) (Thrown false)
  reset-Free = record {
    at = λ dma (free, mapped).
        Ensures-map {Q' = λ _ _. Unit {0}} {X' = Thrown false} (reset drv dma) (λ ok s h. tt)
          (λ e s h. absurd h) (reset-lock drv dma free mapped);
  }

  reset-Held : Spec (Kept true) (reset drv) (λ _ _. ⊥) (λ _. Kept true)
  reset-Held = record {
    at = λ dma kept. subst (Ensures (λ _ _. ⊥) (λ _. Kept true)) (sym (reset_stuck dma kept)) kept;
  }

  -- For a controller that is mapped: where hwLock is free, the destructor comes back, or an exception of
  -- unmapMemoryBlock leaves it; where hwLock is held, the destructor never returns: such an exception leaves it,
  -- or it waits for the lock for ever, and in either case the lock is still held.
  pub destroy_dma-lock :
      (dma : Dma H)
      → dma.reg_base == 0 ≡ false
      → (Free dma
          → Ensures (λ _ _. Unit {0}) (λ e s. (e ≢ none) × Free s) (destroy_dma drv end dma))
        × (Held dma → Ensures (λ _ _. ⊥) (λ _. Held) (destroy_dma drv end dma))
  unfolding destroy_dma
  destroy_dma-lock dma mapped = (
    λ free.
        Ensures-map {Q' = λ _ _. Unit {0}} {X = Thrown false} {X' = λ e s. (e ≢ none) × Free s}
          (destroy_dma drv end dma) (λ a s u. u) (λ e s x. (x.0, x.1.0))
          (freed.at dma (free, mapped)),
    λ held.
        Ensures-map {Q' = λ _ _. ⊥} {X = λ _. Kept true} {X' = λ _. Held} (destroy_dma drv end dma)
          (λ a s bad. bad) (λ e s x. x.0) (blocked.at dma (held, mapped)),
  )
    where
      freed : Spec (Kept false) (destroy_dma drv end) (λ _ _. Unit {0}) (Thrown false)
      freed = Spec-bind _ _ (field-Kept false _) λ b.
          Spec-bind _ _ (rings-Kept false b)
            λ _. Spec-bind _ _ reset-Free λ _. Spec-pure tt λ s h. tt

      blocked : Spec (Kept true) (destroy_dma drv end) (λ _ _. ⊥) (λ _. Kept true)
      blocked = Spec-bind _ _ (held (field-Kept true _)) λ b.
          Spec-bind _ _ (held (rings-Kept true b))
            λ _. Spec-bind _ _ reset-Held λ _. record { at = λ s h. absurd h }
        where
          held :
              {A : Type 0} {P : Dma H → Type 0} {Q : A → Dma H → Type 0} {m : M (Dma H) A}
              → Spec P m Q (Thrown true)
              → Spec P m Q (λ _. Kept true)
          held h = Spec-weaken h (λ s p. p) (λ a s q. q) (λ e s x. x.1)
