-- ===== src/Dma/Polling.antt =====
-- The simple completions of lib/ips/dma.cpp: the wait ends, and memcpy never reports success.
use fpga.Prelude.{
  ℕ, zero, suc, ◌<◌, bit_and, Bool, true, false, not, ◌==◌, ◌≡◌, refl, M, Outcome, Ensures, pure,
  ◌>>=◌, arith,
}
use fpga.Dma.{Dma, DmaDriver, Direction, irq_ioc_mask}
use fpga.Dma.Calls.{call}
use fpga.Dma.Simple.{await_ioc}

module _ {H : Type 0} (drv : DmaDriver H) (dir : Direction) where
  -- The hardware after the `n`th read of the interrupt status and the wait behind it.
  unfoldable pub polled : ℕ → H → H
  polled zero h = h
  polled (suc n) h = polled n (drv.wait_for_interrupt dir (drv.intr_get_irq dir h).1).1

  -- Whether the `n`th read of the interrupt status shows a completed transfer.
  abbrev pub completes_at : ℕ → H → Bool
  completes_at n h = not (bit_and (drv.intr_get_irq dir (polled n h)).0 irq_ioc_mask == 0)

  abbrev pub Returns : {A : Type 0} → Outcome (Dma H) A → Type 0
  Returns = Ensures (λ _ _. Unit {0}) (λ _ _. ⊥)

  poll_or : Bool → ℕ → M (Dma H) ℕ → M (Dma H) ℕ
  poll_or b interrupts m = elim b [ false ↦ pure interrupts | true ↦ m ]

  first_poll :
      (b : Bool) (interrupts : ℕ) (dma : Dma H) (m : M (Dma H) ℕ)
      → (b ≡ true → Returns (m dma))
      → Returns (poll_or b interrupts m dma)
  unfolding ◌>>=◌ poll_or
  first_poll false interrupts dma m h = tt
  first_poll true interrupts dma m h = h refl

  -- The wait of a simple completion returns where one of its reads of the interrupt status shows a
  -- completed transfer, with any fuel above the number of that read.
  pub await_ioc-Returns :
      (n fuel interrupts : ℕ) (dma : Dma H)
      → n < fuel
      → completes_at n dma.hw ≡ true
      → Returns (await_ioc drv fuel dir interrupts dma)
  unfolding await_ioc call ◌>>=◌ polled poll_or
  await_ioc-Returns n zero interrupts dma l h = absurd (omega arith)
  await_ioc-Returns zero (suc fuel) interrupts dma l h =
      first_poll (bit_and (drv.intr_get_irq dir dma.hw).0 irq_ioc_mask == 0) interrupts _ _
        λ none_yet. absurd (ground arith)
  await_ioc-Returns (suc n) (suc fuel) interrupts dma l h =
      first_poll (bit_and (drv.intr_get_irq dir dma.hw).0 irq_ioc_mask == 0) interrupts _ _
        λ _. await_ioc-Returns n fuel _ _ (omega arith) h
