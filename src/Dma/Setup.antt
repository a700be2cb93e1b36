-- ===== src/Dma/Setup.antt =====
-- lib/ips/dma.cpp: init and the set-up of the two descriptor rings.
use fpga.Prelude.{
  ℕ, ◌*◌, ◌%◌, ◌^◌, Bool, true, false, not, ◌||◌, Option, none, some, if◌then◌else◌, ltb, M, pure,
  throw, modify, ◌>>=◌, ◌>>◌, runtime_error, out_of_range,
}
use fpga.Dma.{Dma, DmaDriver, Direction, mm2s, s2mm, irq_all_mask, irq_ioc_mask}
use fpga.Dma.Calls.{lock, unlock, call, act, look, field, on_hw}

module _ {H : Type 0} (drv : DmaDriver H) where
  -- An error of the set-up throws with `hwLock` still held.
  unfoldable pub expect : Bool → M (Dma H) (Unit {0})
  expect true = pure tt
  expect false = throw runtime_error

  unfoldable pub translated : Option ℕ → M (Dma H) ℕ
  translated none = throw out_of_range
  translated (some a) = pure a

  abbrev coalesce_of : Direction → Dma H → ℕ
  coalesce_of mm2s dma = dma.write_coalesce
  coalesce_of s2mm dma = dma.read_coalesce

  abbrev with_ring : Direction → ℕ → Dma H → Dma H
  with_ring mm2s block dma = record dma { sg_ring_tx = some block }
  with_ring s2mm block dma = record dma { sg_ring_rx = some block }

  -- What setupScatterGatherRingTx and setupScatterGatherRingRx do, on their channel.
  unfoldable pub setup_ring : Direction → M (Dma H) (Unit {0})
  unfolding lock unlock call act look field on_hw expect translated
  setup_ring dir = do
    lock
    act (drv.bd_ring_int_disable dir irq_all_mask)
    coalesce ← field (coalesce_of dir)
    delay ← field (λ dma. dma.delay)
    act (drv.bd_ring_set_coalesce dir coalesce delay)
    memory ← field (λ dma. dma.requested_ring_memory)
    block ← call (drv.allocate_ring dir memory)
    modify (with_ring dir block)
    mapped ← on_hw (drv.map_memory_block block)
    expect mapped
    phys ← look (drv.ring_phys_addr block)
    phys_addr ← translated phys
    virt ← look (drv.ring_virt_addr block)
    virt_addr ← translated virt
    size ← field (λ dma. dma.actual_ring_bd_size)
    created ← call (drv.bd_ring_create dir phys_addr virt_addr size)
    expect created
    cloned ← call (drv.bd_ring_clone dir)
    expect cloned
    act (drv.intr_enable dir irq_ioc_mask)
    started ← call (drv.bd_ring_start dir)
    expect started
    unlock

  -- Dma::setupScatterGatherRingRx
  unfoldable pub setup_scatter_gather_ring_rx : M (Dma H) (Unit {0})
  unfolding setup_ring
  setup_scatter_gather_ring_rx = setup_ring s2mm

  -- Dma::setupScatterGatherRingTx
  unfoldable pub setup_scatter_gather_ring_tx : M (Dma H) (Unit {0})
  unfolding setup_ring
  setup_scatter_gather_ring_tx = setup_ring mm2s

  -- Dma::setupScatterGather
  unfoldable pub setup_scatter_gather : M (Dma H) (Unit {0})
  unfolding setup_scatter_gather_ring_rx setup_scatter_gather_ring_tx
  setup_scatter_gather = setup_scatter_gather_ring_rx >> setup_scatter_gather_ring_tx

  -- The ring is too small for a coalesce value; the products are uint32_t.
  abbrev pub ring_too_small : Dma H → Bool
  ring_too_small dma =
      ltb dma.actual_ring_bd_size (2 * dma.read_coalesce % 2 ^ 32)
      || ltb dma.actual_ring_bd_size (2 * dma.write_coalesce % 2 ^ 32)

  unfoldable pub map_descriptors : M (Dma H) (Unit {0})
  unfolding field setup_scatter_gather
  map_descriptors = do
    sg ← field (λ dma. dma.has_sg)
    small ← field ring_too_small
    if not sg then pure tt else (if small then throw runtime_error else setup_scatter_gather)

  unfoldable pub enable_irqs : M (Dma H) Bool
  unfolding act field
  enable_irqs = do
    polling ← field (λ dma. dma.polling)
    act (drv.enable_interrupt mm2s polling)
    act (drv.enable_interrupt s2mm polling)
    pure true

  -- Dma::init. Where the driver does not initialise, or the self-test fails, `hwLock` stays held.
  unfoldable pub init : M (Dma H) Bool
  unfolding lock unlock call field map_descriptors enable_irqs
  init = do
    configured ← field (λ dma. dma.config_done)
    if not configured then throw runtime_error else (do
      lock
      initialized ← call drv.cfg_initialize
      if not initialized then pure false else (do
        passed ← call drv.selftest
        if not passed then pure false else (do unlock; map_descriptors; enable_irqs)))
