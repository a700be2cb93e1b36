-- ===== src/Dma/Transfer.antt =====
-- lib/ips/dma.cpp: write, read, memcpy, reset and the accessibility of a block.
use fpga.Prelude.{
  ℕ, zero, suc, Bool, true, false, not, ◌&&◌, none, some, if◌then◌else◌, ltb, ◌==◌, M, pure, throw,
  ◌>>=◌, ◌>>◌, runtime_error, out_of_range,
}
use fpga.Dma.{Dma, DmaDriver, Direction, mm2s, s2mm, Completion, fpga_dma_boundary, irq_all_mask}
use fpga.Dma.Calls.{lock, unlock, call, act, look, field, on_hw}
use fpga.Dma.ScatterGather.{
  write_scatter_gather, read_scatter_gather, write_complete_scatter_gather,
  read_complete_scatter_gather,
}
use fpga.Dma.Simple.{write_simple, read_simple, write_complete_simple, read_complete_simple}

module _ {H : Type 0} (drv : DmaDriver H) where
  -- The address of a block from the channel's interface; a missing translation throws, and so does
  -- a null address.
  unfoldable pub buffer_of : Direction → ℕ → M (Dma H) ℕ
  unfolding look
  buffer_of dir space = do
    found ← look (drv.local_addr dir space)
    elim found [
      | none ↦ throw out_of_range
      | some buf ↦ (if buf == 0 then throw runtime_error else pure buf)
    ]

  -- Dma::write
  unfoldable pub write : ℕ → ℕ → M (Dma H) Bool
  unfolding field buffer_of write_scatter_gather write_simple
  write space len =
      if len == 0
      then pure true
      else (if ltb fpga_dma_boundary len then pure false else (do
        buf ← buffer_of mm2s space
        sg ← field (λ dma. dma.has_sg)
        if sg then write_scatter_gather drv buf len else write_simple drv buf len))

  -- Dma::read
  unfoldable pub read : ℕ → ℕ → M (Dma H) Bool
  unfolding field buffer_of read_scatter_gather read_simple
  read space len =
      if len == 0
      then pure true
      else (if ltb fpga_dma_boundary len then pure false else (do
        buf ← buffer_of s2mm space
        sg ← field (λ dma. dma.has_sg)
        if sg then read_scatter_gather drv buf len else read_simple drv buf len))

  -- Dma::writeComplete and Dma::readComplete; the fuel bounds the waits of the simple mode.
  unfoldable pub write_complete : ℕ → M (Dma H) Completion
  unfolding field write_complete_scatter_gather write_complete_simple
  write_complete fuel = do
    sg ← field (λ dma. dma.has_sg)
    if sg then write_complete_scatter_gather drv else write_complete_simple drv fuel

  unfoldable pub read_complete : ℕ → M (Dma H) Completion
  unfolding field read_complete_scatter_gather read_complete_simple
  read_complete fuel = do
    sg ← field (λ dma. dma.has_sg)
    if sg then read_complete_scatter_gather drv else read_complete_simple drv fuel

  -- Dma::memcpy. The results of `read` and `write` are bools.
  unfoldable pub memcpy : ℕ → ℕ → ℕ → ℕ → M (Dma H) Bool
  unfolding on_hw read write write_complete read_complete
  memcpy fuel src dst len = if len == 0 then pure true else (do
    connected ← on_hw drv.connect_loopback
    if not connected then pure false else (do
      reading ← read dst len
      if not reading then pure false else (do
        writing ← write src len
        if not writing then pure false else (do
          written ← write_complete fuel
          if written.bds == 0
              then pure false
              else (do done ← read_complete fuel; pure (not (done.bds == 0)))))))

  -- The polling loop of `reset`: a reset that is done returns at once, with `hwLock` held.
  unfoldable pub await_reset : ℕ → M (Dma H) Bool
  unfolding unlock call
  await_reset zero = unlock >> pure false
  await_reset (suc timeout) = do
    done ← call drv.reset_is_done
    elim done [ true ↦ pure true | false ↦ await_reset timeout ]

  -- Dma::reset
  unfoldable pub reset : M (Dma H) Bool
  unfolding lock act field await_reset
  reset = do
    base ← field (λ dma. dma.reg_base)
    if base == 0 then pure true else (do
      lock
      act (drv.intr_disable mm2s irq_all_mask)
      act (drv.intr_disable s2mm irq_all_mask)
      act drv.reset
      await_reset 500)

  -- Dma::isMemoryBlockAccesible
  abbrev pub is_memory_block_accesible : ℕ → Direction → H → Bool
  is_memory_block_accesible space dir = drv.has_path dir space

  abbrev pub accessible_both_ways : ℕ → H → Bool
  accessible_both_ways space h =
      is_memory_block_accesible space s2mm h && is_memory_block_accesible space mm2s h

  -- Dma::makeAccesibleFromVA
  unfoldable pub make_accesible_from_va : ℕ → M (Dma H) (Unit {0})
  unfolding look on_hw
  make_accesible_from_va space = do
    accessible ← look (accessible_both_ways space)
    if accessible then pure tt else (do
      mapped ← on_hw (drv.map_memory_block space)
      if not mapped then throw runtime_error else (do
        now ← look (accessible_both_ways space)
        if now then pure tt else throw runtime_error))
