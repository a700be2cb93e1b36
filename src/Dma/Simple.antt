-- ===== src/Dma/Simple.antt =====
-- lib/ips/dma.cpp: the simple mode, without scatter-gather.
use fpga.Prelude.{
  ℕ, zero, suc, ◌+◌, ◌-◌, ◌/◌, ◌%◌, ◌^◌, bit_and, bit_or, Bool, true, false, not, ◌&&◌,
  if◌then◌else◌, ltb, ◌==◌, M, pure, hang, ◌>>=◌, ◌>>◌,
}
use fpga.Dma.{Dma, DmaDriver, Direction, mm2s, s2mm, Completion, interrupts_of, irq_ioc_mask}
use fpga.Dma.Calls.{lock, unlock, call, act, look, field}

-- xilinx/xaxidma_hw.h: offsets in a channel, and bits
abbrev pub cr_offset : ℕ
cr_offset = 0x00

abbrev pub sr_offset : ℕ
sr_offset = 0x04

abbrev pub addr_offset : ℕ
addr_offset = 0x18

abbrev pub addr_msb_offset : ℕ
addr_msb_offset = 0x1C

abbrev pub bufflen_offset : ℕ
bufflen_offset = 0x28

abbrev pub halted_mask : ℕ
halted_mask = 0x1

abbrev pub cr_runstop_mask : ℕ
cr_runstop_mask = 0x1

abbrev pub micromode_min_buf_align : ℕ
micromode_min_buf_align = 0xFFF

module _ {H : Type 0} (drv : DmaDriver H) where
  -- The bits of an address that have to be 0 where the channel cannot realign.
  unfoldable pub align_mask : Bool → ℕ → ℕ
  align_mask micro_dma_mode data_width =
      if micro_dma_mode then micromode_min_buf_align else (data_width + (2 ^ 32 - 1)) % 2 ^ 32

  -- The registers that start a transfer, in their order.
  unfoldable pub start_transfer : Direction → ℕ → ℕ → M (Dma H) Bool
  unfolding unlock call act field
  start_transfer dir buf len = do
    act (drv.write_reg dir addr_offset (buf % 2 ^ 32))
    width ← field (λ dma. dma.addr_width)
    if ltb 32 width
        then act (drv.write_reg dir addr_msb_offset (buf / 2 ^ 32 % 2 ^ 32))
        else pure tt
    control ← call (drv.read_reg dir cr_offset)
    act (drv.write_reg dir cr_offset (bit_or control cr_runstop_mask))
    act (drv.write_reg dir bufflen_offset len)
    unlock
    pure true

  unfoldable pub refuse : M (Dma H) Bool
  unfolding unlock
  refuse = unlock >> pure false

  -- What writeSimple and readSimple do, on their channel.
  unfoldable pub transfer_simple : Direction → ℕ → ℕ → M (Dma H) Bool
  unfolding lock call look field align_mask refuse start_transfer
  transfer_simple dir buf len = do
    lock
    dre ← look (drv.has_dre dir)
    micro ← field (λ dma. dma.micro_dma_mode)
    width ← look (drv.data_width dir)
    if not dre && not (bit_and buf (align_mask micro width) == 0) then refuse else (do
      status ← call (drv.read_reg dir sr_offset)
      busy ← call (drv.busy dir)
      if bit_and status halted_mask == 0 && busy then refuse else start_transfer dir buf len)

  -- Dma::writeSimple
  unfoldable pub write_simple : ℕ → ℕ → M (Dma H) Bool
  unfolding transfer_simple
  write_simple = transfer_simple mm2s

  -- Dma::readSimple
  unfoldable pub read_simple : ℕ → ℕ → M (Dma H) Bool
  unfolding transfer_simple
  read_simple = transfer_simple s2mm

  -- The loop of a completion; without fuel the interrupt has not come.
  unfoldable pub await_ioc : ℕ → Direction → ℕ → M (Dma H) ℕ
  unfolding call
  await_ioc zero dir interrupts = hang
  await_ioc (suc fuel) dir interrupts = do
    irq ← call (drv.intr_get_irq dir)
    elim (bit_and irq irq_ioc_mask == 0) [
      | false ↦ pure interrupts
      | true ↦ (do
        intrs ← call (drv.wait_for_interrupt dir)
        await_ioc fuel dir (interrupts_of intrs))
    ]

  unfoldable pub complete_simple : ℕ → Direction → M (Dma H) Completion
  unfolding lock unlock call act await_ioc
  complete_simple fuel dir = do
    interrupts ← await_ioc fuel dir 0
    lock
    act (drv.intr_ack_irq dir irq_ioc_mask)
    bytes ← call (drv.read_reg dir bufflen_offset)
    unlock
    pure (record { bytes = bytes; bds = 0; interrupts = interrupts })

  -- Dma::writeCompleteSimple
  unfoldable pub write_complete_simple : ℕ → M (Dma H) Completion
  unfolding complete_simple
  write_complete_simple fuel = complete_simple fuel mm2s

  -- Dma::readCompleteSimple
  unfoldable pub read_complete_simple : ℕ → M (Dma H) Completion
  unfolding complete_simple
  read_complete_simple fuel = complete_simple fuel s2mm
