-- ===== src/Dma/ScatterGather.antt =====
-- lib/ips/dma.cpp: writeScatterGather, readScatterGather and their completions.
use fpga.Prelude.{
  ℕ, zero, suc, ◌+◌, ◌-◌, ◌*◌, ◌^◌, bit_and, Bool, true, not, ◌||◌, Option, none, some,
  if◌then◌else◌, ltb, ◌==◌, M, pure, throw, modify, ◌>>=◌, ◌>>◌, runtime_error,
}
use fpga.Dma.{
  Dma, DmaDriver, Direction, mm2s, s2mm, Completion, no_completion, u64, interrupts_of,
  irq_ioc_mask, bd_sts_all_err_mask, bd_sts_complete_mask, bd_ctrl_sof_eof, all_bds,
}
use fpga.Dma.Calls.{lock, unlock, call, act, look, field, require, require_some}

module _ {H : Type 0} (drv : DmaDriver H) where
  -- Dma::writeScatterGather
  unfoldable pub write_scatter_gather : ℕ → ℕ → M (Dma H) Bool
  unfolding lock unlock call act look require require_some
  write_scatter_gather buf len = do
    lock
    tx_ring ← look (drv.has_ring mm2s)
    require tx_ring
    allocated ← call (drv.bd_ring_alloc mm2s 1)
    bd ← require_some allocated
    addr_set ← call (drv.bd_set_buf_addr bd buf)
    require addr_set
    max_len ← look (drv.max_transfer_len mm2s)
    length_set ← call (drv.bd_set_length bd len max_len)
    require length_set
    act (drv.bd_set_ctrl bd bd_ctrl_sof_eof)
    act (drv.bd_set_id bd buf)
    enqueued ← call (drv.bd_ring_to_hw mm2s 1 bd)
    require enqueued
    unlock
    pure true

  -- The loop of readScatterGather, over the descriptors that are left.
  unfoldable pub program_bds : ℕ → ℕ → ℕ → ℕ → ℕ → M (Dma H) (Unit {0})
  unfolding call act look require
  program_bds zero msg_size buf cur_bd cur_buf = pure tt
  program_bds (suc n) msg_size buf cur_bd cur_buf = do
    addr_set ← call (drv.bd_set_buf_addr cur_bd cur_buf)
    require addr_set
    max_len ← look (drv.max_transfer_len s2mm)
    length_set ← call (drv.bd_set_length cur_bd msg_size max_len)
    require length_set
    act (drv.bd_set_ctrl cur_bd 0)
    act (drv.bd_set_id cur_bd buf)
    next_bd ← look (drv.bd_ring_next s2mm cur_bd)
    program_bds n msg_size buf next_bd (u64 (cur_buf + msg_size))

  -- Dma::readScatterGather behind its test of the length.
  unfoldable pub submit_read : ℕ → ℕ → ℕ → M (Dma H) Bool
  unfolding lock unlock call look require require_some program_bds
  submit_read read_coalesce msg_size buf = do
    lock
    rx_ring ← look (drv.has_ring s2mm)
    require rx_ring
    allocated ← call (drv.bd_ring_alloc s2mm read_coalesce)
    bd ← require_some allocated
    program_bds read_coalesce msg_size buf bd buf
    enqueued ← call (drv.bd_ring_to_hw s2mm read_coalesce bd)
    require enqueued
    unlock
    pure true

  -- Dma::readScatterGather
  unfoldable pub read_scatter_gather : ℕ → ℕ → M (Dma H) Bool
  unfolding field submit_read
  read_scatter_gather buf len = do
    read_coalesce ← field (λ dma. dma.read_coalesce)
    msg_size ← field (λ dma. dma.read_msg_size)
    if ltb len (u64 (read_coalesce * msg_size))
        then throw runtime_error
        else submit_read read_coalesce msg_size buf

  -- Whether a status shows an error or no completion.
  abbrev pub status_bad : ℕ → Bool
  status_bad sts =
      not (bit_and sts bd_sts_all_err_mask == 0) || bit_and sts bd_sts_complete_mask == 0

  -- The loop of a completion over the descriptors that came back: the status of each is read, and
  -- the length of the first is added for each.
  unfoldable pub sum_bds : Direction → (ℕ → ℕ → H → ℕ) → ℕ → ℕ → ℕ → ℕ → M (Dma H) ℕ
  unfolding look require
  sum_bds dir get_length zero bd cur_bd bytes = pure bytes
  sum_bds dir get_length (suc n) bd cur_bd bytes = do
    sts ← look (drv.bd_get_sts cur_bd)
    require (not (status_bad sts))
    max_len ← look (drv.max_transfer_len dir)
    length ← look (get_length bd max_len)
    next_bd ← look (drv.bd_ring_next dir cur_bd)
    sum_bds dir get_length n bd next_bd (u64 (bytes + length))

  -- A completion from the descriptors that came back on.
  unfoldable pub collect : Direction → (ℕ → ℕ → H → ℕ) → ℕ → ℕ → Option ℕ → M (Dma H) Completion
  unfolding unlock call require require_some sum_bds
  collect dir get_length interrupts bds bd =
      if bds == 0
      then (do unlock; pure (record { bytes = 0; bds = 0; interrupts = interrupts }))
      else (do
        first ← require_some bd
        bytes ← sum_bds dir get_length bds first first 0
        freed ← call (drv.bd_ring_free dir bds first)
        require freed
        unlock
        pure (record { bytes = bytes; bds = bds; interrupts = interrupts }))

  -- `if (errcnt-- == 0)`, on a size_t
  abbrev pub decrement : ℕ → ℕ
  decrement n = u64 (n + (2 ^ 64 - 1))

  unfoldable pub count_write_error : M (Dma H) (Unit {0})
  unfolding field require
  count_write_error = do
    errcnt ← field (λ dma. dma.write_errcnt)
    modify (λ dma. record dma { write_errcnt = decrement errcnt })
    require (not (errcnt == 0))

  unfoldable pub count_read_error : M (Dma H) (Unit {0})
  unfolding field require
  count_read_error = do
    errcnt ← field (λ dma. dma.read_errcnt)
    modify (λ dma. record dma { read_errcnt = decrement errcnt })
    require (not (errcnt == 0))

  -- Dma::writeCompleteScatterGather
  unfoldable pub write_complete_scatter_gather : M (Dma H) Completion
  unfolding lock call act field count_write_error collect
  write_complete_scatter_gather = do
    intrs ← call (drv.wait_for_interrupt mm2s)
    lock
    coalesce ← field (λ dma. dma.write_coalesce)
    came ← call (drv.bd_ring_from_hw mm2s coalesce)
    if ltb came.0 coalesce then count_write_error else pure tt
    status ← call (drv.bd_ring_get_irq mm2s)
    act (drv.bd_ring_ack_irq mm2s status)
    collect mm2s drv.bd_get_length (interrupts_of intrs) came.0 came.1

  -- The timeout of readCompleteScatterGather: all descriptors are taken back, without the lock.
  unfoldable pub drop_reads : M (Dma H) Completion
  unfolding call
  drop_reads = do
    came ← call (drv.bd_ring_from_hw s2mm all_bds)
    _ ← call (drv.bd_ring_free s2mm came.0 (bd_or_null came.1))
    pure no_completion
    where
      bd_or_null : Option ℕ → ℕ
      bd_or_null none = 0
      bd_or_null (some bd) = bd

  -- readCompleteScatterGather behind its wait. An unexpected interrupt status returns at once, with
  -- `hwLock` still held.
  unfoldable pub finish_read : ℕ → M (Dma H) Completion
  unfolding lock call act field count_read_error collect
  finish_read interrupts = do
    lock
    status ← call (drv.bd_ring_get_irq s2mm)
    act (drv.bd_ring_ack_irq s2mm status)
    if bit_and status irq_ioc_mask == 0
        then pure (record { bytes = 0; bds = 0; interrupts = interrupts })
        else (do
          coalesce ← field (λ dma. dma.read_coalesce)
          came ← call (drv.bd_ring_from_hw s2mm coalesce)
          if ltb came.0 coalesce
              then count_read_error
              else modify (λ dma. record dma { read_errcnt = 32 })
          collect s2mm drv.bd_get_actual_length interrupts came.0 came.1)

  -- Dma::readCompleteScatterGather
  unfoldable pub read_complete_scatter_gather : M (Dma H) Completion
  unfolding call drop_reads finish_read
  read_complete_scatter_gather = do
    intrs ← call (drv.wait_for_interrupt s2mm)
    elim intrs [ none ↦ drop_reads | some n ↦ finish_read n ]
