-- ===== src/Dma.antt =====
-- lib/ips/dma.cpp and include/villas/fpga/ips/dma.hpp: the DMA controller. The Xilinx driver
-- (xilinx/xaxidma.h), the interrupt controller and the memory manager are parameters; their calls act
-- on a hardware state `H`. A buffer descriptor and a buffer are their addresses.
pub mod Calls
pub mod ScatterGather
pub mod Simple
pub mod Transfer
pub mod Setup
pub mod Locks
pub mod Bounds
pub mod Counts
pub mod Polling
pub mod SimpleMode
pub mod Config
mod Examples
use fpga.Prelude.{ℕ, ◌+◌, ◌-◌, ◌*◌, ◌%◌, ◌^◌, Bool, true, false, Option, none, some, Text, M}

-- Memory-mapped to stream, or stream to memory-mapped.
pub data Direction : Type 0 where
  mm2s s2mm : Direction

-- A call that answers and steps the hardware.
abbrev pub Call : Type 0 → Type 0 → Type 0
Call H A = H → A × H

pub record DmaDriver (H : Type 0) : Type 0 where
  -- XAxiDma_CfgInitialize, XAxiDma_Selftest: whether they succeed
  pub cfg_initialize : Call H Bool
  pub selftest : Call H Bool
  -- whether XAxiDma_GetTxRing or XAxiDma_GetRxRing gives a ring
  pub has_ring : Direction → H → Bool
  pub max_transfer_len : Direction → H → ℕ
  -- XAxiDma_BdRing...; the status is whether it is XST_SUCCESS
  pub bd_ring_int_disable : Direction → ℕ → H → H
  pub bd_ring_set_coalesce : Direction → ℕ → ℕ → H → H
  pub bd_ring_create : Direction → ℕ → ℕ → ℕ → Call H Bool
  pub bd_ring_clone : Direction → Call H Bool
  pub bd_ring_start : Direction → Call H Bool
  pub bd_ring_alloc : Direction → ℕ → Call H (Option ℕ)
  pub bd_ring_to_hw : Direction → ℕ → ℕ → Call H Bool
  pub bd_ring_from_hw : Direction → ℕ → Call H (ℕ × Option ℕ)
  pub bd_ring_get_irq : Direction → Call H ℕ
  pub bd_ring_ack_irq : Direction → ℕ → H → H
  pub bd_ring_next : Direction → ℕ → H → ℕ
  pub bd_ring_free : Direction → ℕ → ℕ → Call H Bool
  -- XAxiDma_Bd...
  pub bd_set_buf_addr : ℕ → ℕ → Call H Bool
  pub bd_set_length : ℕ → ℕ → ℕ → Call H Bool
  pub bd_set_ctrl : ℕ → ℕ → H → H
  pub bd_set_id : ℕ → ℕ → H → H
  pub bd_get_sts : ℕ → H → ℕ
  pub bd_get_length : ℕ → ℕ → H → ℕ
  pub bd_get_actual_length : ℕ → ℕ → H → ℕ
  -- XAxiDma_ReadReg and XAxiDma_WriteReg on a channel's registers
  pub read_reg : Direction → ℕ → Call H ℕ
  pub write_reg : Direction → ℕ → ℕ → H → H
  pub busy : Direction → Call H Bool
  pub has_dre : Direction → H → Bool
  pub data_width : Direction → H → ℕ
  pub intr_get_irq : Direction → Call H ℕ
  pub intr_ack_irq : Direction → ℕ → H → H
  pub intr_enable : Direction → ℕ → H → H
  pub intr_disable : Direction → ℕ → H → H
  pub reset : H → H
  pub reset_is_done : Call H Bool
  -- InterruptController::enableInterrupt and waitForInterrupt; `none` is -1
  pub enable_interrupt : Direction → Bool → H → H
  pub wait_for_interrupt : Direction → Call H (Option ℕ)
  -- MemoryManager::getTranslation and getLocalAddr(0), from the channel's bus master interface;
  -- `none` is the exception
  pub local_addr : Direction → ℕ → H → Option ℕ
  -- HostRam::allocateBlock for a ring, Card::mapMemoryBlock, the addresses of the ring
  pub allocate_ring : Direction → ℕ → Call H ℕ
  pub map_memory_block : ℕ → M H Bool
  pub ring_phys_addr : ℕ → H → Option ℕ
  pub ring_virt_addr : ℕ → H → Option ℕ
  -- MemoryManager::findPath from an interface to a block: whether there is one
  pub has_path : Direction → ℕ → H → Bool
  -- Node::connectLoopback
  pub connect_loopback : M H Bool

-- The class's members. `write_errcnt` and `read_errcnt` are the static counters of the two
-- scatter-gather completions, which all controllers share.
pub record Dma (H : Type 0) : Type 0 where
  pub hw : H
  pub locked : Bool
  pub config_done : Bool
  pub has_sg : Bool
  pub micro_dma_mode : Bool
  pub addr_width : ℕ
  pub reg_base : ℕ
  pub polling : Bool
  pub delay : ℕ
  pub write_coalesce : ℕ
  pub read_coalesce : ℕ
  pub read_msg_size : ℕ
  pub actual_ring_bd_size : ℕ
  pub requested_ring_memory : ℕ
  pub sg_ring_tx : Option ℕ
  pub sg_ring_rx : Option ℕ
  pub write_errcnt : ℕ
  pub read_errcnt : ℕ

-- Dma::Completion
pub record Completion : Type 0 where
  pub bytes : ℕ
  pub bds : ℕ
  pub interrupts : ℕ

abbrev pub no_completion : Completion
no_completion = record { bytes = 0; bds = 0; interrupts = 0 }

-- FPGA_DMA_BOUNDARY
abbrev pub fpga_dma_boundary : ℕ
fpga_dma_boundary = 0x1000

-- size_t
abbrev pub u64 : ℕ → ℕ
u64 n = n % 2 ^ 64

-- The conversion of waitForInterrupt's ssize_t to a size_t.
abbrev pub interrupts_of : Option ℕ → ℕ
interrupts_of none = 2 ^ 64 - 1
interrupts_of (some n) = n

-- xilinx/xaxidma_hw.h and xaxidma_bd.h
abbrev pub irq_all_mask : ℕ
irq_all_mask = 0x7000

abbrev pub irq_ioc_mask : ℕ
irq_ioc_mask = 0x1000

abbrev pub bd_sts_all_err_mask : ℕ
bd_sts_all_err_mask = 0x7000_0000

abbrev pub bd_sts_complete_mask : ℕ
bd_sts_complete_mask = 0x8000_0000

-- TXSOF and TXEOF
abbrev pub bd_ctrl_sof_eof : ℕ
bd_ctrl_sof_eof = 0x0C00_0000

-- XAXIDMA_ALL_BDS
abbrev pub all_bds : ℕ
all_bds = 0x0FFF_FFFF
