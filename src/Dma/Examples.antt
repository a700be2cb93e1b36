-- ===== src/Dma/Examples.antt =====
-- Tests of lib/ips/dma.cpp, and its theorems at a controller whose hardware is the list of the buffer
-- addresses that were programmed, the newest first.
use fpga.Prelude.{
  ℕ, ◌+◌, ◌≤◌, Bool, true, false, List, [], ◌∷◌, All, none, some, ◌≡◌, refl, Ensures, returned,
  threw, throw, modify, pos, config_error, plain_exception, ◌≢◌, focus, arith, ◌>>=◌, pure,
}
use fpga.Card.{Card, Driver, unmap_memory_block}
use fpga.Dma.{Dma, DmaDriver, s2mm}
use fpga.Dma.ScatterGather.{read_scatter_gather, collect}
use fpga.Dma.Calls.{lock}
use fpga.Dma.Transfer.{write, read, memcpy, reset, await_reset}
use fpga.Dma.Locks.{Free, Held, FailsFree}
use fpga.Dma.Locks.Transfers.{transfer-releases}
use fpga.Dma.Bounds.{KeepsInside, read_scatter_gather-inside}
use fpga.Dma.Counts.{CountsFirst, OnlyRuntime, collect-bytes}
use fpga.Dma.Locks.Teardown.{destroy_dma-lock}
use fpga.Dma.Config.{
  DmaConfig, DmaEnd, Parameter, Parameters, missing, number, something_else, default_config,
  dma_parse, destroy_dma,
}

-- Its interrupt status is `status`.
abbrev log : ℕ → DmaDriver (List ℕ)
log status = record {
  cfg_initialize = λ h. (true, h);
  selftest = λ h. (true, h);
  has_ring = λ dir h. true;
  max_transfer_len = λ dir h. 0xFFFF;
  bd_ring_int_disable = λ dir mask h. h;
  bd_ring_set_coalesce = λ dir n delay h. h;
  bd_ring_create = λ dir phys virt n h. (true, h);
  bd_ring_clone = λ dir h. (true, h);
  bd_ring_start = λ dir h. (true, h);
  bd_ring_alloc = λ dir n h. (some 0x40, h);
  bd_ring_to_hw = λ dir n bd h. (true, h);
  bd_ring_from_hw = λ dir n h. ((n, some 0x40), h);
  bd_ring_get_irq = λ dir h. (status, h);
  bd_ring_ack_irq = λ dir mask h. h;
  bd_ring_next = λ dir bd h. bd + 0x40;
  bd_ring_free = λ dir n bd h. (true, h);
  bd_set_buf_addr = λ bd addr h. (true, addr ∷ h);
  bd_set_length = λ bd len max h. (true, h);
  bd_set_ctrl = λ bd ctrl h. h;
  bd_set_id = λ bd id h. h;
  bd_get_sts = λ bd h. 0x8000_0000;
  bd_get_length = λ bd max h. bd;
  bd_get_actual_length = λ bd max h. bd;
  read_reg = λ dir offset h. (0, h);
  write_reg = λ dir offset value h. h;
  busy = λ dir h. (false, h);
  has_dre = λ dir h. true;
  data_width = λ dir h. 4;
  intr_get_irq = λ dir h. (0x1000, h);
  intr_ack_irq = λ dir mask h. h;
  intr_enable = λ dir mask h. h;
  intr_disable = λ dir mask h. h;
  reset = λ h. h;
  reset_is_done = λ h. (true, h);
  enable_interrupt = λ dir polling h. h;
  wait_for_interrupt = λ dir h. (some 1, h);
  local_addr = λ dir space h. some 0x100;
  allocate_ring = λ dir n h. (7, h);
  map_memory_block = λ block. pure true;
  ring_phys_addr = λ block h. some 0x1000;
  ring_virt_addr = λ block h. some 0x1000;
  has_path = λ dir space h. true;
  connect_loopback = pure true;
}

abbrev idle : Bool → Dma (List ℕ)
idle has_sg = record {
  hw = [];
  locked = false;
  config_done = true;
  has_sg = has_sg;
  micro_dma_mode = false;
  addr_width = 32;
  reg_base = 0x4000;
  polling = false;
  delay = 0;
  write_coalesce = 1;
  read_coalesce = 2;
  read_msg_size = 4;
  actual_ring_bd_size = 8;
  requested_ring_memory = 0x400;
  sg_ring_tx = none;
  sg_ring_rx = none;
  write_errcnt = 32;
  read_errcnt = 32;
}

test_read :
    read (log 0x1000) 5 8 (idle true)
    ≡ returned true (record (idle true) { hw = 0x104 ∷ 0x100 ∷ [] })
unfolding read ◌>>=◌
test_read = refl

test_memcpy :
    memcpy (log 0x1000) 9 3 4 8 (idle true)
    ≡ returned true (record (idle true) { hw = 0x100 ∷ 0x104 ∷ 0x100 ∷ [] })
unfolding memcpy ◌>>=◌
test_memcpy = refl

transfer-releases_example :
    Ensures (λ _. Free) FailsFree (write (log 0) 5 4 (idle true))
    × Ensures (λ _. Free) FailsFree (read (log 0) 5 4 (idle true))
transfer-releases_example = transfer-releases (log 0) 5 4 (idle true) refl

-- All programmed messages of 4 bytes lie between 0x100 and 0x108.
abbrev Inside : List ℕ → Type 0
Inside = All (λ addr. (0x100 ≤ addr) × (addr + 4 ≤ 0x108))

log_keeps : KeepsInside (log 0) Inside 0x100 0x108 4
log_keeps = record {
  set_addr = λ bd addr h low high inside. ((low, high), inside);
  set_length = λ bd max h inside. inside;
  set_ctrl = λ bd ctrl h inside. inside;
  set_id = λ bd id h inside. inside;
  alloc = λ n h inside. inside;
  to_hw = λ n bd h inside. inside;
}

read_scatter_gather-inside_example :
    Ensures
      (λ _ after. Inside after.hw)
      (λ _ after. Inside after.hw)
      (read_scatter_gather (log 0) 0x100 8 (idle true))
read_scatter_gather-inside_example =
    read_scatter_gather-inside (log 0) Inside 0x100 8 (idle true) log_keeps (omega arith)
      (omega arith) tt

abbrev sizes : ℕ → ℕ → List ℕ → ℕ
sizes bd max h = bd

collect-bytes_example :
    Ensures
      (CountsFirst (log 0) s2mm sizes 2 0x40 (idle true))
      (OnlyRuntime (log 0) s2mm sizes)
      (collect (log 0) s2mm sizes 1 2 (some 0x40) (idle true))
collect-bytes_example = collect-bytes (log 0) s2mm sizes 2 0x40 1 (idle true)

-- A card without a mapped block, and an IOMMU without a state.
abbrev no_iommu : Driver (Unit {0})
no_iommu = record {
  is_iommu_enabled = λ h. false;
  memory_map = λ base iova len h. (0, h);
  memory_unmap = λ iova size h. h;
  get_translation_from_process = λ space h. none;
  get_translation = λ from to h. none;
  create_mapping = λ src dest size from to h. h;
}

abbrev bare_card : Card (Unit {0}) (Unit {0})
bare_card = record {
  hw = tt;
  addr_space_id_device_to_host = 0;
  ips = [];
  memory_blocks_mapped = [];
}

abbrev card_end : DmaEnd (List ℕ) (Unit {0}) (Unit {0})
card_end = record {
  free_cyclic_bd = λ dir h. h;
  driver = no_iommu;
  card = λ h. bare_card;
  with_card = λ card h. h;
  block = λ n. record { addr_space_id = n; size = 0x400 };
}

test_destroy_free :
    destroy_dma (log 0) card_end (idle true) ≡ returned tt (record (idle true) { locked = true })
unfolding destroy_dma reset await_reset lock ◌>>=◌
test_destroy_free = refl

-- A ring whose block the card has not mapped
test_destroy_unmapped :
    destroy_dma (log 0) card_end (record (idle true) { sg_ring_tx = some 7 })
    ≡ threw plain_exception (record (idle true) { sg_ring_tx = some 7 })
unfolding destroy_dma reset await_reset lock focus unmap_memory_block ◌>>=◌
test_destroy_unmapped = refl

destroy_dma-lock_example :
    (Free (idle true)
      → Ensures
          (λ _ _. Unit {0})
          (λ e s. (e ≢ none) × Free s)
          (destroy_dma (log 0) card_end (idle true)))
    × (Held (idle true) → Ensures (λ _ _. ⊥) (λ _. Held) (destroy_dma (log 0) card_end (idle true)))
destroy_dma-lock_example = destroy_dma-lock (log 0) card_end (idle true) refl

-- All parameters are missing but the width of the addresses.
abbrev only_width : Parameter → Parameters
only_width width = record {
  c_sg_include_stscntrl_strm = missing;
  c_include_mm2s = missing;
  c_include_mm2s_dre = missing;
  c_m_axi_mm2s_data_width = missing;
  c_include_s2mm = missing;
  c_include_s2mm_dre = missing;
  c_m_axi_s2mm_data_width = missing;
  c_include_sg = missing;
  c_num_mm2s_channels = missing;
  c_num_s2mm_channels = missing;
  c_micro_dma = missing;
  c_addr_width = width;
  c_sg_length_width = missing;
}

test_parse :
    (c : DmaConfig)
    → dma_parse (pure tt) true (some (only_width (number (pos 64)))) c
      ≡ returned tt (record (default_config true c) { addr_width = pos 64; config_done = true })
unfolding dma_parse default_config pure modify ◌>>=◌
test_parse c = refl

test_parse_refused :
    (c : DmaConfig)
    → dma_parse (pure tt) true (some (only_width something_else)) c
      ≡ threw config_error (default_config true c)
unfolding dma_parse default_config pure modify throw ◌>>=◌
test_parse_refused c = refl
