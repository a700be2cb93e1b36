-- ===== src/Dma/Config.antt =====
-- lib/ips/dma.cpp: DmaFactory::parse and the destructor. The JSON library, NodeFactory::parse and free
-- are parameters.
use fpga.Prelude.{
  ℕ, Bool, true, Option, none, some, ℤ, pos, if◌then◌else◌, M, pure, throw, modify, focus,
  config_error, ◌>>=◌, ◌>>◌,
}
use fpga.Card.{Card, Driver, MemoryBlock, unmap_memory_block}
use fpga.Dma.{Dma, DmaDriver, Direction, mm2s, s2mm}
use fpga.Dma.Calls.{act, look, field, on_hw}
use fpga.Dma.Transfer.{reset}

-- A key of the configuration's parameters: it is missing, an int, or something else.
pub data Parameter : Type 0 where
  missing : Parameter
  number : ℤ → Parameter
  something_else : Parameter

-- XAxiDma_Config, as far as parse writes it, with `polling` and `config_done` of the controller.
pub record DmaConfig : Type 0 where
  pub polling : Bool
  pub config_done : Bool
  pub has_sts_cntrl_strm : ℤ
  pub has_mm2s : ℤ
  pub has_mm2s_dre : ℤ
  pub mm2s_data_width : ℤ
  pub has_s2mm : ℤ
  pub has_s2mm_dre : ℤ
  pub has_sg : ℤ
  pub s2mm_data_width : ℤ
  pub mm2s_num_channels : ℤ
  pub s2mm_num_channels : ℤ
  pub mm2s_burst_size : ℤ
  pub s2mm_burst_size : ℤ
  pub micro_dma_mode : ℤ
  pub addr_width : ℤ
  pub sg_length_width : ℤ

-- The keys of the object "parameters".
pub record Parameters : Type 0 where
  pub c_sg_include_stscntrl_strm : Parameter
  pub c_include_mm2s : Parameter
  pub c_include_mm2s_dre : Parameter
  pub c_m_axi_mm2s_data_width : Parameter
  pub c_include_s2mm : Parameter
  pub c_include_s2mm_dre : Parameter
  pub c_m_axi_s2mm_data_width : Parameter
  pub c_include_sg : Parameter
  pub c_num_mm2s_channels : Parameter
  pub c_num_s2mm_channels : Parameter
  pub c_micro_dma : Parameter
  pub c_addr_width : Parameter
  pub c_sg_length_width : Parameter

-- `s?: i`: a value is stored as it is found.
unfoldable pub unpack : Parameter → (ℤ → DmaConfig → DmaConfig) → M DmaConfig (Unit {0})
unpack missing store = pure tt
unpack (number n) store = modify (store n)
unpack something_else store = throw config_error

unfoldable pub default_config : Bool → DmaConfig → DmaConfig
default_config card_polling s = record s {
  polling = card_polling;
  has_sts_cntrl_strm = pos 0;
  has_mm2s = pos 1;
  has_mm2s_dre = pos 0;
  mm2s_data_width = pos 32;
  has_s2mm = pos 1;
  has_s2mm_dre = pos 0;
  has_sg = pos 1;
  s2mm_data_width = pos 32;
  mm2s_num_channels = pos 1;
  s2mm_num_channels = pos 1;
  mm2s_burst_size = pos 16;
  s2mm_burst_size = pos 16;
  micro_dma_mode = pos 0;
  addr_width = pos 32;
  sg_length_width = pos 14;
}

-- json_unpack_ex, for an object "parameters"
unfoldable pub unpack_parameters : Parameters → M DmaConfig (Unit {0})
unfolding unpack
unpack_parameters p = do
  unpack p.c_sg_include_stscntrl_strm (λ n s. record s { has_sts_cntrl_strm = n })
  unpack p.c_include_mm2s (λ n s. record s { has_mm2s = n })
  unpack p.c_include_mm2s_dre (λ n s. record s { has_mm2s_dre = n })
  unpack p.c_m_axi_mm2s_data_width (λ n s. record s { mm2s_data_width = n })
  unpack p.c_include_s2mm (λ n s. record s { has_s2mm = n })
  unpack p.c_include_s2mm_dre (λ n s. record s { has_s2mm_dre = n })
  unpack p.c_m_axi_s2mm_data_width (λ n s. record s { s2mm_data_width = n })
  unpack p.c_include_sg (λ n s. record s { has_sg = n })
  unpack p.c_num_mm2s_channels (λ n s. record s { mm2s_num_channels = n })
  unpack p.c_num_s2mm_channels (λ n s. record s { s2mm_num_channels = n })
  unpack p.c_micro_dma (λ n s. record s { micro_dma_mode = n })
  unpack p.c_addr_width (λ n s. record s { addr_width = n })
  unpack p.c_sg_length_width (λ n s. record s { sg_length_width = n })

-- DmaFactory::parse; `none` is a configuration without an object "parameters".
unfoldable pub dma_parse :
    M DmaConfig (Unit {0}) → Bool → Option Parameters → M DmaConfig (Unit {0})
unfolding default_config unpack_parameters
dma_parse node_parse card_polling parameters = do
  node_parse
  modify (default_config card_polling)
  elim parameters [ none ↦ throw config_error | some p ↦ unpack_parameters p ]
  modify (λ s. record s { config_done = true })

-- What the destructor calls: the release of a ring's CyclicBd, and the card's unmapMemoryBlock on the blocks
-- of the rings.
pub record DmaEnd (H C I : Type 0) : Type 0 where
  pub free_cyclic_bd : Direction → H → H
  pub driver : Driver C
  pub card : H → Card C I
  pub with_card : Card C I → H → H
  pub block : ℕ → MemoryBlock

module _ {H C I : Type 0} (drv : DmaDriver H) (end : DmaEnd H C I) where
  unfoldable pub free_ring : Direction → M (Dma H) (Unit {0})
  unfolding act look
  free_ring dir = do
    there ← look (drv.has_ring dir)
    if there then act (end.free_cyclic_bd dir) else pure tt

  unfoldable pub unmap_ring : Option ℕ → M (Dma H) (Unit {0})
  unfolding on_hw
  unmap_ring none = pure tt
  unmap_ring (some block) = do
    _ ← on_hw (focus end.card end.with_card (unmap_memory_block end.driver (end.block block)))
    pure tt

  unfoldable pub release_rings : M (Dma H) (Unit {0})
  unfolding field free_ring unmap_ring
  release_rings = do
    free_ring mm2s
    free_ring s2mm
    tx ← field (λ dma. dma.sg_ring_tx)
    unmap_ring tx
    rx ← field (λ dma. dma.sg_ring_rx)
    unmap_ring rx

  -- Dma::~Dma
  unfoldable pub destroy_dma : M (Dma H) (Unit {0})
  unfolding field release_rings
  destroy_dma = do
    scatter_gather ← field (λ dma. dma.has_sg)
    if scatter_gather then release_rings else pure tt
    _ ← reset drv
    pure tt
