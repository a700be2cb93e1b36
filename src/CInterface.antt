-- ===== src/CInterface.antt =====
-- lib/dma.cpp: the C interface. setupFpgaCard, the allocator and the methods of the DMA controller are
-- parameters; the crossbar is configured as in `Crossbar`.
pub mod Handles
mod Examples
use fpga.Prelude.{
  ℕ, Bool, true, false, List, [], ◌∷◌, Option, none, some, if◌then◌else◌, ℤ, pos, negsuc, Text,
  codes, M, Error, Outcome, returned, threw, stuck, pure, hang, modify, gets, run, ◌>>=◌, ◌>>◌,
  runtime_error,
}
use fpga.Crossbar.{
  ConnectString, unparsed, parse_string, Device, Crossbar, get_aurora_channels, config_cross_bar,
}

-- villasfpga_handle_t: whether its `dma` is other than a null pointer; the card is in the state.
pub record Handle : Type 0 where
  pub has_dma : Bool

-- villasfpga_memory_t: its block
pub record Memory : Type 0 where
  pub block : ℕ

-- What the interface calls. The completions answer their bytes.
pub record DmaMethods (H : Type 0) : Type 0 where
  pub setup_fpga_card : Text → M H (Unit {0})
  pub dump_aurora : Device → M H (Unit {0})
  pub allocate_block : ℕ → M H ℕ
  pub make_accesible_from_va : ℕ → M H Bool
  pub dma_read : ℕ → ℕ → M H Bool
  pub dma_write : ℕ → ℕ → M H Bool
  pub dma_read_complete : M H ℕ
  pub dma_write_complete : M H ℕ

module _ {H : Type 0} where
  -- `catch (const RuntimeError &e) { return -1; }`
  unfoldable pub or_minus_one : {A : Type 0} → M H (ℤ × Option A) → M H (ℤ × Option A)
  or_minus_one m h = elim (m h) [
    | returned a h' ↦ returned a h'
    | threw e h' ↦ elim e [ runtime_error ↦ returned (negsuc 0, none) h' | other ↦ threw other h' ]
    | stuck h' ↦ stuck h'
  ]

  -- The three handlers of villasfpga_init, which answer a null pointer.
  unfoldable pub or_null : {A : Type 0} → M H (Option A) → M H (Option A)
  or_null m h = elim (m h) [
    | returned a h' ↦ returned a h'
    | threw e h' ↦ returned none h'
    | stuck h' ↦ stuck h'
  ]

  -- `handle->dma->...`
  unfoldable pub with_dma : {A : Type 0} → Handle → M H A → M H A
  with_dma handle m = if handle.has_dma then m else hang

  -- The constructor of ConnectString, with the limit that it is given by default.
  unfoldable pub parsed_connect_string : Text → M H ConnectString
  unfolding parse_string
  parsed_connect_string text h = elim (parse_string text (unparsed 7)) [
    | returned _ cs ↦ returned cs h
    | threw e cs ↦ threw e h
    | stuck cs ↦ stuck h
  ]

module _ {H : Type 0} (card : Crossbar H) (methods : DmaMethods H) where
  unfoldable pub dump_all : List Device → M H (Unit {0})
  dump_all [] = pure tt
  dump_all (aurora ∷ channels) = do methods.dump_aurora aurora; dump_all channels

  -- The block of villasfpga_init that is tried, for a file.
  unfoldable pub set_up : Text → M H (Option Handle)
  unfolding get_aurora_channels config_cross_bar dump_all parsed_connect_string
  set_up config_file = do
    methods.setup_fpga_card config_file
    channels ← get_aurora_channels card
    dump_all channels
    connect_string ← parsed_connect_string (codes "3<->pipe")
    config_cross_bar card connect_string
    pure (some (record { has_dma = false }))

  -- villasfpga_init; `none` is a null pointer.
  unfoldable pub villasfpga_init : Option Text → M H (Option Handle)
  unfolding set_up or_null
  villasfpga_init none = pure none
  villasfpga_init (some []) = pure none
  villasfpga_init (some (c ∷ config_file)) = or_null (set_up (c ∷ config_file))

  -- villasfpga_register
  unfoldable pub villasfpga_register : Handle → Memory → M H (ℤ × Option ℕ)
  unfolding or_minus_one with_dma
  villasfpga_register handle mem =
      or_minus_one
        (do _ ← with_dma handle (methods.make_accesible_from_va mem.block); pure (pos 0, none))

  -- villasfpga_alloc, with the memory that it makes
  unfoldable pub villasfpga_alloc : Handle → ℕ → M H (ℤ × Option Memory)
  unfolding villasfpga_register or_minus_one
  villasfpga_alloc handle size = or_minus_one (do
    block ← methods.allocate_block size
    code ← villasfpga_register handle (record { block = block })
    pure (code.0, some (record { block = block })))

  -- villasfpga_read
  unfoldable pub villasfpga_read : Handle → Memory → ℕ → M H (ℤ × Option ℕ)
  unfolding or_minus_one with_dma
  villasfpga_read handle mem size = or_minus_one (do
    done ← with_dma handle (methods.dma_read mem.block size)
    pure (if done then (pos 0, none) else (negsuc 0, none)))

  -- villasfpga_write
  unfoldable pub villasfpga_write : Handle → Memory → ℕ → M H (ℤ × Option ℕ)
  unfolding or_minus_one with_dma
  villasfpga_write handle mem size = or_minus_one (do
    done ← with_dma handle (methods.dma_write mem.block size)
    pure (if done then (pos 0, none) else (negsuc 0, none)))

  -- villasfpga_read_complete, with the size that it stores
  unfoldable pub villasfpga_read_complete : Handle → M H (ℤ × Option ℕ)
  unfolding or_minus_one with_dma
  villasfpga_read_complete handle =
      or_minus_one (do bytes ← with_dma handle methods.dma_read_complete; pure (pos 0, some bytes))

  -- villasfpga_write_complete, with the size that it stores
  unfoldable pub villasfpga_write_complete : Handle → M H (ℤ × Option ℕ)
  unfolding or_minus_one with_dma
  villasfpga_write_complete handle =
      or_minus_one (do bytes ← with_dma handle methods.dma_write_complete; pure (pos 0, some bytes))
