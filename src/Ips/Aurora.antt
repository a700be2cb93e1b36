-- ===== src/Ips/Aurora.antt =====
-- lib/ips/aurora.cpp, the control register of the Aurora core, and lib/ips/bram.cpp and gpio.cpp. The registers,
-- the configuration and the linear allocator are parameters.
use fpga.Prelude.{
  ℕ, ◌+◌, ◌-◌, ◌^◌, ◌/◌, ◌*◌, ◌%◌, Bool, true, false, if◌then◌else◌, ◌≡◌, arith, Option, none, some,
  M, pure, throw, run, modify, config_error, ◌>>=◌, ◌>>◌,
}
use fpga.Ips.RtdsGpu.{bit_at}

-- readMemory and writeMemory of the registers, by their offsets
pub record AuroraRegisters (H : Type 0) : Type 0 where
  pub read_memory : ℕ → H → ℕ × H
  pub write_memory : ℕ → ℕ → H → H

-- AURORA_AXIS_CR_OFFSET, and the places of the bits AURORA_AXIS_CR_LOOPBACK and AURORA_AXIS_CR_RST_CTRS
abbrev pub cr_offset : ℕ
cr_offset = 4

abbrev pub cr_loopback : ℕ
cr_loopback = 0

abbrev pub cr_rst_ctrs : ℕ
cr_rst_ctrs = 1

-- `word | (1 << i)` and `word & ~(1 << i)`
unfoldable pub with_bit : ℕ → ℕ → ℕ
with_bit i word = if bit_at i word then word else word + 2 ^ i

unfoldable pub without_bit : ℕ → ℕ → ℕ
without_bit i word = if bit_at i word then word - 2 ^ i else word

module _ {H : Type 0} (registers : AuroraRegisters H) where
  -- Aurora::setLoopback
  unfoldable pub set_loopback : Bool → M H (Unit {0})
  unfolding with_bit without_bit
  set_loopback state = do
    cr ← run (registers.read_memory cr_offset)
    modify (
        registers.write_memory cr_offset
          (if state then with_bit cr_loopback cr else without_bit cr_loopback cr))

  -- Aurora::resetFrameCounters
  unfoldable pub reset_frame_counters : M H (Unit {0})
  unfolding with_bit
  reset_frame_counters = do
    cr ← run (registers.read_memory cr_offset)
    modify (registers.write_memory cr_offset (with_bit cr_rst_ctrs cr))

-- The loopback bit shows the state that was asked for, and the bits above it are kept.
pub set_loopback_bits :
    (word : ℕ)
    → (bit_at cr_loopback (with_bit cr_loopback word) ≡ true)
      × (bit_at cr_loopback (without_bit cr_loopback word) ≡ false)
      × (with_bit cr_loopback word / 2 ≡ word / 2)
      × (without_bit cr_loopback word / 2 ≡ word / 2)
unfolding with_bit without_bit
set_loopback_bits word = (ground arith, ground arith, ground arith, ground arith)

-- Bram: its size, and its allocator, from the address space of "Mem0"
pub record Bram (L : Type 0) : Type 0 where
  pub size : ℕ
  pub allocator : Option L

-- BramFactory::parse, behind CoreFactory::parse. The configuration has the 32 bits of an int or none; they are
-- stored into the lower half of the size_t.
unfoldable pub bram_parse : {L : Type 0} → Option ℕ → M (Bram L) (Unit {0})
bram_parse none = throw config_error
bram_parse (some n) = modify (λ s. record s { size = s.size / 2 ^ 32 * 2 ^ 32 + n % 2 ^ 32 })

-- Bram::init
unfoldable pub bram_init : {L : Type 0} → (ℕ → ℕ → ℕ → L) → M (Bram L) ℕ → M (Bram L) Bool
bram_init make_linear get_address_space_id = do
  space ← get_address_space_id
  modify (λ s. record s { allocator = some (make_linear space s.size 0) })
  pure true
