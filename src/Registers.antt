-- ===== src/Registers.antt =====
-- lib/ips/register.cpp: the register interface. A float is the 32 bits that the code reinterprets; the
-- bus is a parameter.
pub mod Memory
mod Examples
use fpga.Prelude.{
  ℕ, zero, suc, ◌+◌, ◌*◌, ◌^◌, ◌%◌, Bool, true, false, not, ◌==◌, ltb, if◌then◌else◌, M, pure,
  throw, modify, gets, run, ◌>>=◌, ◌>>◌, out_of_range,
}

-- registerNum
abbrev pub register_num : ℕ
register_num = 8

-- REGISTER_OUT
abbrev pub register_out : ℕ → ℕ
register_out num = 4 * num

-- REGISTER_RESET
abbrev pub register_reset : ℕ
register_reset = 512

-- Xil_In32 and Xil_Out32 at an offset from the base address
pub record Bus (H : Type 0) : Type 0 where
  pub in32 : ℕ → H → ℕ × H
  pub out32 : ℕ → ℕ → H → H

module _ {H : Type 0} (bus : Bus H) where
  -- Register::setRegister, of a number or of the bits of a float
  unfoldable pub set_register : ℕ → ℕ → M H (Unit {0})
  set_register reg value =
      if not (ltb reg register_num)
      then throw out_of_range
      else modify (bus.out32 (register_out reg) value)

  -- Register::getRegister and Register::getRegisterFloat
  unfoldable pub get_register : ℕ → M H ℕ
  get_register reg =
      if not (ltb reg register_num) then throw out_of_range else run (bus.in32 (register_out reg))

  -- Register::resetRegister
  unfoldable pub reset_register : ℕ → M H (Unit {0})
  reset_register reg =
      if not (ltb reg register_num)
      then throw out_of_range
      else modify (bus.out32 register_reset (2 ^ reg))

  -- Register::resetAllRegisters
  unfoldable pub reset_all_registers : M H (Unit {0})
  reset_all_registers = modify (bus.out32 register_reset 0xFFFF_FFFF)

  -- The first loop of check, over `n` registers from `i` on.
  unfoldable pub write_numbers : ℕ → ℕ → M H (Unit {0})
  unfolding set_register
  write_numbers zero i = pure tt
  write_numbers (suc n) i = set_register i i >> write_numbers n (suc i)

  -- The second one: whether all registers have their numbers.
  unfoldable pub compare_numbers : ℕ → ℕ → M H Bool
  unfolding get_register
  compare_numbers zero i = pure true
  compare_numbers (suc n) i = do
    buf ← get_register i
    if buf == i then compare_numbers n (suc i) else pure false

  -- The third one only logs what it reads.
  unfoldable pub read_all : ℕ → ℕ → M H (Unit {0})
  unfolding get_register
  read_all zero i = pure tt
  read_all (suc n) i = do _ ← get_register i; read_all n (suc i)

  -- check behind its comparison, with the bits of its two floats
  unfoldable pub configure : ℕ → ℕ → M H Bool
  unfolding set_register get_register reset_all_registers read_all
  configure scale offset = do
    reset_all_registers
    read_all register_num 0
    set_register 0 100000
    set_register 1 scale
    set_register 2 offset
    _ ← get_register 0
    _ ← get_register 1
    _ ← get_register 2
    pure true

  -- Register::check
  unfoldable pub check : ℕ → ℕ → M H Bool
  unfolding write_numbers compare_numbers configure
  check scale offset = do
    write_numbers 7 1
    same ← compare_numbers 7 1
    if same then configure scale offset else pure false
