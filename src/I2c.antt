-- ===== src/I2c.antt =====
-- lib/ips/i2c.cpp and include/villas/fpga/ips/i2c.hpp: the I2C controller and the bus switch behind
-- it. The Xilinx driver (xilinx/xiic.h) and the interrupt controller are parameters, which act on a
-- hardware state `H`.
pub mod Driver
pub mod Access
pub mod BusSwitch
pub mod Keeps
pub mod Locks
pub mod Readback
mod Examples
use fpga.Prelude.{ℕ, Bool, Option, List}

-- What XIic_MasterSend and XIic_MasterRecv answer: XST_SUCCESS, XST_IIC_BUS_BUSY, or another code.
pub data Status : Type 0 where
  success bus_busy failure : Status

pub record XiicDriver (H : Type 0) : Type 0 where
  -- XIic_CfgInitialize, XIic_SetAddress, XIic_Start, XIic_Stop: whether they succeed
  pub cfg_initialize : H → Bool × H
  pub set_address : ℕ → H → Bool × H
  pub start : H → Bool × H
  pub stop : H → Bool × H
  pub reset : H → H
  pub master_send : List ℕ → H → Status × H
  pub master_recv : ℕ → H → Status × H
  -- the byte that the driver has stored at an index of the buffer it was given
  pub received : ℕ → H → ℕ
  -- XIic_InterruptHandler: how often it calls SendHandler and ReceiveHandler
  pub interrupt_handler : H → (ℕ × ℕ) × H
  pub read_iisr : H → ℕ × H
  pub read_iier : H → ℕ × H
  pub write_iisr : ℕ → H → H
  pub write_iier : ℕ → H → H
  -- xIic.Stats.TxErrors
  pub clear_tx_errors : H → H
  pub tx_errors : H → ℕ
  -- InterruptController; `none` is -1
  pub enable_interrupt : H → H
  pub disable_interrupt : H → H
  pub wait_for_interrupt : H → Option ℕ × H

-- The class's members, with those of its I2c::Switch, which `getSwitch` makes on its first call.
pub record I2c (H : Type 0) : Type 0 where
  pub hw : H
  pub locked : Bool
  pub config_done : Bool
  pub init_done : Bool
  pub transmit_intrs : ℕ
  pub receive_intrs : ℕ
  pub switch_made : Bool
  pub switch_address : ℕ
  pub channel : ℕ
  pub read_once : Bool
  pub switch_locked : Bool

-- I2C_SWTICH_ADDR, I2C_IOEXT_ADDR, I2C_IOEXT_REG_DIR, I2C_IOEXT_REG_OUT
abbrev pub switch_addr : ℕ
switch_addr = 0x70

abbrev pub ioext_addr : ℕ
ioext_addr = 0x20

abbrev pub ioext_reg_dir : ℕ
ioext_reg_dir = 0x03

abbrev pub ioext_reg_out : ℕ
ioext_reg_out = 0x01

-- XIIC_INTR_BNB_MASK of xilinx/xiic_l.h
abbrev pub bnb_mask : ℕ
bnb_mask = 0x10
