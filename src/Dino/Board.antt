-- ===== src/Dino/Board.antt =====
-- lib/ips/dino.cpp: the boards' methods over the I2C controller.
use fpga.Prelude.{ℕ, Bool, true, false, [], ◌∷◌, ◌==◌, M, pure, ◌>>=◌, ◌>>◌}
use fpga.I2c.{I2c, XiicDriver, ioext_addr, ioext_reg_dir, ioext_reg_out}
use fpga.I2c.Driver.{expect}
use fpga.I2c.Access.{write, read_register}
use fpga.I2c.BusSwitch.{get_switch, set_and_lock_channel, unlock_channel, first_byte}
use fpga.Dino.Ports.{IoextPorts, Gain, gain_1, raw, fields, with_gain, gain_of}

-- The members of Dino that its methods read: whether `i2cdev` is set, and the others.
pub record Dino : Type 0 where
  pub has_i2c : Bool
  pub i2c_channel : ℕ
  pub config_done : Bool

abbrev pub no_ports : IoextPorts
no_ports = record {
  clk_dir = false;
  data_dir = false;
  status_led = false;
  n_we = false;
  input_zero = false;
  sat_detect = false;
  gain_lsb = false;
  gain_msb = false;
}

module _ {H : Type 0} (drv : XiicDriver H) (dino : Dino) where
  -- Dino::setIoextDir and Dino::setIoextOut
  unfoldable pub set_ioext_dir : IoextPorts → M (I2c H) (Unit {0})
  unfolding expect raw write
  set_ioext_dir ports = do
    expect dino.has_i2c
    _ ← write drv ioext_addr (ioext_reg_dir ∷ raw ports ∷ [])
    pure tt

  unfoldable pub set_ioext_out : IoextPorts → M (I2c H) (Unit {0})
  unfolding expect raw write
  set_ioext_out ports = do
    expect dino.has_i2c
    _ ← write drv ioext_addr (ioext_reg_out ∷ raw ports ∷ [])
    pure tt

  -- Dino::getIoextDir and Dino::getIoextOut; the result of readRegister is dropped.
  unfoldable pub get_ioext_dir : M (I2c H) IoextPorts
  unfolding expect fields read_register
  get_ioext_dir = do
    expect dino.has_i2c
    answer ← read_register drv ioext_addr ioext_reg_dir [] 1
    pure (fields (first_byte answer.1))

  unfoldable pub get_ioext_out : M (I2c H) IoextPorts
  unfolding expect fields read_register
  get_ioext_out = do
    expect dino.has_i2c
    answer ← read_register drv ioext_addr ioext_reg_out [] 1
    pure (fields (first_byte answer.1))

  -- `i2cdev->getSwitch().setAndLockChannel(i2c_channel)` behind the test of `i2cdev`
  unfoldable pub take_channel : M (I2c H) (Unit {0})
  unfolding expect get_switch set_and_lock_channel
  take_channel = do expect dino.has_i2c; get_switch; set_and_lock_channel drv dino.i2c_channel

  -- `i2cdev->getSwitch().unlockChannel()`
  unfoldable pub release_channel : M (I2c H) (Unit {0})
  unfolding get_switch unlock_channel
  release_channel = get_switch >> unlock_channel

  -- Dino::getIoextDirectionRegister and Dino::getIoextOutputRegister
  unfoldable pub get_ioext_direction_register : M (I2c H) IoextPorts
  unfolding take_channel get_ioext_dir release_channel
  get_ioext_direction_register = do take_channel; ports ← get_ioext_dir; release_channel; pure ports

  unfoldable pub get_ioext_output_register : M (I2c H) IoextPorts
  unfolding take_channel get_ioext_out release_channel
  get_ioext_output_register = do take_channel; ports ← get_ioext_out; release_channel; pure ports

  abbrev pub adc_direction : IoextPorts
  adc_direction = record no_ports { sat_detect = true }

  -- The outputs of the ADC, whose write enable is active low.
  abbrev pub adc_outputs : Bool → IoextPorts
  adc_outputs n_we = record no_ports {
    data_dir = true;
    status_led = true;
    n_we = n_we;
    input_zero = true;
  }

  abbrev pub dac_outputs : IoextPorts
  dac_outputs = record no_ports { status_led = true }

  -- DinoAdc::configureHardware
  unfoldable pub adc_configure_hardware : M (I2c H) (Unit {0})
  unfolding expect raw take_channel release_channel set_ioext_dir set_ioext_out get_ioext_dir
      get_ioext_out
  adc_configure_hardware = do
    expect dino.config_done
    take_channel
    set_ioext_dir adc_direction
    direction ← get_ioext_dir
    expect (raw direction == raw adc_direction)
    set_ioext_out (adc_outputs true)
    set_ioext_out (adc_outputs false)
    outputs ← get_ioext_out
    expect (raw outputs == raw (adc_outputs false))
    release_channel

  -- DinoDac::configureHardware
  unfoldable pub dac_configure_hardware : M (I2c H) (Unit {0})
  unfolding expect raw with_gain take_channel release_channel set_ioext_dir set_ioext_out
      get_ioext_dir get_ioext_out
  dac_configure_hardware = do
    expect dino.config_done
    take_channel
    set_ioext_dir no_ports
    direction ← get_ioext_dir
    expect (raw direction == raw no_ports)
    set_ioext_out (with_gain gain_1 dac_outputs)
    outputs ← get_ioext_out
    expect (raw outputs == raw (with_gain gain_1 dac_outputs))
    release_channel

  -- DinoDac::setGain
  unfoldable pub set_gain : Gain → M (I2c H) (Unit {0})
  unfolding take_channel get_ioext_out with_gain set_ioext_out release_channel
  set_gain gain = do
    take_channel
    ports ← get_ioext_out
    set_ioext_out (with_gain gain ports)
    release_channel

  -- DinoDac::getGain
  unfoldable pub get_gain : M (I2c H) ℕ
  unfolding take_channel get_ioext_out gain_of release_channel
  get_gain = do take_channel; ports ← get_ioext_out; release_channel; pure (gain_of ports)
