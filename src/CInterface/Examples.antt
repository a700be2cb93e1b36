-- ===== src/CInterface/Examples.antt =====
-- Tests of lib/dma.cpp, and its theorem, on a card that has every core.
use fpga.Prelude.{
  ℕ, true, false, none, some, ◌≡◌, refl, pos, negsuc, codes, returned, threw, pure, throw, ◌>>=◌,
  stoi, Text-discrete, runtime_error, config_error,
}
use fpga.Crossbar.{Crossbar}
use fpga.CInterface.{
  Handle, DmaMethods, villasfpga_init, villasfpga_read, villasfpga_write, villasfpga_write_complete,
}

abbrev full_card : Crossbar ℕ
full_card = record {
  has = λ device h. true;
  connect_loopback = λ h. returned true h;
  connect = λ src dest h. returned true h;
}

abbrev methods : DmaMethods ℕ
methods = record {
  setup_fpga_card = λ file. pure tt;
  dump_aurora = λ device. pure tt;
  allocate_block = λ size. pure 1;
  make_accesible_from_va = λ block. pure true;
  dma_read = λ block size. pure true;
  dma_write = λ block size. throw runtime_error;
  dma_read_complete = pure 64;
  dma_write_complete = throw config_error;
}

abbrev with_controller : Handle
with_controller = record { has_dma = true }

test_read :
    villasfpga_read full_card methods with_controller (record { block = 1 }) 64 0
    ≡ returned (pos 0, none) 0
unfolding villasfpga_read ◌>>=◌
test_read = refl

test_write :
    villasfpga_write full_card methods with_controller (record { block = 1 }) 64 0
    ≡ returned (negsuc 0, none) 0
unfolding villasfpga_write ◌>>=◌
test_write = refl

-- A ConfigError is no RuntimeError.
test_write_complete :
    villasfpga_write_complete full_card methods with_controller 0 ≡ threw config_error 0
unfolding villasfpga_write_complete ◌>>=◌
test_write_complete = refl

test_init :
    villasfpga_init full_card methods (some (codes "fpgas.json")) 0
    ≡ returned (some (record { has_dma = false })) 0
unfolding villasfpga_init ◌>>=◌ stoi Text-discrete
test_init = refl
