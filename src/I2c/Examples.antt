-- ===== src/I2c/Examples.antt =====
-- Tests of lib/ips/i2c.cpp, and its theorems at a bus with one device, which answers 5.
use fpga.Prelude.{ℕ, true, false, List, [], ◌∷◌, ◌++◌, some, ◌≡◌, refl, Ensures, returned, ◌>>=◌}
use fpga.I2c.{I2c, XiicDriver, success}
use fpga.I2c.Access.{write, read}
use fpga.I2c.Locks.{Free, FailsHeld, transfer-lock}

-- A bus that is the list of the bytes sent, and whose every wait brings one interrupt of each kind.
abbrev bus : XiicDriver (List ℕ)
bus = record {
  cfg_initialize = λ h. (true, h);
  set_address = λ address h. (true, h);
  start = λ h. (true, h);
  stop = λ h. (true, h);
  reset = λ h. h;
  master_send = λ bytes h. (success, bytes ++ h);
  master_recv = λ n h. (success, h);
  received = λ i h. 5;
  interrupt_handler = λ h. ((1, 1), h);
  read_iisr = λ h. (0, h);
  read_iier = λ h. (0, h);
  write_iisr = λ value h. h;
  write_iier = λ value h. h;
  clear_tx_errors = λ h. h;
  tx_errors = λ h. 0;
  enable_interrupt = λ h. h;
  disable_interrupt = λ h. h;
  wait_for_interrupt = λ h. (some 1, h);
}

abbrev ready : I2c (List ℕ)
ready = record {
  hw = [];
  locked = false;
  config_done = true;
  init_done = true;
  transmit_intrs = 0;
  receive_intrs = 0;
  switch_made = true;
  switch_address = 0x70;
  channel = 3;
  read_once = true;
  switch_locked = false;
}

test_write :
    write bus 0x20 (1 ∷ 2 ∷ []) ready
    ≡ returned true (record ready { hw = 1 ∷ 2 ∷ []; transmit_intrs = 1; receive_intrs = 1 })
unfolding write ◌>>=◌
test_write = refl

transfer-lock_example :
    Ensures (λ ok after. (ok ≡ true) × Free after) FailsHeld (write bus 0x20 (7 ∷ []) ready)
    × Ensures
        (λ answer after. (answer.0 ≡ false) × Free after)
        FailsHeld
        (read bus 0x20 (7 ∷ []) 1 ready)
transfer-lock_example = transfer-lock bus 0x20 1 (7 ∷ []) ready refl refl
