-- ===== src/Ips/Examples.antt =====
-- Tests of the smaller IPs, and their theorems at concrete hardware.
use fpga.Prelude.{
  ◌+◌, ◌*◌, ◌↔◌, ℕ, zero, suc, ◌^◌, ◌==◌, ◌≤◌, ltb, true, false, pos, List, [], ◌∷◌, some, none,
  if◌then◌else◌, ◌≡◌, refl, length, Ensures, returned, final, modify, ◌>>=◌, arith,
}
use fpga.Ips.Intc.{IntcDriver, Intc, has_bit, enable_interrupt, wait_for_interrupt}
use fpga.Ips.Interrupts.{read_status, shows_at, wait_for_interrupt-enabled}
use fpga.Ips.Emc.{FlashDriver, FlashLaws, Stores, flash, flash-Stores}
use fpga.Ips.Fifo.{FifoDriver, FifoLaws, read, waited, done_at, read-inside}
use fpga.Ips.Hls.{HlsRegisters}
use fpga.Ips.RtdsGpu.{
  Frames, status_of, gpu2rtds_get_max_frame_size, doorbell_offset, doorbell_place,
  doorbell_offset-doorbell_place,
}
use fpga.Ips.RtdsGpu.{Platform as FramesPlatform}
use fpga.Ips.Aurora.{AuroraRegisters, set_loopback, reset_frame_counters, bram_parse, Bram}
use fpga.Ips.Frames.{gpu2rtds_get_max_frame_size-returns}

-- The first `n` bytes of a list, with zeros behind it.
abbrev padded : ℕ → List ℕ → List ℕ
padded zero bytes = []
padded (suc n) [] = 0 ∷ padded n []
padded (suc n) (b ∷ bytes) = b ∷ padded n bytes

length-padded : (n : ℕ) (bytes : List ℕ) → length (padded n bytes) ≡ n
length-padded zero bytes = refl
length-padded (suc n) [] = omega (arith, length-padded n [])
length-padded (suc n) (b ∷ bytes) = omega (arith, length-padded n bytes)

-- A controller whose status register shows all interrupts at its third read. The hardware is the
-- number of reads of that register.
abbrev third_read : IntcDriver ℕ
third_read = record {
  in32 = λ offset h. if offset == 0 then (if ltb h 2 then 0 else 0xFFFF_FFFF, suc h) else (0, h);
  out32 = λ offset value h. h;
  pci_msi_init = λ h. (pos 8, h);
  pci_msi_find = λ h. (true, h);
  pci_msi_deinit = λ h. (pos 8, h);
  set_irq_affinity = λ i h. (pos 0, h);
  select = λ i h. (pos 1, h);
  read_count = λ i h. (some 1, h);
}

abbrev controller : Intc ℕ
controller = record { hw = 0; num_irqs = pos 8; polling = λ i. false }

test_shows :
    shows_at third_read 1 5 (final (enable_interrupt third_read (2 ^ 5) true controller)).hw ≡ true
unfolding enable_interrupt read_status ◌>>=◌ has_bit
test_shows = refl

wait_for_interrupt-enabled_example :
    Ensures
      (λ count s'. count ≡ pos 1)
      (λ e s. ⊥)
      ((enable_interrupt third_read (2 ^ 5) true >>= λ _. wait_for_interrupt third_read 4 5)
        controller)
wait_for_interrupt-enabled_example =
    wait_for_interrupt-enabled third_read 1 4 5 controller (omega arith) (omega arith) test_shows

-- A flash memory that keeps what is written to its start.
abbrev kept : FlashDriver (List ℕ)
kept = record {
  initialize = λ base h. (true, h);
  is_ready = λ h. true;
  reset = λ h. (true, h);
  is_intel = λ h. true;
  unlock = λ offset n h. (true, h);
  erase = λ offset n h. (true, []);
  write = λ offset bytes h. (true, bytes);
  read = λ offset n h. ((true, padded n h), h);
}

kept-laws : FlashLaws kept
kept-laws = record {
  stored = λ offset n h. padded n h;
  read-stored = λ offset n h e. refl;
  stored-length = λ offset n h. length-padded n h;
}

flash-Stores_example :
    Ensures
      (λ b h. b ≡ true → Stores kept kept-laws 64 (1 ∷ 2 ∷ 3 ∷ []) h)
      (λ e h. ⊥)
      (flash kept 64 (1 ∷ 2 ∷ 3 ∷ []) (9 ∷ []))
flash-Stores_example = (flash-Stores kept kept-laws 64 (1 ∷ 2 ∷ 3 ∷ [])).at (9 ∷ []) tt

test_flash : flash kept 64 (1 ∷ 2 ∷ 3 ∷ []) (9 ∷ []) ≡ returned true (1 ∷ 2 ∷ 3 ∷ [])
unfolding flash ◌>>=◌
test_flash = refl

-- A FIFO that has a frame of 12 bytes at the second test. The hardware is the number of tests.
abbrev frame_of_12 : FifoDriver ℕ
frame_of_12 = record {
  axi4_address = λ h. true;
  has_irq = λ h. true;
  cfg_initialize = λ b h. (true, h);
  int_enable = λ h. h;
  int_disable = λ h. h;
  int_clear = λ h. h;
  enable_interrupt = λ b h. h;
  disable_interrupt = λ h. h;
  wait_for_interrupt = λ h. h;
  tx_vacancy = λ h. (16, h);
  fifo_write = λ bytes h. h;
  tx_set_len = λ n h. h;
  is_rx_done = λ h. (ltb 0 h, suc h);
  rx_get_len = λ h. (12, h);
  fifo_read = λ n h. (padded n [], h);
}

frame_of_12-laws : FifoLaws frame_of_12
frame_of_12-laws = record { read-length = λ n h. length-padded n [] }

test_done : done_at frame_of_12 1 0 ≡ true
unfolding waited
test_done = refl

read-inside_example :
    Ensures (λ r _. (length r.1 ≡ r.0) × (r.0 ≤ 8)) (λ e h. ⊥) (read frame_of_12 3 8 0)
read-inside_example = read-inside frame_of_12 frame_of_12-laws 1 3 8 0 (omega arith) test_done

test_read : read frame_of_12 3 4 0 ≡ returned (4, 0 ∷ 0 ∷ 0 ∷ 0 ∷ []) 2
unfolding read ◌>>=◌
test_read = refl

-- Registers of a core whose idle bit shows at the second read.
abbrev second_read : HlsRegisters ℕ
second_read = record {
  set_ap_start = λ b h. 0;
  set_auto_restart = λ b h. h;
  set_global_interrupt = λ b h. h;
  set_ready_interrupt = λ b h. h;
  set_done_interrupt = λ b h. h;
  get_ap_idle = λ h. (ltb 0 h, suc h);
  get_ap_ready = λ h. (false, h);
  get_ap_done = λ h. (false, h);
  get_auto_restart = λ h. (false, h);
}

-- A platform whose status is valid at the third read, and shows the maximum frame size 16.
abbrev valid_third : FramesPlatform ℕ
valid_third = record {
  set_baseaddr = λ addr h. h;
  set_doorbell_offset = λ off h. h;
  set_data_offset = λ off h. h;
  set_frame_size = λ n h. h;
  status_vld = λ h. (ltb 3 h, suc h);
  read_status = λ h. (16 * 2 ^ 22, h);
  memset_zero = λ addr n h. h;
  translation_from_ip = λ space h. some 0;
  translation_from_process = λ space h. some 0;
}

abbrev no_frame : Frames ℕ
no_frame = record {
  hls = record { hw = 5; running = false };
  status = 0;
  max_frame_size = 0;
  started = false;
}

gpu2rtds_get_max_frame_size-returns_example :
    gpu2rtds_get_max_frame_size second_read valid_third 3 no_frame
    ≡ returned 16 (record no_frame { hls = record { hw = 5; running = false } })
unfolding status_of
gpu2rtds_get_max_frame_size-returns_example =
    gpu2rtds_get_max_frame_size-returns second_read valid_third 1 2 3 no_frame (omega arith)
      (omega arith) (refl, refl) (refl, (refl, refl))

doorbell_offset-doorbell_place_example :
    (doorbell_offset 16 (4 * 1) ≡ doorbell_place 16 (4 * 1)) ↔ (◌≡◌ {A = ℕ} 16 1)
doorbell_offset-doorbell_place_example =
    doorbell_offset-doorbell_place 16 1 (omega arith) (omega arith) (omega arith)

-- Registers of which the core has the control register only.
abbrev control : AuroraRegisters ℕ
control = record { read_memory = λ offset cr. (cr, cr); write_memory = λ offset v cr. v }

test_loopback :
    (set_loopback control true >>= λ _.
    reset_frame_counters control >>= λ _. set_loopback control false)
      4
    ≡ returned tt 6
unfolding set_loopback reset_frame_counters ◌>>=◌
test_loopback = refl

test_loopback_on : set_loopback control true 5 ≡ returned tt 5
unfolding set_loopback ◌>>=◌
test_loopback_on = refl

-- A block RAM of some size, whose allocators are numbers.
abbrev bram_of : ℕ → Bram ℕ
bram_of n = record { size = n; allocator = none }

-- What stood in the upper half of the size stays.
test_bram_parse :
    bram_parse (some 4096) (bram_of (2 ^ 32 + 7)) ≡ returned tt (bram_of (2 ^ 32 + 4096))
unfolding bram_parse modify
test_bram_parse = refl
