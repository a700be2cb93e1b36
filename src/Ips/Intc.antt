-- ===== src/Ips/Intc.antt =====
-- lib/ips/intc.cpp: the interrupt controller. Its registers, the MSI calls of VFIO and the event file
-- descriptors are parameters.
use fpga.Prelude.{
  ℕ, zero, suc, ◌+◌, ◌*◌, ◌/◌, ◌%◌, ◌^◌, bit_and, bit_or, Bool, true, false, not, ◌==◌, ltb, ℤ, pos,
  negsuc, ◌||◌, if◌then◌else◌, M, pure, hang, modify, gets, run, ◌>>=◌, ◌>>◌, not32, Option, none,
  some,
}

-- The registers of XIntc
abbrev pub xin_isr_offset : ℕ
xin_isr_offset = 0x00

abbrev pub xin_ier_offset : ℕ
xin_ier_offset = 0x08

abbrev pub xin_iar_offset : ℕ
xin_iar_offset = 0x0C

abbrev pub xin_mer_offset : ℕ
xin_mer_offset = 0x1C

abbrev pub xin_imr_offset : ℕ
xin_imr_offset = 0x20

abbrev pub xin_ivar_offset : ℕ
xin_ivar_offset = 0x100

-- What a file descriptor answers: select gives the number of ready descriptors or an error, and read
-- the count, where it reads all eight bytes.
pub record IntcDriver (H : Type 0) : Type 0 where
  pub in32 : ℕ → H → ℕ × H
  pub out32 : ℕ → ℕ → H → H
  pub pci_msi_init : H → ℤ × H
  pub pci_msi_find : H → Bool × H
  pub pci_msi_deinit : H → ℤ × H
  pub set_irq_affinity : ℕ → H → ℤ × H
  pub select : ℕ → H → ℤ × H
  pub read_count : ℕ → H → Option ℕ × H

-- InterruptController, with the state of its hardware; `polling` is an array of 32.
pub record Intc (H : Type 0) : Type 0 where
  pub hw : H
  pub num_irqs : ℤ
  pub polling : ℕ → Bool

-- `mask & (1 << i)`
unfoldable pub has_bit : ℕ → ℕ → Bool
has_bit mask zero = mask % 2 == 1
has_bit mask (suc i) = has_bit (mask / 2) i

-- EACCES
abbrev pub eacces : ℕ
eacces = 13

-- The numbers below an int.
abbrev pub below : ℤ → ℕ
below (pos n) = n
below (negsuc n) = 0

-- Whether setIRQAffinity lets init go on.
abbrev pub pinned : ℤ → Bool
pinned (pos n) = n == 0 || n == eacces
pinned (negsuc n) = false

-- The loop of enableInterrupt over the array, from `i` on.
unfoldable pub set_polling : ℕ → ℕ → ℕ → Bool → (ℕ → Bool) → ℕ → Bool
unfolding has_bit
set_polling zero i mask polling array = array
set_polling (suc n) i mask polling array =
    set_polling n (suc i) mask polling
      (if has_bit mask i then (λ j. if i == j then polling else array j) else array)

module _ {H : Type 0} (driver : IntcDriver H) where
  unfoldable pub input : ℕ → M (Intc H) ℕ
  input offset = run (λ s. let r = driver.in32 offset s.hw in (r.0, record s { hw = r.1 }))

  unfoldable pub output : ℕ → ℕ → M (Intc H) (Unit {0})
  output offset value = modify (λ s. record s { hw = driver.out32 offset value s.hw })

  unfoldable pub call : {A : Type 0} → (H → A × H) → M (Intc H) A
  call f = run (λ s. let r = f s.hw in (r.0, record s { hw = r.1 }))

  -- InterruptController::stop
  unfoldable pub stop : M (Intc H) Bool
  unfolding call
  stop = do ret ← call driver.pci_msi_deinit; pure (elim ret [ pos n ↦ ltb 0 n | negsuc n ↦ false ])

  -- The loop of init over the IRQs.
  unfoldable pub setup_vectors : ℕ → ℕ → M (Intc H) Bool
  unfolding call output
  setup_vectors zero i = pure true
  setup_vectors (suc n) i = do
    ret ← call (driver.set_irq_affinity i)
    if pinned ret
        then (output (xin_ivar_offset + i * 4) i >> setup_vectors n (suc i))
        else pure false

  -- The end of init.
  unfoldable pub enable_controller : M (Intc H) Bool
  unfolding output
  enable_controller = do
    output xin_imr_offset 0
    output xin_iar_offset 0xFFFF_FFFF
    output xin_imr_offset 0xFFFF_FFFF
    output xin_ier_offset 0
    output xin_mer_offset 3
    pure true

  unfoldable pub find_and_setup : ℕ → M (Intc H) Bool
  unfolding setup_vectors enable_controller
  find_and_setup n = do
    found ← call driver.pci_msi_find
    if not found
        then pure false
        else (do done ← setup_vectors n 0; if done then enable_controller else pure false)

  -- InterruptController::init
  unfoldable pub init : M (Intc H) Bool
  unfolding find_and_setup
  init = do
    num_irqs ← call driver.pci_msi_init
    modify (λ s. record s { num_irqs = num_irqs })
    elim num_irqs [ negsuc _ ↦ pure false | pos n ↦ find_and_setup n ]

  -- The registers that the mode of some interrupts decides.
  unfoldable pub set_mode : ℕ → Bool → ℕ → ℕ → M (Intc H) (Unit {0})
  unfolding output
  set_mode mask true ier imr =
      output xin_imr_offset (bit_and imr (not32 mask))
      >> output xin_ier_offset (bit_and ier (not32 mask))
  set_mode mask false ier imr =
      output xin_ier_offset (bit_or ier mask) >> output xin_imr_offset (bit_or imr mask)

  -- InterruptController::enableInterrupt
  unfoldable pub enable_interrupt : ℕ → Bool → M (Intc H) Bool
  unfolding set_polling set_mode input
  enable_interrupt mask polling = do
    ier ← input xin_ier_offset
    imr ← input xin_imr_offset
    output xin_iar_offset mask
    modify (λ s. record s { polling = set_polling (below s.num_irqs) 0 mask polling s.polling })
    set_mode mask polling ier imr
    _ ← input xin_ier_offset
    _ ← input xin_imr_offset
    _ ← input xin_isr_offset
    pure true

  -- InterruptController::disableInterrupt
  unfoldable pub disable_interrupt : ℕ → M (Intc H) Bool
  unfolding input output
  disable_interrupt mask = do
    ier ← input xin_ier_offset
    output xin_ier_offset (bit_and ier (not32 mask))
    pure true

  -- The loop of waitForInterrupt that polls; `fuel` bounds its rounds.
  unfoldable pub poll_status : ℕ → ℕ → M (Intc H) (Unit {0})
  unfolding input
  poll_status zero irq = hang
  poll_status (suc fuel) irq = do
    isr ← input xin_isr_offset
    if has_bit isr irq then pure tt else poll_status fuel irq

  -- waitForInterrupt, for an interrupt that is polled
  unfoldable pub wait_polling : ℕ → ℕ → M (Intc H) ℤ
  unfolding poll_status
  wait_polling fuel irq = do poll_status fuel irq; output xin_iar_offset (2 ^ irq); pure (pos 1)

  -- waitForInterrupt, for an interrupt with an event
  unfoldable pub wait_event : ℕ → M (Intc H) ℤ
  unfolding call
  wait_event irq = do
    ready ← call (driver.select irq)
    elim ready [
      | negsuc n ↦ pure (negsuc 0)
      | pos zero ↦ pure (negsuc 0)
      | pos (suc n) ↦ do
        count ← call (driver.read_count irq)
        pure (elim count [ none ↦ negsuc 0 | some n ↦ pos n ])
    ]

  -- InterruptController::waitForInterrupt
  unfoldable pub wait_for_interrupt : ℕ → ℕ → M (Intc H) ℤ
  unfolding wait_polling wait_event
  wait_for_interrupt fuel irq = do
    polling ← gets (λ s. s.polling irq)
    if polling then wait_polling fuel irq else wait_event irq
