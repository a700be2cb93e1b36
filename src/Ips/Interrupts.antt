-- ===== src/Ips/Interrupts.antt =====
-- Enabling an interrupt and waiting for it, of lib/ips/intc.cpp.
use fpga.Prelude.{
  ℕ, zero, suc, ◌+◌, ◌/◌, ◌^◌, ◌<◌, Bool, true, false, ◌&&◌, ◌==◌, ltb, leb, pos, if◌then◌else◌,
  ◌≡◌, refl, ap, ◌∙◌, arith, ==_refl, lt→ltb, M, Outcome, Ensures, Error, Option, returned, threw,
  stuck, final, pure, modify, gets, run, ◌>>=◌, ◌>>◌, Bool-cases, inl, inr,
}
use fpga.Ips.Intc.{
  IntcDriver, Intc, has_bit, below, input, output, set_polling, set_mode, enable_interrupt,
  poll_status, wait_polling, wait_for_interrupt, xin_isr_offset, xin_iar_offset,
}

zero-no_bits : (i : ℕ) → has_bit 0 i ≡ false
unfolding has_bit
zero-no_bits zero = refl
zero-no_bits (suc i) = zero-no_bits i

half : (n : ℕ) → 2 ^ suc n / 2 ≡ 2 ^ n
half n = omega arith

-- The mask of an IrqPort has the bit of its number, and no other.
pub has_bit-pow : (k i : ℕ) → has_bit (2 ^ k) i ≡ (k == i)
unfolding has_bit
has_bit-pow zero zero = refl
has_bit-pow zero (suc i) = zero-no_bits i ∙ ground arith
has_bit-pow (suc k) zero = ground arith
has_bit-pow (suc k) (suc i) = ap (λ m. has_bit m i) (half k) ∙ (has_bit-pow k i ∙ ground arith)

-- Whether `j` is one of the `n` numbers from `i` on.
abbrev within : ℕ → ℕ → ℕ → Bool
within n i j = leb i j && ltb j (i + n)

set_polling-at :
    (n i mask : ℕ) (polling : Bool) (array : ℕ → Bool) (j : ℕ)
    → set_polling n i mask polling array j
      ≡ (if within n i j && has_bit mask j then polling else array j)
unfolding set_polling
set_polling-at zero i mask polling array j = ground arith
set_polling-at (suc n) i mask polling array j =
    set_polling-at n (suc i) mask polling _ j ∙ first (has_bit mask i) refl
  where
    first :
        (b : Bool)
        → has_bit mask i ≡ b
        → (if within n (suc i) j && has_bit mask j
            then polling
            else (if b then (λ l. if i == l then polling else array l) else array) j)
          ≡ (if within (suc n) i j && has_bit mask j then polling else array j)
    first true e = elim (Bool-cases (i == j)) [ inl same ↦ grind arith | inr other ↦ ground arith ]
    first false e = elim (Bool-cases (i == j)) [ inl same ↦ grind arith | inr other ↦ ground arith ]

from_zero : (n j : ℕ) → within n 0 j ≡ ltb j n
from_zero n j = ground arith

module _ {H : Type 0} (driver : IntcDriver H) where
  -- How a call fails: not at all.
  abbrev FailsNever : Option Error → Intc H → Type 0
  FailsNever e s = ⊥

  set_mode-polling :
      (mask ier imr : ℕ) (mode : Bool) (s : Intc H)
      → Ensures
          (λ _ s'. (s'.polling ≡ s.polling) × (s'.num_irqs ≡ s.num_irqs))
          FailsNever
          (set_mode driver mask mode ier imr s)
  unfolding set_mode output modify ◌>>=◌
  set_mode-polling mask ier imr true s = (refl, refl)
  set_mode-polling mask ier imr false s = (refl, refl)

  -- enableInterrupt answers true and sets the mode of the interrupts in the mask, of those that the
  -- controller has; the mode of every other interrupt stays as it was.
  pub enable_interrupt-polling :
      (mask : ℕ) (mode : Bool) (s : Intc H)
      → Ensures
          (λ b s'.
            (b ≡ true)
            × ((j : ℕ)
                → s'.polling j
                  ≡ (if ltb j (below s.num_irqs) && has_bit mask j then mode else s.polling j)))
          FailsNever
          (enable_interrupt driver mask mode s)
  unfolding enable_interrupt set_mode input output modify run pure ◌>>=◌
  enable_interrupt-polling mask true s = (
    refl,
    λ j.
        set_polling-at (below s.num_irqs) 0 mask true s.polling j
        ∙ ap (λ b. if b && has_bit mask j then true else s.polling j)
            (from_zero (below s.num_irqs) j),
  )
  enable_interrupt-polling mask false s = (
    refl,
    λ j.
        set_polling-at (below s.num_irqs) 0 mask false s.polling j
        ∙ ap (λ b. if b && has_bit mask j then false else s.polling j)
            (from_zero (below s.num_irqs) j),
  )

  -- The hardware after the `n`th read of the status register.
  unfoldable pub read_status : ℕ → H → H
  read_status zero h = h
  read_status (suc n) h = read_status n (driver.in32 xin_isr_offset h).1

  -- Whether the `n`th read of the status register shows an interrupt.
  abbrev pub shows_at : ℕ → ℕ → H → Bool
  shows_at n irq h = has_bit (driver.in32 xin_isr_offset (read_status n h)).0 irq

  poll_status-Returns :
      (n fuel irq : ℕ) (s : Intc H)
      → n < fuel
      → shows_at n irq s.hw ≡ true
      → Ensures (λ _ s'. Unit {0}) FailsNever (poll_status driver fuel irq s)
  unfolding poll_status input run ◌>>=◌ read_status
  poll_status-Returns n zero irq s l h = absurd (omega arith)
  poll_status-Returns zero (suc fuel) irq s l h =
      seen (has_bit (driver.in32 xin_isr_offset s.hw).0 irq) _ h
    where
      seen :
          (b : Bool) (m : M (Intc H) (Unit {0}))
          → b ≡ true
          → Ensures
              (λ _ s'. Unit {0})
              FailsNever
              ((if b then pure tt else m) (record s { hw = (driver.in32 xin_isr_offset s.hw).1 }))
      seen true m e = tt
      seen false m e = absurd cc
  poll_status-Returns (suc n) (suc fuel) irq s l h =
      later (has_bit (driver.in32 xin_isr_offset s.hw).0 irq) (
        poll_status-Returns n fuel irq (record s { hw = (driver.in32 xin_isr_offset s.hw).1 })
          (omega arith) h)
    where
      later :
          (b : Bool)
          → Ensures
              (λ _ s'. Unit {0})
              FailsNever
              (poll_status driver fuel irq (record s { hw = (driver.in32 xin_isr_offset s.hw).1 }))
          → Ensures
              (λ _ s'. Unit {0})
              FailsNever
              ((if b then pure tt else poll_status driver fuel irq)
                (record s { hw = (driver.in32 xin_isr_offset s.hw).1 }))
      later true r = tt
      later false r = r

  -- An interrupt that the controller has, and that was enabled to be polled, is waited for by polling,
  -- and the wait comes back with one interrupt where one of its reads of the status register shows it.
  -- `fuel` is more than the number of that read.
  pub wait_for_interrupt-enabled :
      (n fuel irq : ℕ) (s : Intc H)
      → irq < below s.num_irqs
      → n < fuel
      → shows_at n irq (final (enable_interrupt driver (2 ^ irq) true s)).hw ≡ true
      → Ensures
          (λ count s'. count ≡ pos 1)
          FailsNever
          ((enable_interrupt driver (2 ^ irq) true >>= λ _. wait_for_interrupt driver fuel irq) s)
  unfolding ◌>>=◌ wait_for_interrupt wait_polling gets output modify pure
  wait_for_interrupt-enabled n fuel irq s small enough shows =
      enabled (enable_interrupt driver (2 ^ irq) true s) (enable_interrupt-polling (2 ^ irq) true s)
        shows
    where
      Enabled : Intc H → Type 0
      Enabled s' =
          (j : ℕ)
          → s'.polling j
            ≡ (if ltb j (below s.num_irqs) && has_bit (2 ^ irq) j then true else s.polling j)

      bit :
          (has_bit (2 ^ irq) irq ≡ (irq == irq))
          → (if ltb irq (below s.num_irqs) && has_bit (2 ^ irq) irq then true else s.polling irq)
            ≡ true
      bit h = rw (lt→ltb irq _ small, h, ==_refl irq)

      polled : (s' : Intc H) → Enabled s' → s'.polling irq ≡ true
      polled s' e = e irq ∙ bit (has_bit-pow irq irq)

      acknowledged :
          (o : Outcome (Intc H) (Unit {0}))
          → Ensures (λ _ s'. Unit {0}) FailsNever o
          → Ensures
              (λ count s'. count ≡ pos 1)
              FailsNever
              (elim o [
                | returned _ s' ↦ (output driver xin_iar_offset (2 ^ irq) >> pure (pos 1)) s'
                | threw e s' ↦ threw e s'
                | stuck s' ↦ stuck s'
              ])
      acknowledged (returned x s') e = refl
      acknowledged (threw x s') e = absurd e
      acknowledged (stuck s') e = absurd e

      wait :
          (s' : Intc H)
          → Enabled s'
          → shows_at n irq s'.hw ≡ true
          → Ensures (λ count s'. count ≡ pos 1) FailsNever (wait_for_interrupt driver fuel irq s')
      wait s' e shows = rw (polled s' e) (
          acknowledged (poll_status driver fuel irq s')
            (poll_status-Returns n fuel irq s' enough shows))

      enabled :
          (o : Outcome (Intc H) Bool)
          → Ensures (λ b s'. (b ≡ true) × Enabled s') FailsNever o
          → shows_at n irq (final o).hw ≡ true
          → Ensures
              (λ count s'. count ≡ pos 1)
              FailsNever
              (elim o [
                | returned b s' ↦ wait_for_interrupt driver fuel irq s'
                | threw e s' ↦ threw e s'
                | stuck s' ↦ stuck s'
              ])
      enabled (returned b s') e shows = wait s' e.1 shows
      enabled (threw x s') e shows = absurd e
      enabled (stuck s') e shows = absurd e
