-- ===== src/Dma/Locks.antt =====
-- hwLock in lib/ips/dma.cpp: who leaves it free.
pub mod Transfers
pub mod Completions
pub mod Teardown
use fpga.Prelude.{
  ℕ, zero, suc, ◌+◌, ◌*◌, bit_and, Bool, true, false, not, ◌&&◌, Option, none, some, if◌then◌else◌,
  ltb, ◌==◌, ◌≡◌, refl, sym, ◌∙◌, M, Outcome, returned, threw, stuck, Error, Ensures, Spec,
  Spec-bind, Spec-throw, Spec-pure, Spec-if, Spec-modify, pure, throw, modify, hang, runtime_error,
  out_of_range, ◌>>=◌, ◌>>◌,
}
use fpga.Dma.{
  Dma, DmaDriver, Call, Direction, mm2s, s2mm, Completion, no_completion, u64, interrupts_of,
  fpga_dma_boundary, irq_ioc_mask,
}
use fpga.Dma.Calls.{lock, unlock, call, act, look, field, fail_unlocked, require, require_some}
use fpga.Dma.ScatterGather.{
  write_scatter_gather, program_bds, submit_read, read_scatter_gather, status_bad, sum_bds, collect,
  decrement, count_write_error, write_complete_scatter_gather,
}
use fpga.Dma.Simple.{
  align_mask, start_transfer, refuse, transfer_simple, write_simple, read_simple, halted_mask,
}
use fpga.Dma.Transfer.{buffer_of, write, read}

module _ {H : Type 0} where
  abbrev pub Free : Dma H → Type 0
  Free dma = dma.locked ≡ false

  abbrev pub Held : Dma H → Type 0
  Held dma = dma.locked ≡ true

  -- How a call may fail: with an exception that leaves the lock free, and never by waiting for the
  -- lock.
  abbrev pub FailsFree : Option Error → Dma H → Type 0
  FailsFree none dma = ⊥
  FailsFree (some e) dma = Free dma

  lock_at :
      (dma : Dma H) (b : Bool)
      → b ≡ false
      → Ensures {S = Dma H} {A = Unit {0}}
          (λ _. Held)
          FailsFree
          (if b then stuck dma else returned tt (record dma { locked = true }))
  lock_at dma true h = cc
  lock_at dma false h = refl

  -- Of a call that neither throws nor blocks.
  abbrev pub FailsNever : Option Error → Dma H → Type 0
  FailsNever e dma = ⊥

  -- The lock's part of a sequence that starts with it.
  pub lock_blocks :
      {A : Type 0} (f : Unit {0} → M (Dma H) A) (dma : Dma H)
      → Held dma
      → (lock >>= f) dma ≡ stuck dma
  unfolding lock ◌>>=◌
  lock_blocks f dma held = cc

  pub lock_passes :
      {A : Type 0} (f : Unit {0} → M (Dma H) A) (dma : Dma H)
      → Free dma
      → (lock >>= f) dma ≡ f tt (record dma { locked = true })
  unfolding lock ◌>>=◌
  lock_passes f dma free = rw (free) refl

  pub lock-Free : Spec Free lock (λ _. Held) FailsFree
  unfolding lock
  lock-Free = record { at = λ dma free. lock_at dma dma.locked free }

  pub unlock-Free :
      {P : Dma H → Type 0} {X : Option Error → Dma H → Type 0} → Spec P unlock (λ _. Free) X
  unfolding unlock
  unlock-Free = record { at = λ dma p. refl }

  -- Calls of the driver leave the lock as it is.
  module _ {b : Bool} {X : Option Error → Dma H → Type 0} where
    pub call-keeps :
        {A : Type 0} (f : Call H A)
        → Spec (λ dma. dma.locked ≡ b) (call f) (λ _ dma. dma.locked ≡ b) X
    unfolding call
    call-keeps f = record { at = λ dma p. p }

    pub act-keeps : (f : H → H) → Spec (λ dma. dma.locked ≡ b) (act f) (λ _ dma. dma.locked ≡ b) X
    unfolding act
    act-keeps f = record { at = λ dma p. p }

    pub look-keeps :
        {A : Type 0} (f : H → A) → Spec (λ dma. dma.locked ≡ b) (look f) (λ _ dma. dma.locked ≡ b) X
    unfolding look
    look-keeps f = record { at = λ dma p. p }

    pub field-keeps :
        {A : Type 0} (f : Dma H → A)
        → Spec (λ dma. dma.locked ≡ b) (field f) (λ _ dma. dma.locked ≡ b) X
    unfolding field
    field-keeps f = record { at = λ dma p. p }

  pub fail_unlocked-Free :
      {A : Type 0} {P : Dma H → Type 0} {Q : A → Dma H → Type 0} → Spec P fail_unlocked Q FailsFree
  unfolding fail_unlocked
  fail_unlocked-Free = Spec-bind _ _ unlock-Free λ _. Spec-throw runtime_error λ dma p. p

  pub require-Held : (b : Bool) → Spec Held (require b) (λ _. Held) FailsFree
  unfolding require
  require-Held true = Spec-pure tt λ dma p. p
  require-Held false = fail_unlocked-Free

  pub require_some-Held : (a : Option ℕ) → Spec Held (require_some a) (λ _. Held) FailsFree
  unfolding require_some
  require_some-Held none = fail_unlocked-Free
  require_some-Held (some a) = Spec-pure a λ dma p. p

  pub unlock-pure : {A : Type 0} (a : A) → Spec Held (unlock >> pure a) (λ _. Free) FailsFree
  unlock-pure a = Spec-bind _ _ unlock-Free λ _. Spec-pure a λ dma p. p
