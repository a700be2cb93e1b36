-- ===== src/Dma/Locks/Completions.antt =====
-- hwLock after the completions and the reset of lib/ips/dma.cpp.
use fpga.Prelude.{
  ℕ, zero, suc, ◌+◌, bit_and, Bool, true, false, not, Option, if◌then◌else◌, ltb, ◌==◌, ◌≡◌, refl,
  subst, sym, M, Outcome, returned, stuck, Error, Ensures, Spec, Spec-bind, Spec-pure, Spec-if,
  Spec-modify, pure, ◌>>=◌, ◌>>◌,
}
use fpga.Dma.{Dma, DmaDriver, Direction, mm2s, s2mm, u64, interrupts_of, irq_ioc_mask, irq_all_mask}
use fpga.Dma.Calls.{lock, call, act, field}
use fpga.Dma.ScatterGather.{
  write_scatter_gather, status_bad, sum_bds, collect, count_write_error,
  write_complete_scatter_gather,
}
use fpga.Dma.ScatterGather.{finish_read}
use fpga.Dma.Transfer.{await_reset, reset}
use fpga.Dma.Locks.{
  FailsNever, unlock-Free, lock_passes, Free, Held, FailsFree, lock-Free, call-keeps, act-keeps,
  look-keeps, field-keeps, require-Held, require_some-Held, unlock-pure,
}

module _ {H : Type 0} (drv : DmaDriver H) where
  sum_bds-Held :
      (dir : Direction) (get_length : ℕ → ℕ → H → ℕ) (n bd cur_bd bytes : ℕ)
      → Spec Held (sum_bds drv dir get_length n bd cur_bd bytes) (λ _. Held) FailsFree
  unfolding sum_bds
  sum_bds-Held dir get_length zero bd cur_bd bytes = Spec-pure bytes λ dma p. p
  sum_bds-Held dir get_length (suc n) bd cur_bd bytes = Spec-bind _ _ (look-keeps _) λ sts.
      Spec-bind _ _ (require-Held (not (status_bad drv sts))) λ _. Spec-bind _ _ (look-keeps _) λ _.
        Spec-bind _ _ (look-keeps _) λ length.
          Spec-bind _ _ (look-keeps _)
            λ next_bd. sum_bds-Held dir get_length n bd next_bd (u64 (bytes + length))

  collect-Free :
      (dir : Direction) (get_length : ℕ → ℕ → H → ℕ) (interrupts bds : ℕ) (bd : Option ℕ)
      → Spec Held (collect drv dir get_length interrupts bds bd) (λ _. Free) FailsFree
  unfolding collect
  collect-Free dir get_length interrupts bds bd =
      Spec-if (bds == 0) _ _ (λ _. unlock-pure _)
        λ _. Spec-bind _ _ (require_some-Held bd) λ first.
          Spec-bind _ _ (sum_bds-Held dir get_length bds first first 0) λ bytes.
            Spec-bind _ _ (call-keeps _)
              λ freed. Spec-bind _ _ (require-Held freed) λ _. unlock-pure _

  count_write_error-Held : Spec Held (count_write_error drv) (λ _. Held) FailsFree
  unfolding count_write_error
  count_write_error-Held =
      Spec-bind _ _ (field-keeps _)
        λ errcnt. Spec-bind _ _ (Spec-modify _ λ dma p. p) λ _. require-Held _

  count_short-Held :
      (b : Bool) → Spec Held (if b then count_write_error drv else pure tt) (λ _. Held) FailsFree
  count_short-Held true = count_write_error-Held
  count_short-Held false = Spec-pure tt λ dma p. p

  write_complete_scatter_gather-Free :
      Spec Free (write_complete_scatter_gather drv) (λ _. Free) FailsFree
  unfolding write_complete_scatter_gather
  write_complete_scatter_gather-Free = Spec-bind _ _ (call-keeps _) λ intrs.
      Spec-bind _ _ lock-Free λ _. Spec-bind _ _ (field-keeps _) λ coalesce.
        Spec-bind _ _ (call-keeps _) λ came.
          Spec-bind _ _ (count_short-Held (ltb came.0 coalesce)) λ _.
            Spec-bind _ _ (call-keeps _) λ status.
              Spec-bind _ _ (act-keeps _)
                λ _. collect-Free mm2s drv.bd_get_length (interrupts_of intrs) came.0 came.1

-- From a controller whose lock is free, the completion of a scatter-gather write comes back, with a
-- result or an exception, and the lock is free again.
pub write_complete_scatter_gather-releases :
    {H : Type 0} (drv : DmaDriver H) (dma : Dma H)
    → Free dma
    → Ensures (λ _. Free) FailsFree (write_complete_scatter_gather drv dma)
write_complete_scatter_gather-releases drv dma free =
    (write_complete_scatter_gather-Free drv).at dma free

module _ {H : Type 0} (drv : DmaDriver H) where
  at_held :
      (dma : Dma H) (buf len : ℕ)
      → dma.locked ≡ true
      → write_scatter_gather drv buf len dma ≡ stuck dma
  unfolding write_scatter_gather lock ◌>>=◌
  at_held dma buf len held = rw (held) refl

  -- The outcome of a call that returns `a` and leaves the lock taken, so that a write does not come
  -- back.
  abbrev pub ReturnsBlocked : {A : Type 0} → A → Outcome (Dma H) A → Type 0
  ReturnsBlocked a =
      Ensures
        (λ result dma.
          (result ≡ a) × ((buf len : ℕ) → write_scatter_gather drv buf len dma ≡ stuck dma))
        FailsNever

  unexpected :
      (n : ℕ) (dma : Dma H)
      → Free dma
      → bit_and (drv.bd_ring_get_irq s2mm dma.hw).0 irq_ioc_mask == 0 ≡ true
      → finish_read drv n dma
        ≡ returned
            (record { bytes = 0; bds = 0; interrupts = n })
            (record dma {
              locked = true;
              hw =
                  drv.bd_ring_ack_irq s2mm
                    (drv.bd_ring_get_irq s2mm dma.hw).0
                    (drv.bd_ring_get_irq s2mm dma.hw).1;
            })
  unfolding finish_read lock call act ◌>>=◌
  unexpected n dma free h = rw (free, h) refl

  -- Where the channel's interrupt status has no completion bit, readCompleteScatterGather returns no
  -- descriptors behind its wait, and keeps the lock: every later write by that thread blocks.
  pub finish_read-blocks :
      (n : ℕ) (dma : Dma H)
      → Free dma
      → bit_and (drv.bd_ring_get_irq s2mm dma.hw).0 irq_ioc_mask == 0 ≡ true
      → ReturnsBlocked (record { bytes = 0; bds = 0; interrupts = n }) (finish_read drv n dma)
  finish_read-blocks n dma free h =
      rw (unexpected n dma free h) (refl, λ buf len. at_held _ buf len refl)

  after_poll :
      {X : Option Error → Dma H → Type 0} (m : M (Dma H) Bool) (done : Bool)
      → Spec Held m (λ ok dma. dma.locked ≡ ok) X
      → Spec Held (elim done [ true ↦ pure true | false ↦ m ]) (λ ok dma. dma.locked ≡ ok) X
  after_poll m true rest = Spec-pure true λ dma p. p
  after_poll m false rest = rest

  await_reset-lock :
      {X : Option Error → Dma H → Type 0} (timeout : ℕ)
      → Spec Held (await_reset drv timeout) (λ ok dma. dma.locked ≡ ok) X
  unfolding await_reset
  await_reset-lock zero = Spec-bind _ _ unlock-Free λ _. Spec-pure false λ dma p. p
  await_reset-lock (suc timeout) =
      Spec-bind _ _ (call-keeps drv.reset_is_done)
        λ done. after_poll (await_reset drv timeout) done (await_reset-lock timeout)

  reset_locked :
      Spec Held
        (do
          act (drv.intr_disable mm2s irq_all_mask)
          act (drv.intr_disable s2mm irq_all_mask)
          act drv.reset
          await_reset drv 500)
        (λ done dma. dma.locked ≡ done)
        FailsNever
  reset_locked =
      Spec-bind _ _ (act-keeps _)
        λ _. Spec-bind _ _ (act-keeps _) λ _. Spec-bind _ _ (act-keeps _) λ _. await_reset-lock 500

  -- From a controller that is mapped and whose lock is free, `reset` returns, and it holds the lock
  -- exactly where it returns true.
  pub reset-lock :
      (dma : Dma H)
      → Free dma
      → dma.reg_base == 0 ≡ false
      → Ensures (λ ok after. after.locked ≡ ok) FailsNever (reset drv dma)
  unfolding reset field ◌>>=◌
  reset-lock dma free mapped = rw (mapped) (
      subst (Ensures (λ ok after. after.locked ≡ ok) FailsNever) (sym (lock_passes _ dma free))
        (reset_locked.at (record dma { locked = true }) refl))
