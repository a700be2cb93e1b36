-- ===== src/Dma/Counts.antt =====
-- The byte counts of the scatter-gather completions of lib/ips/dma.cpp, and the polling of the simple
-- ones.
use fpga.Prelude.{
  ℕ, zero, suc, ◌+◌, ◌*◌, ◌%◌, ◌^◌, ◌<◌, Bool, true, false, not, Option, some, ◌==◌, ◌≡◌, refl, M,
  Outcome, returned, threw, stuck, Error, Ensures, pure, ◌>>=◌, ◌>>◌, runtime_error, arith,
}
use fpga.Dma.{Dma, DmaDriver, Direction, Completion, u64}
use fpga.Dma.Calls.{unlock, call, look, fail_unlocked, require, require_some}
use fpga.Dma.ScatterGather.{status_bad, sum_bds, collect}

module _ {H : Type 0} (drv : DmaDriver H) (dir : Direction) (get_length : ℕ → ℕ → H → ℕ) where
  abbrev pub first_length : ℕ → Dma H → ℕ
  first_length bd dma = get_length bd (drv.max_transfer_len dir dma.hw) dma.hw

  abbrev pub OnlyRuntime : Option Error → Dma H → Type 0
  OnlyRuntime e dma = e ≡ some runtime_error

  checked :
      (b : Bool) {A : Type 0} (m : M (Dma H) A) (Q : A → Dma H → Type 0) (dma : Dma H)
      → Ensures Q OnlyRuntime (m dma)
      → Ensures Q OnlyRuntime ((require b >>= λ _. m) dma)
  unfolding require fail_unlocked unlock ◌>>=◌
  checked true m Q dma h = h
  checked false m Q dma h = refl

  wraps :
      (bytes n len : ℕ) → (u64 (bytes + len) + n * len) % 2 ^ 64 ≡ (bytes + suc n * len) % 2 ^ 64
  wraps bytes n len = omega arith

  sum_bds-first :
      (n bd cur_bd bytes : ℕ) (dma : Dma H)
      → bytes < 2 ^ 64
      → Ensures
          (λ sum after. (sum ≡ (bytes + n * first_length bd dma) % 2 ^ 64) × (after ≡ dma))
          OnlyRuntime
          (sum_bds drv dir get_length n bd cur_bd bytes dma)
  unfolding sum_bds look ◌>>=◌
  sum_bds-first zero bd cur_bd bytes dma small = (omega arith, refl)
  sum_bds-first (suc n) bd cur_bd bytes dma small =
      checked (not (status_bad drv (drv.bd_get_sts cur_bd dma.hw))) _ _ dma (
        rw (← wraps bytes n (first_length bd dma))
          (sum_bds-first n bd _ (u64 (bytes + first_length bd dma)) dma (omega arith)))

  from_zero :
      (n bd : ℕ) (dma : Dma H)
      → Ensures
          (λ sum after. (sum ≡ n * first_length bd dma % 2 ^ 64) × (after ≡ dma))
          OnlyRuntime
          (sum_bds drv dir get_length n bd bd 0 dma)
  from_zero n bd dma =
      rw (← zero_add (n * first_length bd dma)) (sum_bds-first n bd bd 0 dma (omega arith))
    where
      zero_add : (k : ℕ) → 0 + k ≡ k
      zero_add k = omega arith

  -- What a completion of `n` descriptors counts, the first of which is `bd`.
  abbrev pub CountsFirst : ℕ → ℕ → Dma H → Completion → Dma H → Type 0
  CountsFirst n bd dma done after = (done.bytes ≡ n * first_length bd dma % 2 ^ 64) × (done.bds ≡ n)

  counted :
      (n bd interrupts : ℕ) (dma : Dma H) (sum : ℕ)
      → sum ≡ n * first_length bd dma % 2 ^ 64
      → Ensures (CountsFirst n bd dma) OnlyRuntime (
          (do
            freed ← call (drv.bd_ring_free dir n bd)
            require freed
            unlock
            pure (record { bytes = sum; bds = n; interrupts = interrupts }))
            dma)
  unfolding call unlock ◌>>=◌
  counted n bd interrupts dma sum e =
      checked (drv.bd_ring_free dir n bd dma.hw).0 _ (CountsFirst n bd dma) _ (e, refl)

  after_sum :
      (n bd interrupts : ℕ) (dma : Dma H) (o : Outcome (Dma H) ℕ)
      → Ensures
          (λ sum after. (sum ≡ n * first_length bd dma % 2 ^ 64) × (after ≡ dma))
          OnlyRuntime
          o
      → Ensures (CountsFirst n bd dma) OnlyRuntime (elim o [
        | returned sum after ↦
            ((do
              freed ← call (drv.bd_ring_free dir n bd)
              require freed
              unlock
              pure (record { bytes = sum; bds = n; interrupts = interrupts }))
              after)
        | threw e after ↦ threw e after
        | stuck after ↦ stuck after
      ])
  after_sum n bd interrupts dma (returned sum after) h =
      rw (h.1) (counted n bd interrupts dma sum h.0)
  after_sum n bd interrupts dma (threw e after) h = h
  after_sum n bd interrupts dma (stuck after) h = h

  -- A completion that returns counts, for every descriptor that came back, the length of the first of
  -- them: the bytes are their number times that length, in 64 bits, whatever the lengths of the others
  -- are. Where it does not return it throws.
  pub collect-bytes :
      (n bd interrupts : ℕ) (dma : Dma H)
      → Ensures
          (CountsFirst n bd dma)
          OnlyRuntime
          (collect drv dir get_length interrupts n (some bd) dma)
  unfolding collect require_some unlock ◌>>=◌
  collect-bytes zero bd interrupts dma = (omega arith, refl)
  collect-bytes (suc n) bd interrupts dma = rw (suc_not_zero n) (
      after_sum (suc n) bd interrupts dma (sum_bds drv dir get_length (suc n) bd bd 0 dma)
        (from_zero (suc n) bd dma))
    where
      suc_not_zero : (k : ℕ) → (suc k == 0) ≡ false
      suc_not_zero k = ground arith
