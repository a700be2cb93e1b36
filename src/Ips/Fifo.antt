-- ===== src/Ips/Fifo.antt =====
-- lib/ips/fifo.cpp: the FIFO. Its driver and the interrupt controller are parameters.
use fpga.Prelude.{
  ℕ, zero, suc, ◌-◌, ◌^◌, ◌<◌, ◌≤◌, min, Bool, true, false, not, ltb, List, if◌then◌else◌, M, pure,
  hang, modify, gets, run, ◌>>=◌, ◌>>◌, ◌≡◌, Error, Option, Ensures, Spec-bind, Spec-modify,
  Spec-run, Spec-pure, refl, subst, sym, arith, length,
}

-- XLlFifo, and the interrupt controller of its interrupt. `axi4_address` is whether the address of
-- the data interface is there, and `has_irq` whether the interrupt is.
pub record FifoDriver (H : Type 0) : Type 0 where
  pub axi4_address : H → Bool
  pub has_irq : H → Bool
  pub cfg_initialize : Bool → H → Bool × H
  pub int_enable : H → H
  pub int_disable : H → H
  pub int_clear : H → H
  pub enable_interrupt : Bool → H → H
  pub disable_interrupt : H → H
  pub wait_for_interrupt : H → H
  pub tx_vacancy : H → ℕ × H
  pub fifo_write : List ℕ → H → H
  pub tx_set_len : ℕ → H → H
  pub is_rx_done : H → Bool × H
  pub rx_get_len : H → ℕ × H
  pub fifo_read : ℕ → H → List ℕ × H

-- `return -1` as a size_t
abbrev pub size_max : ℕ
size_max = 2 ^ 64 - 1

module _ {H : Type 0} (driver : FifoDriver H) where
  -- Fifo::init
  unfoldable pub init : M H Bool
  init = do
    data_interface ← gets driver.axi4_address
    done ← run (driver.cfg_initialize data_interface)
    if not done then pure false else (do
      found ← gets driver.has_irq
      if not found
          then pure false
          else (modify driver.int_enable >> modify (driver.enable_interrupt false) >> pure true))

  -- Fifo::stop
  unfoldable pub stop : M H Bool
  stop = modify driver.int_disable >> modify driver.disable_interrupt >> pure true

  -- Fifo::write, of a buffer of bytes
  unfoldable pub write : List ℕ → M H ℕ
  write buf = do
    tdfv ← run driver.tx_vacancy
    if ltb tdfv (length buf)
        then pure size_max
        else (modify (driver.fifo_write buf)
            >> modify (driver.tx_set_len (length buf))
            >> pure (length buf))

  -- The wait of read; `fuel` bounds its rounds.
  unfoldable pub await_frame : ℕ → M H (Unit {0})
  await_frame zero = hang
  await_frame (suc fuel) = do
    done ← run driver.is_rx_done
    if done then pure tt else (modify driver.wait_for_interrupt >> await_frame fuel)

  -- Fifo::read, with the bytes that it puts into the buffer
  unfoldable pub read : ℕ → ℕ → M H (ℕ × List ℕ)
  unfolding await_frame
  read fuel len = do
    await_frame fuel
    modify driver.int_clear
    rxlen ← run driver.rx_get_len
    bytes ← run (driver.fifo_read (min rxlen len))
    pure (min rxlen len, bytes)

-- The driver documents that a read gives as many bytes as were asked for.
pub record FifoLaws {H : Type 0} (driver : FifoDriver H) : Type 0 where
  pub read-length : (n : ℕ) (h : H) → length (driver.fifo_read n h).0 ≡ n

module _ {H : Type 0} (driver : FifoDriver H) where
  -- The hardware after the `n`th test of the FIFO and the wait behind it.
  unfoldable pub waited : ℕ → H → H
  waited zero h = h
  waited (suc n) h = waited n (driver.wait_for_interrupt (driver.is_rx_done h).1)

  -- Whether the `n`th test shows a frame.
  abbrev pub done_at : ℕ → H → Bool
  done_at n h = (driver.is_rx_done (waited n h)).0

  abbrev FailsNever : Option Error → H → Type 0
  FailsNever e h = ⊥

  first :
      (b : Bool) (m : M H (Unit {0})) (h : H)
      → (b ≡ false → Ensures (λ _ _. Unit {0}) FailsNever (m h))
      → Ensures (λ _ _. Unit {0}) FailsNever ((if b then pure tt else m) h)
  unfolding pure
  first true m h r = tt
  first false m h r = r refl

  await_frame-Returns :
      (n fuel : ℕ) (h : H)
      → n < fuel
      → done_at n h ≡ true
      → Ensures (λ _ _. Unit {0}) FailsNever (await_frame driver fuel h)
  unfolding await_frame run modify ◌>>=◌ waited pure
  await_frame-Returns n zero h l e = absurd (omega arith)
  await_frame-Returns zero (suc fuel) h l e =
      first (driver.is_rx_done h).0 (modify driver.wait_for_interrupt >> await_frame driver fuel) _
        (λ f. absurd cc)
  await_frame-Returns (suc n) (suc fuel) h l e =
      first (driver.is_rx_done h).0 (modify driver.wait_for_interrupt >> await_frame driver fuel) _
        (λ f. await_frame-Returns n fuel _ (omega arith) e)

  -- Fifo::read comes back where one of its tests shows a frame, and gives the buffer as many bytes as
  -- it answers, which are no more than the buffer takes. `fuel` is more than the number of that
  -- test, and the driver reads as many bytes as it is asked for.
  pub read-inside :
      FifoLaws driver
      → (n fuel len : ℕ) (h : H) → n < fuel
      → done_at n h ≡ true
      → Ensures (λ r _. (length r.1 ≡ r.0) × (r.0 ≤ len)) FailsNever (read driver fuel len h)
  unfolding read
  read-inside laws n fuel len h l e =
      (Spec-bind {Q = λ _ _. Unit} {X = FailsNever} {P = λ s. s ≡ h} _ _
          (record {
            at = λ s same.
                subst (λ s. Ensures (λ _ _. Unit {0}) FailsNever (await_frame driver fuel s))
                  (sym same) (await_frame-Returns n fuel h l e);
          })
          λ _. Spec-bind _ _ (Spec-modify driver.int_clear {Q = λ _ _. Unit} (λ s p. tt)) λ _.
            Spec-bind _ _ (Spec-run driver.rx_get_len {Q = λ _ _. Unit} (λ s p. tt)) λ rxlen.
              Spec-bind _ _
                (Spec-run (driver.fifo_read (min rxlen len))
                  {Q = λ bytes _. length bytes ≡ min rxlen len}
                  (λ s p. laws.read-length (min rxlen len) s))
                λ bytes. Spec-pure (min rxlen len, bytes) (λ s p. (p, omega arith))).at
        h refl
