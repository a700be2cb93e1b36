-- ===== src/I2c/Driver.antt =====
-- lib/ips/i2c.cpp: driverWriteBlocking, driverReadBlocking and waitForBusNotBusy.
use fpga.Prelude.{
  not32, ℕ, zero, suc, ◌+◌, bit_and, Bool, true, false, not, List, none, some, if◌then◌else◌, ltb,
  ◌==◌, M, pure, throw, modify, ◌>>=◌, ◌>>◌, runtime_error, returned,
}
use fpga.I2c.{I2c, XiicDriver, Status, success, bus_busy, failure, bnb_mask}

module _ {H : Type 0} where
  -- A call of the driver that answers, and one that does not.
  unfoldable pub call : {A : Type 0} → (H → A × H) → M (I2c H) A
  call f i2c = returned (f i2c.hw).0 (record i2c { hw = (f i2c.hw).1 })

  unfoldable pub act : (H → H) → M (I2c H) (Unit {0})
  act f i2c = returned tt (record i2c { hw = f i2c.hw })

  -- A reading of the members.
  unfoldable pub field : {A : Type 0} → (I2c H → A) → M (I2c H) A
  field f i2c = returned (f i2c) i2c

  -- `if (not ok) throw RuntimeError(...)`
  unfoldable pub expect : Bool → M (I2c H) (Unit {0})
  expect true = pure tt
  expect false = throw runtime_error

  -- The two interrupt handlers' part of XIic_InterruptHandler.
  abbrev pub count_interrupts : ℕ × ℕ → I2c H → I2c H
  count_interrupts calls i2c = record i2c {
    transmit_intrs = i2c.transmit_intrs + calls.0;
    receive_intrs = i2c.receive_intrs + calls.1;
  }

module _ {H : Type 0} (drv : XiicDriver H) where
  -- The loop of waitForBusNotBusy, over its retries; the result is those that are left.
  unfoldable pub poll_bus : ℕ → M (I2c H) ℕ
  unfolding call
  poll_bus zero = pure 0
  poll_bus (suc retries) = do
    _ ← call drv.wait_for_interrupt
    isr ← call drv.read_iisr
    ier ← call drv.read_iier
    if bit_and (bit_and isr ier) bnb_mask == 0 then poll_bus retries else pure (suc retries)

  -- I2c::waitForBusNotBusy
  unfoldable pub wait_for_bus_not_busy : M (I2c H) (Unit {0})
  unfolding call act expect poll_bus
  wait_for_bus_not_busy = do
    retries ← poll_bus 10
    ier ← call drv.read_iier
    act (drv.write_iier (bit_and ier (not32 bnb_mask)))
    act (drv.write_iisr bnb_mask)
    expect (not (retries == 0))

  -- The inner loop that submits a transfer: once more where the bus was busy.
  unfoldable pub submit : ℕ → (H → Status × H) → M (I2c H) (Unit {0})
  unfolding call wait_for_bus_not_busy
  submit zero transfer = pure tt
  submit (suc attempts) transfer = do
    status ← call transfer
    elim status [
      | success ↦ pure tt
      | bus_busy ↦ wait_for_bus_not_busy >> submit attempts transfer
      | failure ↦ throw runtime_error
    ]

  -- The inner loop that waits for the handler that `count` counts; -1 leaves it.
  unfoldable pub await : (I2c H → ℕ) → ℕ → M (I2c H) (Unit {0})
  unfolding call field
  await count zero = pure tt
  await count (suc intr_retries) = do
    intrs ← field count
    if not (intrs == 0) then pure tt else (do
      came ← call drv.wait_for_interrupt
      elim came [
        | none ↦ pure tt
        | some n ↦ (do
          calls ← call drv.interrupt_handler
          modify (count_interrupts calls)
          await count intr_retries)
      ])

  -- The outer loops, over the retries; the result is those that are left.
  unfoldable pub send_loop : List ℕ → ℕ → M (I2c H) ℕ
  unfolding act field submit await
  send_loop data_bytes zero = pure 0
  send_loop data_bytes (suc retries) = do
    intrs ← field (λ i2c. i2c.transmit_intrs)
    if not (intrs == 0) then pure (suc retries) else (do
      act drv.clear_tx_errors
      submit 2 (drv.master_send data_bytes)
      await (λ i2c. i2c.transmit_intrs) 10
      send_loop data_bytes retries)

  unfoldable pub receive_loop : ℕ → ℕ → M (I2c H) ℕ
  unfolding field submit await
  receive_loop max_read zero = pure 0
  receive_loop max_read (suc retries) = do
    intrs ← field (λ i2c. i2c.receive_intrs)
    if not (intrs == 0) then pure (suc retries) else (do
      submit 2 (drv.master_recv max_read)
      await (λ i2c. i2c.receive_intrs) 10
      receive_loop max_read retries)

  -- I2c::driverWriteBlocking
  unfoldable pub driver_write_blocking : List ℕ → M (I2c H) (Unit {0})
  unfolding field expect send_loop
  driver_write_blocking data_bytes = do
    modify (λ i2c. record i2c { transmit_intrs = 0 })
    retries ← send_loop data_bytes 10
    expect (not (retries == 0))
    errors ← field (λ i2c. drv.tx_errors i2c.hw)
    expect (not (ltb 0 errors))

  -- I2c::driverReadBlocking
  unfoldable pub driver_read_blocking : ℕ → M (I2c H) (Unit {0})
  unfolding expect receive_loop
  driver_read_blocking max_read = do
    modify (λ i2c. record i2c { receive_intrs = 0 })
    retries ← receive_loop max_read 10
    expect (not (retries == 0))
