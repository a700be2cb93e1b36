-- ===== src/I2c/Keeps.antt =====
-- What the driver's loops of lib/ips/i2c.cpp keep: whatever depends on neither the hardware nor the
-- counters of interrupts.
use fpga.Prelude.{
  ℕ, zero, suc, bit_and, Bool, true, false, not, List, Option, none, some, ◌==◌, ◌≡◌, refl, M,
  Error, Spec, Spec-bind, Spec-throw, Spec-pure, Spec-if, Spec-modify, pure, throw, modify, ◌>>=◌,
  ◌>>◌, runtime_error,
}
use fpga.I2c.{I2c, XiicDriver, Status, success, bus_busy, failure, bnb_mask}
use fpga.I2c.Driver.{
  call, act, field, expect, count_interrupts, poll_bus, wait_for_bus_not_busy, submit, await,
  send_loop, receive_loop, driver_write_blocking, driver_read_blocking,
}

-- How a call fails: with a runtime error, in a state with `P`.
abbrev pub FailsWith : {H : Type 0} → (I2c H → Type 0) → Option Error → I2c H → Type 0
FailsWith P e i2c = (e ≡ some runtime_error) × P i2c

abbrev pub Stable : {H : Type 0} → (I2c H → Type 0) → Type 0
Stable {H} P =
    (i2c : I2c H) (h : H) (sent received : ℕ)
    → P i2c
    → P (record i2c { hw = h; transmit_intrs = sent; receive_intrs = received })

module _ {H : Type 0} (drv : XiicDriver H) (P : I2c H → Type 0) (stable : Stable P) where
  pub call-keeps : {A : Type 0} (f : H → A × H) → Spec P (call f) (λ _. P) (FailsWith P)
  unfolding call
  call-keeps f = record {
    at = λ i2c p. stable i2c (f i2c.hw).1 i2c.transmit_intrs i2c.receive_intrs p;
  }

  act-keeps : (f : H → H) → Spec P (act f) (λ _. P) (FailsWith P)
  unfolding act
  act-keeps f = record {
    at = λ i2c p. stable i2c (f i2c.hw) i2c.transmit_intrs i2c.receive_intrs p;
  }

  pub field-keeps : {A : Type 0} (f : I2c H → A) → Spec P (field f) (λ _. P) (FailsWith P)
  unfolding field
  field-keeps f = record { at = λ i2c p. p }

  pub expect-keeps : (b : Bool) → Spec P (expect b) (λ _. P) (FailsWith P)
  unfolding expect
  expect-keeps true = Spec-pure tt λ i2c p. p
  expect-keeps false = Spec-throw runtime_error λ i2c p. (refl, p)

  poll_bus-keeps : (retries : ℕ) → Spec P (poll_bus drv retries) (λ _. P) (FailsWith P)
  unfolding poll_bus
  poll_bus-keeps zero = Spec-pure 0 λ i2c p. p
  poll_bus-keeps (suc retries) = Spec-bind _ _ (call-keeps _) λ _.
      Spec-bind _ _ (call-keeps _) λ isr. Spec-bind _ _ (call-keeps _) λ ier.
        Spec-if (bit_and (bit_and isr ier) bnb_mask == 0) _ _ (λ _. poll_bus-keeps retries)
          (λ _. Spec-pure (suc retries) λ i2c p. p)

  wait_for_bus_not_busy-keeps : Spec P (wait_for_bus_not_busy drv) (λ _. P) (FailsWith P)
  unfolding wait_for_bus_not_busy
  wait_for_bus_not_busy-keeps = Spec-bind _ _ (poll_bus-keeps 10) λ retries.
      Spec-bind _ _ (call-keeps _)
        λ ier. Spec-bind _ _ (act-keeps _) λ _. Spec-bind _ _ (act-keeps _) λ _. expect-keeps _

  after_status :
      (status : Status) (m : M (I2c H) (Unit {0}))
      → Spec P m (λ _. P) (FailsWith P)
      → Spec P
          (elim status [
            | success ↦ pure tt
            | bus_busy ↦ wait_for_bus_not_busy drv >> m
            | failure ↦ throw runtime_error
          ])
          (λ _. P)
          (FailsWith P)
  after_status success m h = Spec-pure tt λ i2c p. p
  after_status bus_busy m h = Spec-bind _ _ wait_for_bus_not_busy-keeps λ _. h
  after_status failure m h = Spec-throw runtime_error λ i2c p. (refl, p)

  submit-keeps :
      (attempts : ℕ) (transfer : H → Status × H)
      → Spec P (submit drv attempts transfer) (λ _. P) (FailsWith P)
  unfolding submit
  submit-keeps zero transfer = Spec-pure tt λ i2c p. p
  submit-keeps (suc attempts) transfer =
      Spec-bind _ _ (call-keeps transfer) λ status.
        after_status status (submit drv attempts transfer) (submit-keeps attempts transfer)

  after_wait :
      (came : Option ℕ) (m : M (I2c H) (Unit {0}))
      → Spec P m (λ _. P) (FailsWith P)
      → Spec P
          (elim came [
            | none ↦ pure tt
            | some n ↦ (do calls ← call drv.interrupt_handler; modify (count_interrupts calls); m)
          ])
          (λ _. P)
          (FailsWith P)
  after_wait none m h = Spec-pure tt λ i2c p. p
  after_wait (some n) m h = Spec-bind _ _ (call-keeps drv.interrupt_handler) λ calls.
      Spec-bind _ _ (Spec-modify (count_interrupts calls) λ i2c p. stable i2c i2c.hw _ _ p) λ _. h

  await-keeps :
      (count : I2c H → ℕ) (retries : ℕ) → Spec P (await drv count retries) (λ _. P) (FailsWith P)
  unfolding await
  await-keeps count zero = Spec-pure tt λ i2c p. p
  await-keeps count (suc retries) = Spec-bind _ _ (field-keeps count) λ intrs.
      Spec-if (not (intrs == 0)) _ _ (λ _. Spec-pure tt λ i2c p. p)
        λ _.
          Spec-bind _ _ (call-keeps drv.wait_for_interrupt)
            λ came. after_wait came (await drv count retries) (await-keeps count retries)

  send_loop-keeps :
      (data_bytes : List ℕ) (retries : ℕ)
      → Spec P (send_loop drv data_bytes retries) (λ _. P) (FailsWith P)
  unfolding send_loop
  send_loop-keeps data_bytes zero = Spec-pure 0 λ i2c p. p
  send_loop-keeps data_bytes (suc retries) = Spec-bind _ _ (field-keeps _) λ intrs.
      Spec-if (not (intrs == 0)) _ _ (λ _. Spec-pure (suc retries) λ i2c p. p)
        λ _. Spec-bind _ _ (act-keeps _) λ _.
          Spec-bind _ _ (submit-keeps 2 _)
            λ _. Spec-bind _ _ (await-keeps _ 10) λ _. send_loop-keeps data_bytes retries

  receive_loop-keeps :
      (max_read retries : ℕ) → Spec P (receive_loop drv max_read retries) (λ _. P) (FailsWith P)
  unfolding receive_loop
  receive_loop-keeps max_read zero = Spec-pure 0 λ i2c p. p
  receive_loop-keeps max_read (suc retries) = Spec-bind _ _ (field-keeps _) λ intrs.
      Spec-if (not (intrs == 0)) _ _ (λ _. Spec-pure (suc retries) λ i2c p. p)
        λ _.
          Spec-bind _ _ (submit-keeps 2 _)
            λ _. Spec-bind _ _ (await-keeps _ 10) λ _. receive_loop-keeps max_read retries

  pub driver_write_blocking-keeps :
      (data_bytes : List ℕ) → Spec P (driver_write_blocking drv data_bytes) (λ _. P) (FailsWith P)
  unfolding driver_write_blocking
  driver_write_blocking-keeps data_bytes =
      Spec-bind _ _ (Spec-modify _ λ i2c p. stable i2c i2c.hw _ _ p) λ _.
        Spec-bind _ _ (send_loop-keeps data_bytes 10) λ retries.
          Spec-bind _ _ (expect-keeps _) λ _. Spec-bind _ _ (field-keeps _) λ errors. expect-keeps _

  pub driver_read_blocking-keeps :
      (max_read : ℕ) → Spec P (driver_read_blocking drv max_read) (λ _. P) (FailsWith P)
  unfolding driver_read_blocking
  driver_read_blocking-keeps max_read =
      Spec-bind _ _ (Spec-modify _ λ i2c p. stable i2c i2c.hw _ _ p)
        λ _. Spec-bind _ _ (receive_loop-keeps max_read 10) λ retries. expect-keeps _
