-- ===== src/I2c/Locks.antt =====
-- hwLock in lib/ips/i2c.cpp: a transfer that fails keeps it.
use fpga.Prelude.{
  ℕ, Bool, true, false, List, Option, if◌then◌else◌, ◌≡◌, refl, M, returned, stuck, Error, Ensures,
  Spec, Spec-bind, Spec-throw, Spec-pure, runtime_error,
}
use fpga.I2c.{I2c, XiicDriver}
use fpga.I2c.Driver.{field, expect, driver_write_blocking, driver_read_blocking}
use fpga.I2c.Access.{lock, unlock, locked_transfer, write, read}
use fpga.I2c.Keeps.{
  FailsWith, Stable, call-keeps, expect-keeps, driver_write_blocking-keeps,
  driver_read_blocking-keeps,
}

module _ {H : Type 0} where
  abbrev pub Free : I2c H → Type 0
  Free i2c = i2c.locked ≡ false

  abbrev pub Held : I2c H → Type 0
  Held i2c = i2c.locked ≡ true

  -- How a transfer fails: with a runtime error that leaves the lock taken.
  abbrev pub FailsHeld : Option Error → I2c H → Type 0
  FailsHeld = FailsWith Held

  lock_at :
      (i2c : I2c H) (b : Bool)
      → b ≡ false
      → Ensures {S = I2c H} {A = Unit {0}}
          (λ _. Held)
          FailsHeld
          (if b then stuck i2c else returned tt (record i2c { locked = true }))
  lock_at i2c true h = absurd cc
  lock_at i2c false h = refl

  lock-Free : Spec Free lock (λ _. Held) FailsHeld
  unfolding lock
  lock-Free = record { at = λ i2c free. lock_at i2c i2c.locked free }

  unlock-Held : Spec Held unlock (λ _. Free) FailsHeld
  unfolding unlock
  unlock-Held = record { at = λ i2c held. refl }

  Held-stable : Stable {H = H} Held
  Held-stable i2c h sent received held = held

module _ {H : Type 0} (drv : XiicDriver H) where
  locked_transfer-Free :
      (address : ℕ) (transfer : M (I2c H) (Unit {0}))
      → Spec Held transfer (λ _. Held) FailsHeld
      → Spec Free (locked_transfer drv address transfer) (λ _. Free) FailsHeld
  unfolding locked_transfer
  locked_transfer-Free address transfer h = Spec-bind _ _ lock-Free λ _.
      Spec-bind _ _ (call-keeps drv Held Held-stable _) λ addressed.
        Spec-bind _ _ (expect-keeps drv Held Held-stable addressed) λ _.
          Spec-bind _ _ (call-keeps drv Held Held-stable _) λ started.
            Spec-bind _ _ (expect-keeps drv Held Held-stable started) λ _. Spec-bind _ _ h λ _.
              Spec-bind _ _ (call-keeps drv Held Held-stable _) λ stopped.
                Spec-bind _ _ (expect-keeps drv Held Held-stable stopped) λ _. unlock-Held

  abbrev Ready : I2c H → Type 0
  Ready i2c = (i2c.init_done ≡ true) × Free i2c

  test_init :
      Spec Ready (field (λ i2c. i2c.init_done)) (λ ready i2c. (ready ≡ true) × Free i2c) FailsHeld
  unfolding field
  test_init = record { at = λ i2c p. p }

  pass_init :
      (ready : Bool)
      → Spec (λ i2c. (ready ≡ true) × Free i2c) (expect ready) (λ _. Free) (FailsHeld {H = H})
  unfolding expect
  pass_init true = Spec-pure tt λ i2c p. p.1
  pass_init false = Spec-throw runtime_error λ i2c p. absurd cc

  read_bytes : {A : Type 0} (f : I2c H → A) → Spec Free (field f) (λ _. Free) FailsHeld
  unfolding field
  read_bytes f = record { at = λ i2c p. p }

  write-Ready :
      (address : ℕ) (data_bytes : List ℕ)
      → Spec Ready (write drv address data_bytes) (λ ok i2c. (ok ≡ true) × Free i2c) FailsHeld
  unfolding write
  write-Ready address data_bytes = Spec-bind _ _ test_init λ ready.
      Spec-bind _ _ (pass_init ready) λ _.
        Spec-bind _ _
          (locked_transfer-Free address (driver_write_blocking drv data_bytes)
            (driver_write_blocking-keeps drv Held Held-stable data_bytes))
          λ _. Spec-pure true λ i2c free. (refl, free)

  read-Ready :
      (address max_read : ℕ) (data_bytes : List ℕ)
      → Spec Ready
          (read drv address data_bytes max_read)
          (λ answer i2c. (answer.0 ≡ false) × Free i2c)
          FailsHeld
  unfolding read
  read-Ready address max_read data_bytes = Spec-bind _ _ test_init λ ready.
      Spec-bind _ _ (pass_init ready) λ _.
        Spec-bind _ _
          (locked_transfer-Free address (driver_read_blocking drv max_read)
            (driver_read_blocking-keeps drv Held Held-stable max_read))
          λ _. Spec-bind _ _ (read_bytes _) λ bytes. Spec-pure _ λ i2c free. (refl, free)

  -- From an initialised controller whose lock is free, `write` returns true and `read` returns false,
  -- which is XST_SUCCESS, with the lock free; or they throw a runtime error and keep the lock.
  pub transfer-lock :
      (address max_read : ℕ) (data_bytes : List ℕ) (i2c : I2c H)
      → i2c.init_done ≡ true
      → Free i2c
      → Ensures (λ ok after. (ok ≡ true) × Free after) FailsHeld (write drv address data_bytes i2c)
        × Ensures
            (λ answer after. (answer.0 ≡ false) × Free after)
            FailsHeld
            (read drv address data_bytes max_read i2c)
  transfer-lock address max_read data_bytes i2c ready free = (
    (write-Ready address data_bytes).at i2c (ready, free),
    (read-Ready address max_read data_bytes).at i2c (ready, free),
  )
