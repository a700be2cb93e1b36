-- ===== src/I2c/Access.antt =====
-- lib/ips/i2c.cpp: init, reset, write, read and readRegister.
use fpga.Prelude.{
  ℕ, zero, suc, Bool, true, false, not, ◌&&◌, List, [], ◌∷◌, ◌++◌, if◌then◌else◌, M, pure, throw,
  modify, ◌>>=◌, ◌>>◌, runtime_error, returned, stuck,
}
use fpga.I2c.{I2c, XiicDriver}
use fpga.I2c.Driver.{call, act, field, expect, driver_write_blocking, driver_read_blocking}

module _ {H : Type 0} where
  -- hwLock
  unfoldable pub lock : M (I2c H) (Unit {0})
  lock i2c = if i2c.locked then stuck i2c else returned tt (record i2c { locked = true })

  unfoldable pub unlock : M (I2c H) (Unit {0})
  unlock i2c = returned tt (record i2c { locked = false })

module _ {H : Type 0} (drv : XiicDriver H) where
  -- I2c::init
  unfoldable pub init : M (I2c H) Bool
  unfolding lock unlock call act field expect
  init = do
    configured ← field (λ i2c. i2c.config_done)
    initialized ← field (λ i2c. i2c.init_done)
    if not configured
        then throw runtime_error
        else (if initialized then pure true else (do
          lock
          ok ← call drv.cfg_initialize
          expect ok
          act drv.enable_interrupt
          unlock
          modify (λ i2c. record i2c { init_done = true })
          pure true))

  -- I2c::reset
  unfoldable pub reset : M (I2c H) Bool
  unfolding act
  reset = do
    act drv.reset
    act drv.disable_interrupt
    modify (λ i2c. record i2c { init_done = false })
    pure true

  -- write and read between the test of `initDone` and the unlock: an error throws with the lock held.
  unfoldable pub locked_transfer : ℕ → M (I2c H) (Unit {0}) → M (I2c H) (Unit {0})
  unfolding lock unlock call expect
  locked_transfer address transfer = do
    lock
    addressed ← call (drv.set_address address)
    expect addressed
    started ← call drv.start
    expect started
    transfer
    stopped ← call drv.stop
    expect stopped
    unlock

  -- I2c::write
  unfoldable pub write : ℕ → List ℕ → M (I2c H) Bool
  unfolding field expect locked_transfer driver_write_blocking
  write address data_bytes = do
    initialized ← field (λ i2c. i2c.init_done)
    expect initialized
    locked_transfer address (driver_write_blocking drv data_bytes)
    pure true

  -- The bytes at the pointer, from an index on.
  unfoldable pub received_from : ℕ → ℕ → H → List ℕ
  received_from i zero h = []
  received_from i (suc n) h = drv.received i h ∷ received_from (suc i) n h

  -- I2c::read, with the vector that it leaves: `data` and the `max_read` bytes behind it. The result
  -- is XST_SUCCESS, which is 0.
  unfoldable pub read : ℕ → List ℕ → ℕ → M (I2c H) (Bool × List ℕ)
  unfolding field expect locked_transfer driver_read_blocking received_from
  read address data_bytes max_read = do
    initialized ← field (λ i2c. i2c.init_done)
    expect initialized
    locked_transfer address (driver_read_blocking drv max_read)
    bytes ← field (λ i2c. received_from 0 max_read i2c.hw)
    pure (false, data_bytes ++ bytes)

  -- I2c::readRegister
  unfoldable pub read_register : ℕ → ℕ → List ℕ → ℕ → M (I2c H) (Bool × List ℕ)
  unfolding write read
  read_register address reg data_bytes max_read = do
    written ← write address (reg ∷ [])
    answer ← read address data_bytes max_read
    pure (written && answer.0, answer.1)
