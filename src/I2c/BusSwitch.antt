-- ===== src/I2c/BusSwitch.antt =====
-- lib/ips/i2c.cpp and include/villas/fpga/ips/i2c.hpp: I2c::Switch, and I2c::check, which tests it.
use fpga.Prelude.{
  ℕ, zero, suc, Bool, true, false, not, ◌&&◌, List, [], ◌∷◌, Option, none, some, get_elem?, length,
  if◌then◌else◌, ltb, ◌==◌, M, Outcome, returned, threw, stuck, pure, modify, ◌>>=◌, ◌>>◌,
  runtime_error,
}
use fpga.I2c.{I2c, XiicDriver, switch_addr}
use fpga.I2c.Driver.{field, expect}
use fpga.I2c.Access.{write, read}

-- CHANNEL_MAP
abbrev pub channel_map : List ℕ
channel_map = 0x20 ∷ 0x80 ∷ 0x02 ∷ 0x08 ∷ 0x10 ∷ 0x40 ∷ 0x01 ∷ 0x04 ∷ []

abbrev or_zero : Option ℕ → ℕ
or_zero none = 0
or_zero (some n) = n

-- CHANNEL_MAP[channel]; every channel that is stored is below 8.
abbrev pub channel_byte : ℕ → ℕ
channel_byte channel = or_zero (get_elem? channel_map channel)

-- data[0]
abbrev pub first_byte : List ℕ → ℕ
first_byte [] = 0
first_byte (byte ∷ bytes) = byte

-- The index of the first entry that is the byte.
unfoldable pub channel_of : ℕ → List ℕ → ℕ → Option ℕ
channel_of byte [] i = none
channel_of byte (entry ∷ entries) i =
    if byte == entry then some i else channel_of byte entries (suc i)

module _ {H : Type 0} where
  -- I2c::getSwitch
  unfoldable pub get_switch : M (I2c H) (Unit {0})
  get_switch = modify (λ i2c. record i2c { switch_made = true; switch_address = switch_addr })

  -- `try { ... } catch (const RuntimeError &e) { ... }`
  unfoldable pub on_runtime_error :
      {A : Type 0} → Outcome (I2c H) A → M (I2c H) A → Outcome (I2c H) A
  on_runtime_error (threw runtime_error i2c) handler = handler i2c
  on_runtime_error (threw e i2c) handler = threw e i2c
  on_runtime_error (returned a i2c) handler = returned a i2c
  on_runtime_error (stuck i2c) handler = stuck i2c

  -- I2c::Switch::unlockChannel
  unfoldable pub unlock_channel : M (I2c H) (Unit {0})
  unlock_channel = modify (λ i2c. record i2c { switch_locked = false })

  unfoldable pub lock_switch : M (I2c H) (Unit {0})
  lock_switch i2c =
      if i2c.switch_locked then stuck i2c else returned tt (record i2c { switch_locked = true })

module _ {H : Type 0} (drv : XiicDriver H) where
  -- I2c::Switch::setChannel
  unfoldable pub set_channel : ℕ → M (I2c H) (Unit {0})
  unfolding field expect write
  set_channel channel = do
    expect (ltb channel (length channel_map))
    modify (λ i2c. record i2c { channel = channel; read_once = true })
    address ← field (λ i2c. i2c.switch_address)
    _ ← write drv address (channel_byte channel ∷ [])
    pure tt

  -- I2c::Switch::setAndLockChannel
  unfoldable pub set_and_lock_channel : ℕ → M (I2c H) (Unit {0})
  unfolding lock_switch set_channel
  set_and_lock_channel channel = lock_switch >> set_channel channel

  -- One turn of the loop of getChannel: a read appends to the vector, of which `data[0]` is tested.
  unfoldable pub read_channel_once : List ℕ → M (I2c H) (Bool × List ℕ)
  unfolding field read
  read_channel_once data_bytes = do
    address ← field (λ i2c. i2c.switch_address)
    answer ← read drv address data_bytes 1
    again ← field (λ i2c. i2c.read_once && not (first_byte answer.1 == channel_byte i2c.channel))
    pure (again, answer.1)

  -- The loop of getChannel over `retries`: `none` where `--retries >= 0` ended it, which leaves -1, and
  -- else the retries that are left.
  unfoldable pub read_channel : ℕ → List ℕ → M (I2c H) (Option ℕ × List ℕ)
  unfolding read_channel_once
  read_channel zero data_bytes = do
    answer ← read_channel_once data_bytes
    pure (if answer.0 then none else some 0, answer.1)
  read_channel (suc retries) data_bytes = do
    answer ← read_channel_once data_bytes
    if answer.0 then read_channel retries answer.1 else pure (some (suc retries), answer.1)

  -- `retries == 0`
  abbrev pub out_of_retries : Option ℕ → Bool
  out_of_retries none = false
  out_of_retries (some n) = n == 0

  -- getChannel behind its loop.
  unfoldable pub resolve_channel : ℕ → M (I2c H) ℕ
  unfolding field channel_of
  resolve_channel byte = do
    known ← field (λ i2c. i2c.read_once)
    if known
        then field (λ i2c. i2c.channel)
        else (do modify (found (channel_of byte channel_map 0)); field (λ i2c. i2c.channel))
    where
      found : Option ℕ → I2c H → I2c H
      found none i2c = record i2c { read_once = true }
      found (some i) i2c = record i2c { channel = i; read_once = true }

  -- I2c::Switch::getChannel
  unfoldable pub get_channel : M (I2c H) ℕ
  unfolding expect read_channel resolve_channel
  get_channel = do
    answer ← read_channel 10 []
    expect (not (out_of_retries answer.0))
    resolve_channel (first_byte answer.1)

  -- The body of the `try` of selfTest and its handler.
  unfoldable pub readback : M (I2c H) Bool
  unfolding on_runtime_error get_channel
  readback i2c = on_runtime_error ((get_channel >>= λ _. pure true) i2c) (pure false)

  -- The loop of selfTest, from a channel on. A failed readback returns with the channel locked.
  unfoldable pub test_channels : ℕ → ℕ → M (I2c H) Bool
  unfolding set_and_lock_channel unlock_channel readback
  test_channels zero channel = pure true
  test_channels (suc n) channel = do
    set_and_lock_channel channel
    ok ← readback
    if ok then unlock_channel >> test_channels n (suc channel) else pure false

  -- I2c::Switch::selfTest
  unfoldable pub self_test : M (I2c H) Bool
  unfolding test_channels
  self_test = test_channels (length channel_map) 0

  -- I2c::check
  unfoldable pub check : M (I2c H) Bool
  unfolding field expect get_switch self_test
  check = do initialized ← field (λ i2c. i2c.init_done); expect initialized; get_switch; self_test
