-- ===== src/I2c/Readback.antt =====
-- What I2c::Switch::getChannel of lib/ips/i2c.cpp makes of its readback, and what readRegister returns.
use fpga.Prelude.{
  ℕ, zero, suc, Bool, true, false, not, ◌&&◌, List, [], Option, if◌then◌else◌, ◌≡◌, refl, M,
  Outcome, returned, threw, stuck, Error, Ensures, Spec, Spec-bind, Spec-pure, Spec-if, Ensures-map,
  ◌>>=◌,
}
use fpga.I2c.{I2c, XiicDriver}
use fpga.I2c.Driver.{call, field, expect, driver_read_blocking}
use fpga.I2c.Access.{lock, unlock, locked_transfer, read, read_register}
use fpga.I2c.BusSwitch.{
  read_channel_once, read_channel, out_of_retries, resolve_channel, get_channel, first_byte,
}
use fpga.I2c.Keeps.{
  FailsWith, Stable, call-keeps, field-keeps, expect-keeps, driver_read_blocking-keeps,
}

-- Where a call fails, anything holds.
abbrev pub AnyEnd : {H : Type 0} → Option Error → I2c H → Type 0
AnyEnd e i2c = Unit {0}

module _ {H : Type 0} where
  anything : {A : Type 0} {P : I2c H → Type 0} (m : M (I2c H) A) → Spec P m (λ _ _. Unit {0}) AnyEnd
  anything {A} m = record { at = λ i2c p. outcome (m i2c) }
    where
      outcome : (o : Outcome (I2c H) A) → Ensures (λ _ _. Unit {0}) AnyEnd o
      outcome (returned a s) = tt
      outcome (threw e s) = tt
      outcome (stuck s) = tt

module _ {H : Type 0} (drv : XiicDriver H) where
  read-false :
      (address max_read : ℕ) (data_bytes : List ℕ) {P : I2c H → Type 0}
      → Spec P (read drv address data_bytes max_read) (λ answer _. answer.0 ≡ false) AnyEnd
  unfolding read
  read-false address max_read data_bytes = Spec-bind _ _ (anything _) λ ready.
      Spec-bind _ _ (anything _) λ _.
        Spec-bind _ _ (anything _)
          λ _. Spec-bind _ _ (anything _) λ bytes. Spec-pure _ λ i2c _. refl

  and_false : (a b : Bool) → b ≡ false → (a && b) ≡ false
  and_false true b e = e
  and_false false b e = refl

  never_true :
      (address reg max_read : ℕ) (data_bytes : List ℕ)
      → Spec
          (λ _. Unit {0})
          (read_register drv address reg data_bytes max_read)
          (λ answer _. answer.0 ≡ false)
          AnyEnd
  unfolding read_register
  never_true address reg max_read data_bytes = Spec-bind _ _ (anything _) λ written.
      Spec-bind _ _ (read-false address max_read data_bytes)
        λ answer. Spec-pure _ λ i2c e. and_false written answer.0 e

  -- A `readRegister` that returns returns false, also where both of its transfers succeeded.
  pub read_register-false :
      (address reg max_read : ℕ) (data_bytes : List ℕ) (i2c : I2c H)
      → Ensures
          (λ answer _. answer.0 ≡ false)
          AnyEnd
          (read_register drv address reg data_bytes max_read i2c)
  read_register-false address reg max_read data_bytes i2c =
      (never_true address reg max_read data_bytes).at i2c tt

module _ {H : Type 0} (drv : XiicDriver H) (channel : ℕ) where
  -- The switch has been set to a channel, which it remembers.
  abbrev pub Recorded : I2c H → Type 0
  Recorded i2c = (i2c.channel ≡ channel) × (i2c.read_once ≡ true)

  Recorded-stable : Stable {H = H} Recorded
  Recorded-stable i2c h sent received p = p

  weaken :
      {A : Type 0} {Q : A → I2c H → Type 0} (m : M (I2c H) A)
      → Spec Recorded m Q (FailsWith Recorded)
      → Spec Recorded m Q AnyEnd
  weaken m h = record {
    at = λ i2c p.
        Ensures-map {X = FailsWith Recorded} (m i2c) (λ a s q. q) (λ e s x. tt) (h.at i2c p);
  }

  lock_at :
      (i2c : I2c H) (b : Bool)
      → Recorded i2c
      → Ensures {S = I2c H} {A = Unit {0}}
          (λ _. Recorded)
          AnyEnd
          (if b then stuck i2c else returned tt (record i2c { locked = true }))
  lock_at i2c true p = tt
  lock_at i2c false p = p

  lock-Recorded : Spec Recorded lock (λ _. Recorded) AnyEnd
  unfolding lock
  lock-Recorded = record { at = λ i2c p. lock_at i2c i2c.locked p }

  unlock-Recorded : Spec Recorded unlock (λ _. Recorded) AnyEnd
  unfolding unlock
  unlock-Recorded = record { at = λ i2c p. p }

  field-Recorded : {A : Type 0} (f : I2c H → A) → Spec Recorded (field f) (λ _. Recorded) AnyEnd
  field-Recorded f = weaken _ (field-keeps drv Recorded Recorded-stable f)

  call-Recorded : {A : Type 0} (f : H → A × H) → Spec Recorded (call f) (λ _. Recorded) AnyEnd
  call-Recorded f = weaken _ (call-keeps drv Recorded Recorded-stable f)

  expect-Recorded : (b : Bool) → Spec Recorded (expect b) (λ _. Recorded) AnyEnd
  expect-Recorded b = weaken _ (expect-keeps drv Recorded Recorded-stable b)

  transfer-Recorded :
      (address max_read : ℕ)
      → Spec Recorded
          (locked_transfer drv address (driver_read_blocking drv max_read))
          (λ _. Recorded)
          AnyEnd
  unfolding locked_transfer
  transfer-Recorded address max_read = Spec-bind _ _ lock-Recorded λ _.
      Spec-bind _ _ (call-Recorded _) λ addressed. Spec-bind _ _ (expect-Recorded addressed) λ _.
        Spec-bind _ _ (call-Recorded _) λ started. Spec-bind _ _ (expect-Recorded started) λ _.
          Spec-bind _ _
            (weaken _ (driver_read_blocking-keeps drv Recorded Recorded-stable max_read))
            λ _.
              Spec-bind _ _ (call-Recorded _)
                λ stopped. Spec-bind _ _ (expect-Recorded stopped) λ _. unlock-Recorded

  read-Recorded :
      (address max_read : ℕ) (data_bytes : List ℕ)
      → Spec Recorded (read drv address data_bytes max_read) (λ _. Recorded) AnyEnd
  unfolding read
  read-Recorded address max_read data_bytes = Spec-bind _ _ (field-Recorded _) λ ready.
      Spec-bind _ _ (expect-Recorded ready) λ _.
        Spec-bind _ _ (transfer-Recorded address max_read)
          λ _. Spec-bind _ _ (field-Recorded _) λ bytes. Spec-pure _ λ i2c p. p

  read_channel_once-Recorded :
      (data_bytes : List ℕ)
      → Spec Recorded (read_channel_once drv data_bytes) (λ _. Recorded) AnyEnd
  unfolding read_channel_once
  read_channel_once-Recorded data_bytes = Spec-bind _ _ (field-Recorded _) λ address.
      Spec-bind _ _ (read-Recorded address 1 data_bytes)
        λ answer. Spec-bind _ _ (field-Recorded _) λ again. Spec-pure _ λ i2c p. p

  read_channel-Recorded :
      (retries : ℕ) (data_bytes : List ℕ)
      → Spec Recorded (read_channel drv retries data_bytes) (λ _. Recorded) AnyEnd
  unfolding read_channel
  read_channel-Recorded zero data_bytes =
      Spec-bind _ _ (read_channel_once-Recorded data_bytes) λ answer. Spec-pure _ λ i2c p. p
  read_channel-Recorded (suc retries) data_bytes =
      Spec-bind _ _ (read_channel_once-Recorded data_bytes) λ answer.
        Spec-if answer.0 _ _ (λ _. read_channel-Recorded retries answer.1)
          (λ _. Spec-pure _ λ i2c p. p)

  resolve_channel-Recorded :
      (byte : ℕ) → Spec Recorded (resolve_channel drv byte) (λ found _. found ≡ channel) AnyEnd
  unfolding resolve_channel field ◌>>=◌
  resolve_channel-Recorded byte = record { at = λ i2c p. known i2c.read_once i2c _ p.1 p.0 }
    where
      known :
          (b : Bool) (i2c : I2c H) (m : M (I2c H) ℕ)
          → b ≡ true
          → i2c.channel ≡ channel
          → Ensures
              (λ found _. found ≡ channel)
              AnyEnd
              ((if b then field (λ s. s.channel) else m) i2c)
      known true i2c m e c = c
      known false i2c m e c = absurd cc

  -- Once a channel has been set, `getChannel` is that channel wherever it returns, whatever bytes the
  -- device answers: a readback of another channel does not show.
  pub get_channel-Recorded :
      (i2c : I2c H)
      → Recorded i2c
      → Ensures (λ found _. found ≡ channel) AnyEnd (get_channel drv i2c)
  unfolding get_channel
  get_channel-Recorded i2c recorded = get_channel_from.at i2c recorded
    where
      get_channel_from : Spec Recorded (get_channel drv) (λ found _. found ≡ channel) AnyEnd
      get_channel_from = Spec-bind _ _ (read_channel-Recorded 10 []) λ answer.
          Spec-bind _ _ (expect-Recorded (not (out_of_retries drv answer.0)))
            λ _. resolve_channel-Recorded (first_byte answer.1)
