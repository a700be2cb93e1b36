-- ===== src/Dma/Bounds.antt =====
-- The addresses that readScatterGather of lib/ips/dma.cpp gives to its descriptors.
use fpga.Prelude.{
  ℕ, zero, suc, ◌+◌, ◌*◌, ◌^◌, ◌≤◌, ◌<◌, Bool, true, false, Option, none, some, stuck, returned,
  if◌then◌else◌, ltb, ◌≡◌, refl, Error, Ensures, Spec, Spec-bind, Spec-throw, Spec-pure, throw,
  runtime_error, ◌>>=◌, arith,
}
use fpga.Dma.{Dma, DmaDriver, Call, s2mm, u64}
use fpga.Dma.Calls.{lock, unlock, call, act, look, field, fail_unlocked, require, require_some}
use fpga.Dma.ScatterGather.{program_bds, submit_read, read_scatter_gather}

-- What the driver's calls keep of a property of the hardware: setting the address of a descriptor
-- keeps it where a message of `msg_size` at that address lies between `low` and `high`.
pub record KeepsInside {H : Type 0} (drv : DmaDriver H) (Good : H → Type 0) (low high msg_size : ℕ)
    : Type 0 where
  pub set_addr :
      (bd addr : ℕ) (h : H)
      → low ≤ addr
      → addr + msg_size ≤ high
      → Good h
      → Good (drv.bd_set_buf_addr bd addr h).1
  pub set_length : (bd max : ℕ) (h : H) → Good h → Good (drv.bd_set_length bd msg_size max h).1
  pub set_ctrl : (bd ctrl : ℕ) (h : H) → Good h → Good (drv.bd_set_ctrl bd ctrl h)
  pub set_id : (bd id : ℕ) (h : H) → Good h → Good (drv.bd_set_id bd id h)
  pub alloc : (n : ℕ) (h : H) → Good h → Good (drv.bd_ring_alloc s2mm n h).1
  pub to_hw : (n bd : ℕ) (h : H) → Good h → Good (drv.bd_ring_to_hw s2mm n bd h).1

module _ {H : Type 0} (Good : H → Type 0) where
  abbrev pub OnHw : Dma H → Type 0
  OnHw dma = Good dma.hw

  abbrev OnHwFail : Option Error → Dma H → Type 0
  OnHwFail e dma = Good dma.hw

  lock-OnHw : Spec OnHw lock (λ _. OnHw) OnHwFail
  unfolding lock
  lock-OnHw = record { at = λ dma g. lock_at dma dma.locked g }
    where
      lock_at :
          (dma : Dma H) (b : Bool)
          → Good dma.hw
          → Ensures {S = Dma H} {A = Unit {0}}
              (λ _. OnHw)
              OnHwFail
              (if b then stuck dma else returned tt (record dma { locked = true }))
      lock_at dma true g = g
      lock_at dma false g = g

  unlock-OnHw : Spec OnHw unlock (λ _. OnHw) OnHwFail
  unfolding unlock
  unlock-OnHw = record { at = λ dma g. g }

  call-OnHw :
      {A : Type 0} (f : Call H A)
      → ((h : H) → Good h → Good (f h).1)
      → Spec OnHw (call f) (λ _. OnHw) OnHwFail
  unfolding call
  call-OnHw f keeps = record { at = λ dma g. keeps dma.hw g }

  act-OnHw : (f : H → H) → ((h : H) → Good h → Good (f h)) → Spec OnHw (act f) (λ _. OnHw) OnHwFail
  unfolding act
  act-OnHw f keeps = record { at = λ dma g. keeps dma.hw g }

  look-OnHw : {A : Type 0} (f : H → A) → Spec OnHw (look f) (λ _. OnHw) OnHwFail
  unfolding look
  look-OnHw f = record { at = λ dma g. g }

  fail-OnHw : {A : Type 0} → Spec OnHw (fail_unlocked {A = A}) (λ _. OnHw) OnHwFail
  unfolding fail_unlocked
  fail-OnHw = Spec-bind _ _ unlock-OnHw λ _. Spec-throw runtime_error λ dma g. g

  require-OnHw : (b : Bool) → Spec OnHw (require b) (λ _. OnHw) OnHwFail
  unfolding require
  require-OnHw true = Spec-pure tt λ dma g. g
  require-OnHw false = fail-OnHw

  require_some-OnHw : (a : Option ℕ) → Spec OnHw (require_some a) (λ _. OnHw) OnHwFail
  unfolding require_some
  require_some-OnHw none = fail-OnHw
  require_some-OnHw (some a) = Spec-pure a λ dma g. g

module _ {H : Type 0} (drv : DmaDriver H) (Good : H → Type 0) {low high msg_size : ℕ}
    (inside : KeepsInside drv Good low high msg_size) (fits : high < 2 ^ 64) where
  program_bds-OnHw :
      (n buf bd addr : ℕ)
      → low ≤ addr
      → addr + n * msg_size ≤ high
      → Spec (OnHw Good) (program_bds drv n msg_size buf bd addr) (λ _. OnHw Good) (OnHwFail Good)
  unfolding program_bds
  program_bds-OnHw zero buf bd addr l u = Spec-pure tt λ dma g. g
  program_bds-OnHw (suc n) buf bd addr l u =
      Spec-bind _ _ (call-OnHw Good _ λ h g. inside.set_addr bd addr h l (omega arith) g) λ a.
        Spec-bind _ _ (require-OnHw Good a) λ _. Spec-bind _ _ (look-OnHw Good _) λ max.
          Spec-bind _ _ (call-OnHw Good _ λ h g. inside.set_length bd max h g) λ b.
            Spec-bind _ _ (require-OnHw Good b) λ _.
              Spec-bind _ _ (act-OnHw Good _ λ h g. inside.set_ctrl bd 0 h g) λ _.
                Spec-bind _ _ (act-OnHw Good _ λ h g. inside.set_id bd buf h g) λ _.
                  Spec-bind _ _ (look-OnHw Good _) λ next_bd.
                    program_bds-OnHw n buf next_bd (u64 (addr + msg_size)) (omega arith)
                      (omega arith)

  submit_read-OnHw :
      (n : ℕ)
      → low + n * msg_size ≤ high
      → Spec (OnHw Good) (submit_read drv n msg_size low) (λ _. OnHw Good) (OnHwFail Good)
  unfolding submit_read
  submit_read-OnHw n room = Spec-bind _ _ (lock-OnHw Good) λ _.
      Spec-bind _ _ (look-OnHw Good _) λ r. Spec-bind _ _ (require-OnHw Good r) λ _.
        Spec-bind _ _ (call-OnHw Good _ λ h g. inside.alloc n h g) λ allocated.
          Spec-bind _ _ (require_some-OnHw Good allocated) λ bd.
            Spec-bind _ _ (program_bds-OnHw n low bd low (omega arith) room) λ _.
              Spec-bind _ _ (call-OnHw Good _ λ h g. inside.to_hw n bd h g) λ e.
                Spec-bind _ _ (require-OnHw Good e)
                  λ _. Spec-bind _ _ (unlock-OnHw Good) λ _. Spec-pure true λ dma g. g

  guarded-OnHw :
      (n len : ℕ) (b : Bool)
      → ltb len (u64 (n * msg_size)) ≡ b
      → n * msg_size < 2 ^ 64
      → high ≡ low + len
      → Spec
          (OnHw Good)
          (if b then throw runtime_error else submit_read drv n msg_size low)
          (λ _. OnHw Good)
          (OnHwFail Good)
  guarded-OnHw n len true e small h = Spec-throw runtime_error λ dma g. g
  guarded-OnHw n len false e small h = submit_read-OnHw n (ground arith)

-- Where the buffer and the descriptors' total length are within 64 bits, a scatter-gather read of
-- `len` bytes at `buf` gives its descriptors only addresses whose whole message lies between `buf`
-- and `buf + len`: whatever the driver's calls keep under that condition, the read keeps, also where it
-- fails.
pub read_scatter_gather-inside :
    {H : Type 0} (drv : DmaDriver H) (Good : H → Type 0) (buf len : ℕ) (dma : Dma H)
    → KeepsInside drv Good buf (buf + len) dma.read_msg_size
    → buf + len < 2 ^ 64
    → dma.read_coalesce * dma.read_msg_size < 2 ^ 64
    → Good dma.hw
    → Ensures
        (λ _ after. Good after.hw)
        (λ _ after. Good after.hw)
        (read_scatter_gather drv buf len dma)
unfolding read_scatter_gather field ◌>>=◌
read_scatter_gather-inside drv Good buf len dma inside fits small good =
    (guarded-OnHw drv Good inside fits dma.read_coalesce len
        (ltb len (u64 (dma.read_coalesce * dma.read_msg_size))) refl small refl).at
      dma good
