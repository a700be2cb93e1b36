-- ===== src/Dma/Calls.antt =====
-- How the methods of the DMA controller call the driver and take `hwLock`.
use fpga.Prelude.{
  ℕ, Bool, true, false, Option, none, some, if◌then◌else◌, M, returned, threw, stuck, pure, throw,
  ◌>>◌, runtime_error,
}
use fpga.Dma.{Dma, Call}

module _ {H : Type 0} where
  -- hwLock.lock(): a second lock by the thread that holds it does not come back.
  unfoldable pub lock : M (Dma H) (Unit {0})
  lock dma = if dma.locked then stuck dma else returned tt (record dma { locked = true })

  unfoldable pub unlock : M (Dma H) (Unit {0})
  unlock dma = returned tt (record dma { locked = false })

  -- A call of the driver that answers.
  unfoldable pub call : {A : Type 0} → Call H A → M (Dma H) A
  call f dma = returned (f dma.hw).0 (record dma { hw = (f dma.hw).1 })

  -- A call of the driver that does not.
  unfoldable pub act : (H → H) → M (Dma H) (Unit {0})
  act f dma = returned tt (record dma { hw = f dma.hw })

  -- A reading of the driver's state.
  unfoldable pub look : {A : Type 0} → (H → A) → M (Dma H) A
  look f dma = returned (f dma.hw) dma

  -- A reading of the members.
  unfoldable pub field : {A : Type 0} → (Dma H → A) → M (Dma H) A
  field f dma = returned (f dma) dma

  -- A call of another component, which may throw or not come back.
  unfoldable pub on_hw : {A : Type 0} → M H A → M (Dma H) A
  on_hw m dma = elim (m dma.hw) [
    | returned a h ↦ returned a (record dma { hw = h })
    | threw e h ↦ threw e (record dma { hw = h })
    | stuck h ↦ stuck (record dma { hw = h })
  ]

  -- `hwLock.unlock(); throw RuntimeError(...)`
  unfoldable pub fail_unlocked : {A : Type 0} → M (Dma H) A
  unfolding unlock
  fail_unlocked = unlock >> throw runtime_error

  -- `if (not ok) { hwLock.unlock(); throw RuntimeError(...); }`
  unfoldable pub require : Bool → M (Dma H) (Unit {0})
  unfolding fail_unlocked
  require true = pure tt
  require false = fail_unlocked

  -- The same where a pointer is to be other than null.
  unfoldable pub require_some : Option ℕ → M (Dma H) ℕ
  unfolding fail_unlocked
  require_some none = fail_unlocked
  require_some (some a) = pure a
