-- ===== src/Dma/SimpleMode.antt =====
-- memcpy of lib/ips/dma.cpp without scatter-gather.
use fpga.Prelude.{
  ℕ, bit_and, Bool, true, false, not, ◌&&◌, Option, none, some, if◌then◌else◌, ltb, ◌==◌, ◌≡◌, refl,
  M, Outcome, returned, threw, stuck, Error, Ensures, Spec, Spec-bind, Spec-pure, Spec-if,
  Spec-throw, pure, throw, ◌>>=◌, runtime_error, out_of_range,
}
use fpga.Dma.{Dma, DmaDriver, Call, Direction, mm2s, s2mm, Completion, fpga_dma_boundary}
use fpga.Dma.Calls.{lock, unlock, call, act, look, field, on_hw}
use fpga.Dma.Simple.{
  align_mask, start_transfer, refuse, transfer_simple, write_simple, read_simple, await_ioc,
  complete_simple, write_complete_simple, halted_mask,
}
use fpga.Dma.Transfer.{buffer_of, read, write, write_complete, memcpy}

-- How a call may fail: in any way.
abbrev pub Any : {H : Type 0} → Option Error → Dma H → Type 0
Any e dma = Unit {0}

-- Properties that depend on neither the lock nor the hardware.
module _ {H : Type 0} (drv : DmaDriver H) (P : Dma H → Type 0)
    (stable : (dma : Dma H) (h : H) (b : Bool)
      → P dma
      → P (record dma { hw = h; locked = b })) where
  lock_keeps : Spec P lock (λ _. P) Any
  unfolding lock
  lock_keeps = record { at = λ dma p. lock_at dma dma.locked p }
    where
      lock_at :
          (dma : Dma H) (b : Bool)
          → P dma
          → Ensures {S = Dma H} {A = Unit {0}}
              (λ _. P)
              Any
              (if b then stuck dma else returned tt (record dma { locked = true }))
      lock_at dma true p = tt
      lock_at dma false p = stable dma dma.hw true p

  unlock_keeps : Spec P unlock (λ _. P) Any
  unfolding unlock
  unlock_keeps = record { at = λ dma p. stable dma dma.hw false p }

  call_keeps : {A : Type 0} (f : Call H A) → Spec P (call f) (λ _. P) Any
  unfolding call
  call_keeps f = record { at = λ dma p. stable dma (f dma.hw).1 dma.locked p }

  act_keeps : (f : H → H) → Spec P (act f) (λ _. P) Any
  unfolding act
  act_keeps f = record { at = λ dma p. stable dma (f dma.hw) dma.locked p }

  look_keeps : {A : Type 0} (f : H → A) → Spec P (look f) (λ _. P) Any
  unfolding look
  look_keeps f = record { at = λ dma p. p }

  field_keeps : {A : Type 0} (f : Dma H → A) → Spec P (field f) (λ _. P) Any
  unfolding field
  field_keeps f = record { at = λ dma p. p }

  on_hw_keeps : {A : Type 0} (m : M H A) → Spec P (on_hw m) (λ _. P) Any
  unfolding on_hw
  on_hw_keeps {A} m = record { at = λ dma p. outcome dma (m dma.hw) p }
    where
      outcome :
          (dma : Dma H) (o : Outcome H A)
          → P dma
          → Ensures
              (λ _. P)
              Any
              (elim o [
                | returned a h ↦ returned a (record dma { hw = h })
                | threw e h ↦ threw e (record dma { hw = h })
                | stuck h ↦ stuck (record dma { hw = h })
              ])
      outcome dma (returned a h) p = stable dma h dma.locked p
      outcome dma (threw e h) p = tt
      outcome dma (stuck h) p = tt

  act_if_keeps : (b : Bool) (f : H → H) → Spec P (if b then act f else pure tt) (λ _. P) Any
  act_if_keeps true f = act_keeps f
  act_if_keeps false f = Spec-pure tt λ dma p. p

  start_transfer_keeps :
      (dir : Direction) (buf len : ℕ) → Spec P (start_transfer drv dir buf len) (λ _. P) Any
  unfolding start_transfer
  start_transfer_keeps dir buf len = Spec-bind _ _ (act_keeps _) λ _.
      Spec-bind _ _ (field_keeps _) λ width. Spec-bind _ _ (act_if_keeps _ _) λ _.
        Spec-bind _ _ (call_keeps _) λ control. Spec-bind _ _ (act_keeps _) λ _.
          Spec-bind _ _ (act_keeps _) λ _. Spec-bind _ _ unlock_keeps λ _. Spec-pure true λ dma p. p

  refuse_keeps : Spec P (refuse drv) (λ _. P) Any
  unfolding refuse
  refuse_keeps = Spec-bind _ _ unlock_keeps λ _. Spec-pure false λ dma p. p

  transfer_simple_keeps :
      (dir : Direction) (buf len : ℕ) → Spec P (transfer_simple drv dir buf len) (λ _. P) Any
  unfolding transfer_simple
  transfer_simple_keeps dir buf len = Spec-bind _ _ lock_keeps λ _.
      Spec-bind _ _ (look_keeps _) λ dre. Spec-bind _ _ (field_keeps _) λ micro.
        Spec-bind _ _ (look_keeps _) λ width.
          Spec-if (not dre && not (bit_and buf (align_mask drv micro width) == 0)) _ _
            (λ _. refuse_keeps)
            λ _. Spec-bind _ _ (call_keeps _) λ status. Spec-bind _ _ (call_keeps _) λ busy.
              Spec-if (bit_and status halted_mask == 0 && busy) _ _ (λ _. refuse_keeps)
                (λ _. start_transfer_keeps dir buf len)

  buffer_of_keeps : (dir : Direction) (space : ℕ) → Spec P (buffer_of drv dir space) (λ _. P) Any
  unfolding buffer_of
  buffer_of_keeps dir space = Spec-bind _ _ (look_keeps _) λ found. buffer_at found
    where
      buffer_at :
          (found : Option ℕ)
          → Spec P
              (elim found [
                | none ↦ throw out_of_range
                | some buf ↦ (if buf == 0 then throw runtime_error else pure buf)
              ])
              (λ (buf : ℕ). P)
              Any
      buffer_at none = Spec-throw out_of_range λ dma p. tt
      buffer_at (some buf) =
          Spec-if _ _ _ (λ _. Spec-throw runtime_error λ dma p. tt) (λ _. Spec-pure buf λ dma p. p)

module _ {H : Type 0} (drv : DmaDriver H) where
  abbrev pub Simple : Dma H → Type 0
  Simple dma = dma.has_sg ≡ false

  Simple-stable :
      (dma : Dma H) (h : H) (b : Bool) → Simple dma → Simple (record dma { hw = h; locked = b })
  Simple-stable dma h b p = p

  -- A branch on the mode, in simple mode.
  by_mode :
      {A : Type 0} {Q : A → Dma H → Type 0} (m n : M (Dma H) A)
      → Spec Simple n Q Any
      → Spec Simple (field (λ dma. dma.has_sg) >>= λ sg. if sg then m else n) Q Any
  unfolding field ◌>>=◌
  by_mode {A} {Q} m n h = record { at = λ dma p. second dma.has_sg dma p (h.at dma p) }
    where
      second :
          (b : Bool) (dma : Dma H)
          → b ≡ false
          → Ensures Q Any (n dma)
          → Ensures Q Any ((if b then m else n) dma)
      second true dma e h = absurd cc
      second false dma e h = h

  read_keeps : (space len : ℕ) → Spec Simple (read drv space len) (λ _. Simple) Any
  unfolding read read_simple
  read_keeps space len =
      Spec-if (len == 0) _ _ (λ _. Spec-pure true λ dma p. p)
        λ _.
          Spec-if (ltb fpga_dma_boundary len) _ _ (λ _. Spec-pure false λ dma p. p)
            λ _.
              Spec-bind _ _ (buffer_of_keeps drv Simple Simple-stable s2mm space)
                λ buf. by_mode _ _ (transfer_simple_keeps drv Simple Simple-stable s2mm buf len)

  write_keeps : (space len : ℕ) → Spec Simple (write drv space len) (λ _. Simple) Any
  unfolding write write_simple
  write_keeps space len =
      Spec-if (len == 0) _ _ (λ _. Spec-pure true λ dma p. p)
        λ _.
          Spec-if (ltb fpga_dma_boundary len) _ _ (λ _. Spec-pure false λ dma p. p)
            λ _.
              Spec-bind _ _ (buffer_of_keeps drv Simple Simple-stable mm2s space)
                λ buf. by_mode _ _ (transfer_simple_keeps drv Simple Simple-stable mm2s buf len)

  anything : {A : Type 0} {P : Dma H → Type 0} (m : M (Dma H) A) → Spec P m (λ _ _. Unit {0}) Any
  anything {A} m = record { at = λ dma p. outcome (m dma) }
    where
      outcome : (o : Outcome (Dma H) A) → Ensures (λ _ _. Unit {0}) Any o
      outcome (returned a s) = tt
      outcome (threw e s) = tt
      outcome (stuck s) = tt

  complete_simple-bds :
      (fuel : ℕ) (dir : Direction)
      → Spec Simple (complete_simple drv fuel dir) (λ done _. done.bds ≡ 0) Any
  unfolding complete_simple
  complete_simple-bds fuel dir = Spec-bind _ _ (anything (await_ioc drv fuel dir 0)) λ interrupts.
      Spec-bind _ _ (anything lock) λ _. Spec-bind _ _ (anything _) λ _.
        Spec-bind _ _ (anything _)
          λ bytes. Spec-bind _ _ (anything unlock) λ _. Spec-pure _ λ dma p. refl

  no_copy :
      (fuel src dst len : ℕ)
      → len == 0 ≡ false
      → Spec Simple (memcpy drv fuel src dst len) (λ ok _. ok ≡ false) Any
  unfolding memcpy write_complete write_complete_simple pure
  no_copy fuel src dst len some_bytes =
      Spec-if (len == 0) _ _ (λ e. absurd cc)
        λ _. Spec-bind _ _ (on_hw_keeps drv Simple Simple-stable drv.connect_loopback) λ connected.
          Spec-if (not connected) _ _ (λ _. Spec-pure false λ dma p. refl)
            λ _. Spec-bind _ _ (read_keeps dst len) λ reading.
              Spec-if (not reading) _ _ (λ _. Spec-pure false λ dma p. refl)
                λ _. Spec-bind _ _ (write_keeps src len) λ writing.
                  Spec-if (not writing) _ _ (λ _. Spec-pure false λ dma p. refl)
                    λ _.
                      Spec-bind _ _ (by_mode _ _ (complete_simple-bds fuel mm2s))
                        λ written. no_bds written _
    where
      no_bds :
          (done : Completion) (m : M (Dma H) Bool)
          → Spec
              (λ _. done.bds ≡ 0)
              (if done.bds == 0 then pure false else m)
              (λ ok _. ok ≡ false)
              Any
      no_bds done m = record { at = λ dma none_done. rw (none_done) refl }

  -- Without scatter-gather, `memcpy` of at least one byte never returns true: where it returns, its
  -- result is false, also where the transfer was made.
  pub memcpy-Simple :
      (fuel src dst len : ℕ) (dma : Dma H)
      → Simple dma
      → len == 0 ≡ false
      → Ensures (λ ok _. ok ≡ false) Any (memcpy drv fuel src dst len dma)
  memcpy-Simple fuel src dst len dma simple some_bytes =
      (no_copy fuel src dst len some_bytes).at dma simple
