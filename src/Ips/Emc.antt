-- ===== src/Ips/Emc.antt =====
-- lib/ips/emc.cpp: the flash memory. The driver of the flash is a parameter; a buffer is the list of
-- its bytes.
use fpga.Prelude.{
  ℕ, Bool, true, false, not, ◌==◌, List, [], ◌∷◌, length, Option, if◌then◌else◌, ◌≡◌, refl, M, pure,
  run, gets, gets-keeps, ◌>>=◌, sym, ap, ◌∙◌, Error, Ensures, Spec, Spec-bind, Spec-pure, Spec-if,
  Spec-run, Spec-pre, Bool-cases, inl, inr, arith,
}

-- XFlash: each call answers whether it gave XST_SUCCESS. `is_intel` is whether the command set is one
-- of Intel's three.
pub record FlashDriver (H : Type 0) : Type 0 where
  pub initialize : ℕ → H → Bool × H
  pub is_ready : H → Bool
  pub reset : H → Bool × H
  pub is_intel : H → Bool
  pub unlock : ℕ → ℕ → H → Bool × H
  pub erase : ℕ → ℕ → H → Bool × H
  pub write : ℕ → List ℕ → H → Bool × H
  pub read : ℕ → ℕ → H → (Bool × List ℕ) × H

-- The loop that compares the data read against the data written.
unfoldable pub same_bytes : List ℕ → List ℕ → Bool
same_bytes [] bytes = true
same_bytes (v ∷ verify_data) [] = true
same_bytes (v ∷ verify_data) (d ∷ bytes) =
    let rest = same_bytes verify_data bytes in if v == d then rest else false

module _ {H : Type 0} (driver : FlashDriver H) where
  -- EMC::init, at the base address of its registers
  unfoldable pub init : ℕ → M H Bool
  init base = do
    done ← run (driver.initialize base)
    if not done then pure false else gets driver.is_ready

  -- EMC::read; the bytes are what the driver left in the buffer.
  unfoldable pub read : ℕ → ℕ → M H (Bool × List ℕ)
  read offset length = do
    reset ← run driver.reset
    if not reset then pure (false, []) else (do
      answer ← run (driver.read offset length)
      if not answer.0 then pure (false, answer.1) else pure (false, answer.1))

  -- The unlock of an Intel flash.
  unfoldable pub unlock : ℕ → M H Bool
  unlock offset = do
    intel ← gets driver.is_intel
    if intel then run (driver.unlock offset 0) else pure true

  -- The end of flash, behind the write.
  unfoldable pub verify : ℕ → List ℕ → M H Bool
  unfolding same_bytes
  verify start bytes = do
    answer ← run (driver.read start (length bytes))
    if not answer.0 then pure false else pure (same_bytes answer.1 bytes)

  -- EMC::flash
  unfoldable pub flash : ℕ → List ℕ → M H Bool
  unfolding unlock verify
  flash offset bytes = do
    reset ← run driver.reset
    if not reset then pure false else (do
      unlocked ← unlock offset
      if not unlocked then pure false else (do
        erased ← run (driver.erase offset (length bytes))
        if not erased then pure false else (do
          written ← run (driver.write offset bytes)
          if not written then pure false else verify offset bytes)))

  -- EMC::flash, of a file
  unfoldable pub flash_file : {F : Type 0} → (F → List ℕ) → ℕ → F → M H Bool
  unfolding flash
  flash_file contents offset filename = flash offset (contents filename)

-- A flash documents that a read that succeeds gives what it stores, as many bytes as were asked for.
pub record FlashLaws {H : Type 0} (driver : FlashDriver H) : Type 0 where
  pub stored : ℕ → ℕ → H → List ℕ
  pub read-stored :
      (offset n : ℕ) (h : H)
      → (driver.read offset n h).0.0 ≡ true
      → (driver.read offset n h).0.1 ≡ stored offset n (driver.read offset n h).1
  pub stored-length : (offset n : ℕ) (h : H) → length (stored offset n h) ≡ n

same_bytes-eq :
    (verify_data bytes : List ℕ)
    → length verify_data ≡ length bytes
    → same_bytes verify_data bytes ≡ true
    → verify_data ≡ bytes
unfolding same_bytes
same_bytes-eq [] [] l e = refl
same_bytes-eq [] (b ∷ bytes) l e = absurd (omega arith)
same_bytes-eq (v ∷ verify_data) [] l e = absurd (omega arith)
same_bytes-eq (v ∷ verify_data) (b ∷ bytes) l e = elim (Bool-cases (v == b)) [
  | inl same ↦ grind (arith, same_bytes-eq verify_data bytes)
  | inr other ↦ absurd (ground arith)
]

module _ {H : Type 0} (driver : FlashDriver H) (laws : FlashLaws driver) where
  -- The flash stores the bytes at the offset.
  abbrev pub Stores : ℕ → List ℕ → H → Type 0
  Stores offset bytes h = laws.stored offset (length bytes) h ≡ bytes

  abbrev pub Anything : H → Type 0
  Anything h = Unit

  abbrev FailsNever : Option Error → H → Type 0
  FailsNever e h = ⊥

  -- What flash promises.
  abbrev pub Flashed : ℕ → List ℕ → Bool → H → Type 0
  Flashed offset bytes b h = b ≡ true → Stores offset bytes h

  gave_up :
      (offset : ℕ) (bytes : List ℕ) → Spec Anything (pure false) (Flashed offset bytes) FailsNever
  gave_up offset bytes = Spec-pure false (λ h p e. absurd cc)

  -- A step that may fail, in front of the rest.
  step :
      (offset : ℕ) (bytes : List ℕ) (m rest : M H Bool)
      → Spec Anything m (λ _. Anything) FailsNever
      → Spec Anything rest (Flashed offset bytes) FailsNever
      → Spec Anything
          (m >>= λ done. if not done then pure false else rest)
          (Flashed offset bytes)
          FailsNever
  step offset bytes m rest h r =
      Spec-bind _ _ h λ done. Spec-if (not done) _ _ (λ e. gave_up offset bytes) (λ e. r)

  answers : {A : Type 0} (f : H → A × H) → Spec Anything (run f) (λ _. Anything) FailsNever
  answers f = Spec-run f (λ h p. tt)

  unlock-answers : (offset : ℕ) → Spec Anything (unlock driver offset) (λ _. Anything) FailsNever
  unfolding unlock
  unlock-answers offset = Spec-bind _ _ (Spec-pre (gets-keeps driver.is_intel) (λ h p. p)) λ intel.
      Spec-if intel _ _ (λ e. Spec-pre (answers (driver.unlock offset 0)) (λ h p. tt))
        (λ e. Spec-pure true (λ h p. tt))

  verify-Flashed :
      (offset : ℕ) (bytes : List ℕ)
      → Spec Anything (verify driver offset bytes) (Flashed offset bytes) FailsNever
  unfolding verify run pure ◌>>=◌
  verify-Flashed offset bytes = record {
    at = λ h p.
        compared (driver.read offset (length bytes) h) (laws.read-stored offset (length bytes) h);
  }
    where
      compared :
          (answer : (Bool × List ℕ) × H)
          → (answer.0.0 ≡ true → answer.0.1 ≡ laws.stored offset (length bytes) answer.1)
          → Ensures
              (Flashed offset bytes)
              FailsNever
              ((if not answer.0.0 then pure false else pure (same_bytes answer.0.1 bytes)) answer.1)
      compared ((false, read), h) e = λ bad. absurd cc
      compared ((true, read), h) e = λ same.
          sym (e refl)
          ∙ same_bytes-eq read bytes
              (ap length (e refl) ∙ laws.stored-length offset (length bytes) h) same

  -- Where `flash` answers true, the flash memory stores the bytes at the offset. It comes back without
  -- an exception in every case.
  pub flash-Stores :
      (offset : ℕ) (bytes : List ℕ)
      → Spec Anything
          (flash driver offset bytes)
          (λ b h. b ≡ true → Stores offset bytes h)
          FailsNever
  unfolding flash
  flash-Stores offset bytes = step offset bytes _ _ (answers driver.reset) (
      step offset bytes _ _ (unlock-answers offset) (
        step offset bytes _ _ (answers (driver.erase offset (length bytes))) (
          step offset bytes _ _ (answers (driver.write offset bytes))
            (verify-Flashed offset bytes))))
