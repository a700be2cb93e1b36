-- ===== src/Dma/Locks/Transfers.antt =====
-- write and read of lib/ips/dma.cpp leave hwLock free.
use fpga.Prelude.{
  ℕ, zero, suc, ◌+◌, bit_and, Bool, true, false, not, ◌&&◌, Option, none, some, if◌then◌else◌, ltb,
  ◌==◌, Ensures, Spec, Spec-bind, Spec-throw, Spec-pure, Spec-if, pure, throw, runtime_error,
  out_of_range,
}
use fpga.Dma.{Dma, DmaDriver, Direction, mm2s, s2mm, u64, fpga_dma_boundary}
use fpga.Dma.Calls.{act}
use fpga.Dma.ScatterGather.{write_scatter_gather, program_bds, submit_read, read_scatter_gather}
use fpga.Dma.Simple.{
  align_mask, start_transfer, refuse, transfer_simple, write_simple, read_simple, halted_mask,
}
use fpga.Dma.Transfer.{buffer_of, write, read}
use fpga.Dma.Locks.{
  Free, Held, FailsFree, lock-Free, call-keeps, act-keeps, look-keeps, field-keeps, require-Held,
  require_some-Held, unlock-pure,
}

module _ {H : Type 0} (drv : DmaDriver H) where
  write_scatter_gather-Free :
      (buf len : ℕ) → Spec Free (write_scatter_gather drv buf len) (λ _. Free) FailsFree
  unfolding write_scatter_gather
  write_scatter_gather-Free buf len = Spec-bind _ _ lock-Free λ _. Spec-bind _ _ (look-keeps _) λ r.
      Spec-bind _ _ (require-Held r) λ _. Spec-bind _ _ (call-keeps _) λ allocated.
        Spec-bind _ _ (require_some-Held allocated) λ bd. Spec-bind _ _ (call-keeps _) λ a.
          Spec-bind _ _ (require-Held a) λ _. Spec-bind _ _ (look-keeps _) λ _.
            Spec-bind _ _ (call-keeps _) λ l. Spec-bind _ _ (require-Held l) λ _.
              Spec-bind _ _ (act-keeps _) λ _. Spec-bind _ _ (act-keeps _) λ _.
                Spec-bind _ _ (call-keeps _)
                  λ e. Spec-bind _ _ (require-Held e) λ _. unlock-pure true

  program_bds-Held :
      (n msg_size buf bd addr : ℕ)
      → Spec Held (program_bds drv n msg_size buf bd addr) (λ _. Held) FailsFree
  unfolding program_bds
  program_bds-Held zero msg_size buf bd addr = Spec-pure tt λ dma p. p
  program_bds-Held (suc n) msg_size buf bd addr = Spec-bind _ _ (call-keeps _) λ a.
      Spec-bind _ _ (require-Held a) λ _. Spec-bind _ _ (look-keeps _) λ _.
        Spec-bind _ _ (call-keeps _) λ l. Spec-bind _ _ (require-Held l) λ _.
          Spec-bind _ _ (act-keeps _) λ _. Spec-bind _ _ (act-keeps _) λ _.
            Spec-bind _ _ (look-keeps _)
              λ next_bd. program_bds-Held n msg_size buf next_bd (u64 (addr + msg_size))

  submit_read-Free :
      (coalesce msg_size buf : ℕ)
      → Spec Free (submit_read drv coalesce msg_size buf) (λ _. Free) FailsFree
  unfolding submit_read
  submit_read-Free coalesce msg_size buf = Spec-bind _ _ lock-Free λ _.
      Spec-bind _ _ (look-keeps _) λ r. Spec-bind _ _ (require-Held r) λ _.
        Spec-bind _ _ (call-keeps _) λ allocated. Spec-bind _ _ (require_some-Held allocated) λ bd.
          Spec-bind _ _ (program_bds-Held coalesce msg_size buf bd buf) λ _.
            Spec-bind _ _ (call-keeps _) λ e. Spec-bind _ _ (require-Held e) λ _. unlock-pure true

  read_scatter_gather-Free :
      (buf len : ℕ) → Spec Free (read_scatter_gather drv buf len) (λ _. Free) FailsFree
  unfolding read_scatter_gather
  read_scatter_gather-Free buf len = Spec-bind _ _ (field-keeps _) λ coalesce.
      Spec-bind _ _ (field-keeps _) λ msg_size.
        Spec-if _ _ _ (λ _. Spec-throw runtime_error λ dma p. p)
          (λ _. submit_read-Free coalesce msg_size buf)

  act_if-Held :
      (b : Bool) (f : H → H) → Spec Held (if b then act f else pure tt) (λ _. Held) FailsFree
  act_if-Held true f = act-keeps f
  act_if-Held false f = Spec-pure tt λ dma p. p

  start_transfer-Free :
      (dir : Direction) (buf len : ℕ)
      → Spec Held (start_transfer drv dir buf len) (λ _. Free) FailsFree
  unfolding start_transfer
  start_transfer-Free dir buf len = Spec-bind _ _ (act-keeps _) λ _.
      Spec-bind _ _ (field-keeps _) λ width. Spec-bind _ _ (act_if-Held _ _) λ _.
        Spec-bind _ _ (call-keeps _) λ control.
          Spec-bind _ _ (act-keeps _) λ _. Spec-bind _ _ (act-keeps _) λ _. unlock-pure true

  refuse-Free : Spec Held (refuse drv) (λ _. Free) FailsFree
  unfolding refuse
  refuse-Free = unlock-pure false

  transfer_simple-Free :
      (dir : Direction) (buf len : ℕ)
      → Spec Free (transfer_simple drv dir buf len) (λ _. Free) FailsFree
  unfolding transfer_simple
  transfer_simple-Free dir buf len = Spec-bind _ _ lock-Free λ _.
      Spec-bind _ _ (look-keeps _) λ dre. Spec-bind _ _ (field-keeps _) λ micro.
        Spec-bind _ _ (look-keeps _) λ width.
          Spec-if (not dre && not (bit_and buf (align_mask drv micro width) == 0)) _ _
            (λ _. refuse-Free)
            λ _. Spec-bind _ _ (call-keeps _) λ status. Spec-bind _ _ (call-keeps _) λ busy.
              Spec-if (bit_and status halted_mask == 0 && busy) _ _ (λ _. refuse-Free)
                (λ _. start_transfer-Free dir buf len)

  buffer_at :
      (found : Option ℕ)
      → Spec Free
          (elim found [
            | none ↦ throw out_of_range
            | some buf ↦ (if buf == 0 then throw runtime_error else pure buf)
          ])
          (λ (buf : ℕ). Free)
          (FailsFree {H = H})
  buffer_at none = Spec-throw out_of_range λ dma p. p
  buffer_at (some buf) =
      Spec-if _ _ _ (λ _. Spec-throw runtime_error λ dma p. p) (λ _. Spec-pure buf λ dma p. p)

  buffer_of-Free :
      (dir : Direction) (space : ℕ) → Spec Free (buffer_of drv dir space) (λ _. Free) FailsFree
  unfolding buffer_of
  buffer_of-Free dir space = Spec-bind _ _ (look-keeps _) λ found. buffer_at found

  write-Free : (space len : ℕ) → Spec Free (write drv space len) (λ _. Free) FailsFree
  unfolding write write_simple
  write-Free space len =
      Spec-if (len == 0) _ _ (λ _. Spec-pure true λ dma p. p)
        λ _.
          Spec-if (ltb fpga_dma_boundary len) _ _ (λ _. Spec-pure false λ dma p. p)
            λ _. Spec-bind _ _ (buffer_of-Free mm2s space) λ buf.
              Spec-bind _ _ (field-keeps _) λ sg.
                Spec-if sg _ _ (λ _. write_scatter_gather-Free buf len)
                  (λ _. transfer_simple-Free mm2s buf len)

  read-Free : (space len : ℕ) → Spec Free (read drv space len) (λ _. Free) FailsFree
  unfolding read read_simple
  read-Free space len =
      Spec-if (len == 0) _ _ (λ _. Spec-pure true λ dma p. p)
        λ _.
          Spec-if (ltb fpga_dma_boundary len) _ _ (λ _. Spec-pure false λ dma p. p)
            λ _. Spec-bind _ _ (buffer_of-Free s2mm space) λ buf.
              Spec-bind _ _ (field-keeps _) λ sg.
                Spec-if sg _ _ (λ _. read_scatter_gather-Free buf len)
                  (λ _. transfer_simple-Free s2mm buf len)

-- From a controller whose lock is free, `write` and `read` of any block and any length come back, with
-- a result or an exception, and the lock is free again.
pub transfer-releases :
    {H : Type 0} (drv : DmaDriver H) (space len : ℕ) (dma : Dma H)
    → Free dma
    → Ensures (λ _. Free) FailsFree (write drv space len dma)
      × Ensures (λ _. Free) FailsFree (read drv space len dma)
transfer-releases drv space len dma free =
    ((write-Free drv space len).at dma free, (read-Free drv space len).at dma free)
