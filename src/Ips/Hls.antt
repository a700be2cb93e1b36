-- ===== src/Ips/Hls.antt =====
-- include/villas/fpga/ips/hls.hpp: what the HLS cores share. The fields of their registers are a
-- parameter.
use fpga.Prelude.{
  Bool, true, false, not, if◌then◌else◌, ◌≡◌, M, pure, run, modify, gets, ◌>>=◌, ◌>>◌, refl,
  Ensures, returned,
}

-- The fields of ControlRegister, GlobalIntRegister and IpIntRegister: one field is read or written.
pub record HlsRegisters (H : Type 0) : Type 0 where
  pub set_ap_start : Bool → H → H
  pub set_auto_restart : Bool → H → H
  pub set_global_interrupt : Bool → H → H
  pub set_ready_interrupt : Bool → H → H
  pub set_done_interrupt : Bool → H → H
  pub get_ap_idle : H → Bool × H
  pub get_ap_ready : H → Bool × H
  pub get_ap_done : H → Bool × H
  pub get_auto_restart : H → Bool × H

-- Hls, with the state of its registers.
pub record Hls (H : Type 0) : Type 0 where
  pub hw : H
  pub running : Bool

module _ {H : Type 0} (registers : HlsRegisters H) where
  unfoldable pub put : (H → H) → M (Hls H) (Unit {0})
  put f = modify (λ s. record s { hw = f s.hw })

  unfoldable pub bit : (H → Bool × H) → M (Hls H) Bool
  bit f = run (λ s. let r = f s.hw in (r.0, record s { hw = r.1 }))

  -- Hls::setAutoRestart
  unfoldable pub set_auto_restart : Bool → M (Hls H) (Unit {0})
  unfolding put
  set_auto_restart enabled = put (registers.set_auto_restart enabled)

  -- Hls::setGlobalInterrupt
  unfoldable pub set_global_interrupt : Bool → M (Hls H) (Unit {0})
  unfolding put
  set_global_interrupt enabled = put (registers.set_global_interrupt enabled)

  -- Hls::setReadyInterrupt
  unfoldable pub set_ready_interrupt : Bool → M (Hls H) (Unit {0})
  unfolding put
  set_ready_interrupt enabled = put (registers.set_ready_interrupt enabled)

  -- Hls::setDoneInterrupt
  unfoldable pub set_done_interrupt : Bool → M (Hls H) (Unit {0})
  unfolding put
  set_done_interrupt enabled = put (registers.set_done_interrupt enabled)

  -- Hls::isIdleBit
  unfoldable pub is_idle_bit : M (Hls H) Bool
  unfolding bit
  is_idle_bit = bit registers.get_ap_idle

  -- Hls::isReadyBit
  unfoldable pub is_ready_bit : M (Hls H) Bool
  unfolding bit
  is_ready_bit = bit registers.get_ap_ready

  -- Hls::isDoneBit
  unfoldable pub is_done_bit : M (Hls H) Bool
  unfolding bit
  is_done_bit = bit registers.get_ap_done

  -- Hls::isAutoRestartBit
  unfoldable pub is_auto_restart_bit : M (Hls H) Bool
  unfolding bit
  is_auto_restart_bit = bit registers.get_auto_restart

  -- Hls::init, behind the addresses of the registers
  unfoldable pub init : M (Hls H) Bool
  unfolding set_auto_restart set_global_interrupt
  init = set_auto_restart false >> set_global_interrupt false >> pure true

  -- Hls::start
  unfoldable pub start : M (Hls H) Bool
  unfolding put
  start =
      put (registers.set_ap_start true) >> modify (λ s. record s { running = true }) >> pure true

  -- Hls::updateRunningStatus
  unfoldable pub update_running_status : M (Hls H) (Unit {0})
  unfolding is_idle_bit
  update_running_status = do
    running ← gets (λ s. s.running)
    if running
        then (do
          idle ← is_idle_bit
          if idle then modify (λ s. record s { running = false }) else pure tt)
        else pure tt

  -- Hls::isFinished
  unfoldable pub is_finished : M (Hls H) Bool
  unfolding update_running_status
  is_finished = do update_running_status; gets (λ s. not s.running)

  -- Hls::isRunning
  unfoldable pub is_running : M (Hls H) Bool
  unfolding update_running_status
  is_running = do update_running_status; gets (λ s. s.running)

  -- Once `isFinished` has answered true, it goes on to, without a look at the hardware.
  pub is_finished-stays :
      (s : Hls H)
      → Ensures (λ b s'. b ≡ true → is_finished s' ≡ returned true s') (λ _ _. ⊥) (is_finished s)
  unfolding is_finished bit run modify gets pure ◌>>=◌
  is_finished-stays s = from s.running s.hw
    where
      idle :
          (b : Bool) (h : H)
          → Ensures
              (λ b s'. b ≡ true → is_finished s' ≡ returned true s')
              (λ _ _. ⊥)
              (((if b then modify (λ s. record s { running = false }) else pure tt) >>= λ _.
                  gets (λ s. not s.running))
                (record { hw = h; running = true }))
      idle true h = λ e. refl
      idle false h = λ e. absurd cc

      from :
          (running : Bool) (h : H)
          → Ensures
              (λ b s'. b ≡ true → is_finished s' ≡ returned true s')
              (λ _ _. ⊥)
              (is_finished (record { hw = h; running = running }))
      from true h = idle (registers.get_ap_idle h).0 (registers.get_ap_idle h).1
      from false h = λ e. refl
