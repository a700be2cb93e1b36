-- ===== src/Ips/Timer.antt =====
-- lib/ips/timer.cpp: the timer, with the interrupt controller that it was given.
use fpga.Prelude.{
  ℕ, Bool, true, false, not, ◌==◌, ℤ, pos, negsuc, if◌then◌else◌, M, pure, modify, gets, run, ◌>>=◌,
  ◌>>◌,
}

-- XTmrCtr and the interrupt controller; `wait_for_interrupt` is cast to an int.
pub record TimerDriver (H : Type 0) : Type 0 where
  pub cfg_initialize : H → H
  pub init_hw : H → H
  pub has_irq : H → Bool
  pub enable_interrupt : Bool → H → H
  pub disable_interrupt : H → H
  pub wait_for_interrupt : H → ℤ × H
  pub set_options : H → H
  pub set_reset_value : ℕ → H → H
  pub start_timer : H → H
  pub get_value : H → ℕ × H

module _ {H : Type 0} (driver : TimerDriver H) where
  -- Timer::init
  unfoldable pub init : M H Bool
  init = do
    modify driver.cfg_initialize
    modify driver.init_hw
    found ← gets driver.has_irq
    if not found then pure false else (modify driver.disable_interrupt >> pure true)

  -- Timer::start
  unfoldable pub start : ℕ → M H Bool
  start ticks = do
    modify (driver.enable_interrupt false)
    modify driver.set_options
    modify (driver.set_reset_value ticks)
    modify driver.start_timer
    pure true

  -- Timer::wait
  unfoldable pub wait : M H Bool
  wait = do
    count ← run driver.wait_for_interrupt
    modify driver.disable_interrupt
    pure (elim count [ pos n ↦ n == 1 | negsuc n ↦ false ])

  -- Timer::remaining
  unfoldable pub remaining : M H ℕ
  remaining = run driver.get_value

  -- Timer::isRunning
  unfoldable pub is_running : M H Bool
  unfolding remaining
  is_running = do left ← remaining; pure (not (left == 0))

  -- Timer::isFinished
  unfoldable pub is_finished : M H Bool
  unfolding remaining
  is_finished = do left ← remaining; pure (left == 0)
