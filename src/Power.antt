-- ===== src/Power.antt =====
-- main/utils/power_util.c: the timer that puts the lock to deep sleep.
pub mod Timer
use smart_door_lock_io_t.Common.{
  ℕ, zero, suc, ℤ, pos, Bool, true, false, Option, none, some, if◌then◌else◌,
}
use smart_door_lock_io_t.Platform.{
  Env, timer_query, timer_create, timer_start, timer_stop, sleep_second, enable_wakeup, deep_sleep,
}
use smart_door_lock_io_t.Device.{Exec, pure, call, emit, gets, modify, ◌>>=◌, ◌>>◌}
use smart_door_lock_io_t.Nvs.{error_check}
use smart_door_lock_io_t.LockStatus.{sleep_lock}

-- DEFAULT_SLEEP_TIME, in seconds
abbrev pub default_sleep_time : ℤ
default_sleep_time = pos 20

-- The callback of the timer; the device does not come back from the last call.
unfoldable pub deep_sleep_for_n_seconds : ℤ → Exec (Unit {0})
deep_sleep_for_n_seconds seconds = do emit (enable_wakeup seconds); sleep_lock; emit deep_sleep

module _ (env : Env) where
  -- deep_sleep_timer != NULL && esp_timer_is_active(deep_sleep_timer)
  unfoldable pub asks_timer : Option ℤ → Exec Bool
  asks_timer none = pure false
  asks_timer (some seconds) = call timer_query env.timer_is_active

  unfoldable pub timer_runs : Exec Bool
  timer_runs = do timer ← gets (λ d. d.deep_sleep_timer); asks_timer timer

  -- The `while` loop, with the value of `i`.
  unfoldable pub wait_for_timer : ℕ → Exec (Unit {0})
  wait_for_timer zero = do runs ← timer_runs; pure tt
  wait_for_timer (suc i) = do
    runs ← timer_runs
    if runs then pure tt else (do emit sleep_second; wait_for_timer i)

  unfoldable pub cancel_deep_sleep_timer : Exec (Unit {0})
  cancel_deep_sleep_timer = do
    wait_for_timer 3
    runs ← timer_runs
    if runs then (do err ← call timer_stop env.timer_err; error_check err) else pure tt

  -- A timer that is active stays as it is. The handle of the timer before is lost.
  unfoldable pub start_deep_sleep_timer : ℤ → Exec (Unit {0})
  start_deep_sleep_timer sleep_time = do
    runs ← timer_runs
    if runs then pure tt else (do
      err ← call timer_create env.timer_err
      error_check err
      modify (λ d. record d { deep_sleep_timer = some sleep_time })
      err' ← call timer_start env.timer_err
      error_check err')
