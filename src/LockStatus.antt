-- ===== src/LockStatus.antt =====
-- main/utils/lock_status.c: the lock and its LED; and `get_lock_state` of main/utils/nvs_util.c.
pub mod Led
pub mod Cell
use smart_door_lock_io_t.Common.{ℕ, ℤ, true, if◌then◌else◌}
use smart_door_lock_io_t.Types.{
  LockState, locked, unlocked, lock_code, lock_state_of, LedStatus, led_idle, led_locked,
  led_unlocked, led_sleep,
}
use smart_door_lock_io_t.Platform.{
  Env, EspErr, is_ok, led_init, led_clear, led_refresh, led_pixel, read_lock_state,
}
use smart_door_lock_io_t.Device.{
  Exec, uninitialised, pure, raise, call, emit, gets, modify, ◌>>=◌, ◌>>◌,
}
use smart_door_lock_io_t.Nvs.{is_not_found, init_nvs, open_nvs, set_lock_state}

-- color_from_status
abbrev pub color_from_status : LedStatus → ℕ × ℕ × ℕ
color_from_status led_idle = (10, 10, 0)
color_from_status led_locked = (0, 0, 10)
color_from_status led_unlocked = (0, 10, 0)
color_from_status led_sleep = (0, 0, 0)

unfoldable pub configure_led : Exec (Unit {0})
configure_led = do
  configured ← gets (λ d. d.led_configured)
  if configured
      then pure tt
      else do modify (λ d. record d { led_configured = true }); emit led_init; emit led_clear

unfoldable pub change_led_color : ℕ × ℕ × ℕ → Exec (Unit {0})
change_led_color (r, g, b) = do emit (led_pixel r g b); emit led_refresh

unfoldable pub update_led_color : Exec (Unit {0})
update_led_color = do
  configured ← gets (λ d. d.led_configured)
  if configured then pure tt else configure_led
  status ← gets (λ d. d.led_status)
  change_led_color (color_from_status status)

unfoldable pub set_led_status : LedStatus → Exec (Unit {0})
set_led_status s = do modify (λ d. record d { led_status = s }); update_led_color

unfoldable pub disconnect_lock : Exec (Unit {0})
disconnect_lock = set_led_status led_idle

unfoldable pub sleep_lock : Exec (Unit {0})
sleep_lock = set_led_status led_sleep

module _ (env : Env) where
  unfoldable pub lock_lock : Exec (Unit {0})
  lock_lock = do set_lock_state env locked; set_led_status led_locked

  unfoldable pub unlock_lock : Exec (Unit {0})
  unlock_lock = do set_lock_state env unlocked; set_led_status led_unlocked

  -- An error of `init_nvs` or `open_nvs` is returned as a lock state, by its number. Where the read
  -- fails otherwise, the variable that is returned has no value.
  unfoldable pub get_lock_state : (EspErr → ℤ) → Exec LockState
  get_lock_state number = do
    err ← init_nvs env
    if is_ok err
        then (do
          opened ← open_nvs env
          if is_ok opened
              then (do
                (res, value) ← call read_lock_state env.stored_lock_state
                if is_ok res
                    then pure (lock_state_of value)
                    else if is_not_found res
                    then (do lock_lock; pure locked)
                    else raise uninitialised)
              else pure (lock_code (number opened)))
        else pure (lock_code (number err))
