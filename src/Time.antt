-- ===== src/Time.antt =====
-- main/utils/time_util.c. The clock and the calendar are the platform's; logging is left out.
use smart_door_lock_io_t.Common.{ℕ, zero, suc, ◌-◌, ℤ, pos, Bool, ltb_ℤ, if◌then◌else◌}
use smart_door_lock_io_t.Platform.{Env, read_time, init_sync, poll_sync, delay}
use smart_door_lock_io_t.Device.{Exec, pure, call, emit, ◌>>=◌, ◌>>◌}

module _ (env : Env) where
  -- time(&now)
  unfoldable pub read_clock : Exec ℤ
  read_clock = call read_time env.time

  -- tm_year counts from 1900.
  unfoldable pub is_time_valid : Exec Bool
  is_time_valid = do now ← read_clock; pure (ltb_ℤ (pos (2016 - 1900)) (env.tm_year now))

  -- The loop of `obtain_time`, by the rounds left: `++retry < retry_count` lets it run fourteen times.
  unfoldable pub wait_for_sync : ℕ → Exec (Unit {0})
  wait_for_sync zero = do call poll_sync env.sync_is_reset; pure tt
  wait_for_sync (suc rounds) =
      let rest = wait_for_sync rounds in
      do reset ← call poll_sync env.sync_is_reset; if reset then (do emit delay; rest) else pure tt

  unfoldable pub obtain_time : Exec (Unit {0})
  obtain_time = do
    valid ← is_time_valid
    if valid then pure tt else do emit init_sync; wait_for_sync 14; read_clock; pure tt

  unfoldable pub get_now_timestamp : Exec ℤ
  get_now_timestamp = do
    now ← read_clock
    valid ← is_time_valid
    if valid then pure now else do obtain_time; read_clock

  unfoldable pub get_today_timestamp : Exec ℤ
  get_today_timestamp = do now ← get_now_timestamp; pure (env.midnight now)

  unfoldable pub get_today_weekday : Exec ℕ
  get_today_weekday = do today ← get_today_timestamp; pure (env.tm_wday today)
