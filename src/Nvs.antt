-- ===== src/Nvs.antt =====
-- main/utils/nvs_util.c: the authorizations, the lock state and the Wi-Fi credentials in flash. `get_lock_state` is in
-- LockStatus, since it calls `lock_lock`.
pub mod Flash
use smart_door_lock_io_t.Common.{
  Bytes, Bool, true, false, Option, none, some, ◌||◌, ◌==◌, if◌then◌else◌,
}
use smart_door_lock_io_t.Types.{Authorization, LockState}
use smart_door_lock_io_t.Platform.{
  Env, EspErr, esp_ok, not_found, no_free_pages, new_version, is_ok, flash_init, flash_erase,
  nvs_open, nvs_commit, nvs_close, read_auth_size, read_auth, erase_auth, write_auth,
  write_lock_state, read_wifi_size, read_wifi, write_wifi, erase_wifi,
}
use smart_door_lock_io_t.Device.{
  Exec, aborted, use_after_free, uninitialised, pure, raise, call, emit, ◌>>=◌, ◌>>◌,
}

-- ESP_ERROR_CHECK
abbrev pub error_check : EspErr → Exec (Unit {0})
error_check esp_ok = pure tt
error_check _ = raise aborted

abbrev pub needs_erase : EspErr → Bool
needs_erase no_free_pages = true
needs_erase new_version = true
needs_erase _ = false

abbrev pub is_not_found : EspErr → Bool
is_not_found not_found = true
is_not_found _ = false

-- The memory of the `authorization` that the caller allocated.
pub data Buffer : Type 0 where
  unwritten freed : Buffer
  filled : Authorization → Buffer

-- Reading the structure.
unfoldable pub contents : Buffer → Exec Authorization
contents unwritten = raise uninitialised
contents freed = raise use_after_free
contents (filled auth) = pure auth

module _ (env : Env) where
  unfoldable pub init_nvs : Exec EspErr
  init_nvs = do
    err ← call flash_init env.flash_init_err
    if needs_erase err
        then (do
          erased ← call flash_erase env.flash_erase_err
          error_check erased
          again ← call flash_init env.flash_init_err
          error_check again
          pure again)
        else (do error_check err; pure err)

  unfoldable pub open_nvs : Exec EspErr
  open_nvs = call nvs_open env.open_err

  -- `init_nvs` and `open_nvs`, with the early returns of their callers.
  unfoldable pub with_nvs : Exec EspErr → Exec EspErr
  with_nvs body = do
    err ← init_nvs
    if is_ok err
        then (do opened ← open_nvs; if is_ok opened then body else pure opened)
        else pure err

  -- A write, its commit and the close, with the early returns.
  unfoldable pub write_and_commit : Exec EspErr → Exec EspErr
  write_and_commit write = with_nvs do
    written ← write
    if is_ok written
        then (do
          committed ← call nvs_commit env.commit_err
          if is_ok committed then (do emit nvs_close; pure committed) else pure committed)
        else pure written

  -- The handle is not closed on any path. `free` comes before the second error is returned.
  unfoldable pub read_authorization : Bytes → Exec (EspErr × Buffer)
  read_authorization phone_id = do
    (err, size) ← call (read_auth_size phone_id) (λ t. env.auth_size t phone_id)
    if is_ok err || is_not_found err
        then (if size == 0 then pure (err, unwritten) else do
          (err', auth) ← call (read_auth phone_id) (λ t. env.auth_blob t phone_id)
          pure (if is_ok err' then (err', filled auth) else (err', freed)))
        else pure (err, unwritten)

  unfoldable pub get_authorization : Bytes → Exec (EspErr × Buffer)
  get_authorization phone_id = do
    err ← init_nvs
    if is_ok err
        then (do
          opened ← open_nvs
          if is_ok opened then read_authorization phone_id else pure (opened, unwritten))
        else pure (err, unwritten)

  unfoldable pub set_authorization : Authorization → Exec EspErr
  set_authorization auth =
      write_and_commit (call (write_auth auth) (λ t. env.auth_write_err t auth.phone_id))

  unfoldable pub delete_authorization : Bytes → Exec EspErr
  delete_authorization phone_id =
      write_and_commit (call (erase_auth phone_id) (λ t. env.auth_erase_err t phone_id))

  unfoldable pub set_lock_state : LockState → Exec EspErr
  set_lock_state state = write_and_commit (call (write_lock_state state) env.write_err)

  -- The saved Wi-Fi credentials, as bytes; `none` where the caller's structure is not written.
  unfoldable pub read_saved_wifi : Exec (EspErr × Option Bytes)
  read_saved_wifi = do
    (err, size) ← call read_wifi_size env.wifi_size
    if is_ok err || is_not_found err
        then (if size == 0 then pure (err, none) else do
          (err', wifi_config) ← call read_wifi env.wifi_blob
          pure (if is_ok err' then (err', some wifi_config) else (err', none)))
        else pure (err, none)

  unfoldable pub get_saved_wifi : Exec (EspErr × Option Bytes)
  get_saved_wifi = do
    err ← init_nvs
    if is_ok err
        then (do opened ← open_nvs; if is_ok opened then read_saved_wifi else pure (opened, none))
        else pure (err, none)

  unfoldable pub set_saved_wifi : Bytes → Exec EspErr
  set_saved_wifi wifi_config = write_and_commit (call (write_wifi wifi_config) env.write_err)

  unfoldable pub delete_saved_wifi : Exec EspErr
  delete_saved_wifi = write_and_commit (call erase_wifi env.wifi_erase_err)
