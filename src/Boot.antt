-- ===== src/Boot.antt =====
-- main/main.c on the ESP32-S3: app_main, init_rsa_key and init_led_lock_state; and connect_to_wifi of
-- main/utils/wifi_connect_util.c. The set-up of Bluetooth, of the TCP server and of SPIFFS, and
-- ESP-Touch, are events.
pub mod Restart
pub mod Announce
use smart_door_lock_io_t.Common.{
  ℤ, Bytes, Bool, true, false, Option, none, some, length, leb, replicate, [], codes, if◌then◌else◌,
}
use smart_door_lock_io_t.Types.{
  LockState, locked, unlocked, lock_code, led_idle, RegistrationStatus, not_registered, complete,
}
use smart_door_lock_io_t.Platform.{
  Env, EspErr, esp_ok, is_ok, flash_init, read_mac, ble_setup, tcp_setup, wifi_join, esp_touch,
  mount_spiffs, open_key, open_certificate, unmount_spiffs, store_key,
}
use smart_door_lock_io_t.Device.{
  Exec, buffer_overflow, uninitialised, exhausted, pure, raise, call, emit, gets, modify, ◌>>=◌,
  ◌>>◌,
}
use smart_door_lock_io_t.Text.{c_string, show_mac}
use smart_door_lock_io_t.Nvs.{error_check, get_saved_wifi}
use smart_door_lock_io_t.LockStatus.{lock_lock, unlock_lock, get_lock_state, set_led_status}
use smart_door_lock_io_t.Time.{obtain_time}
use smart_door_lock_io_t.Database.{register_lock}
use smart_door_lock_io_t.Session.{get_registration_status, force_get_registration_status}
use smart_door_lock_io_t.Power.{start_deep_sleep_timer, default_sleep_time}
use smart_door_lock_io_t.Wifi.{
  Verdict, still_waiting, joined, gave_up, wait_bits, fresh_station, Station,
}

abbrev pub is_not_registered : RegistrationStatus → Bool
is_not_registered not_registered = true
is_not_registered _ = false

abbrev pub is_complete : RegistrationStatus → Bool
is_complete complete = true
is_complete _ = false

-- The wait of wifi_init_sta may have no end.
abbrev pub joined_or_waits : Verdict → Exec Bool
joined_or_waits still_waiting = raise exhausted
joined_or_waits joined = pure true
joined_or_waits gave_up = pure false

-- send_data_ble_s3 with the literal "LOK": the end mark is written behind it if a peer is connected.
unfoldable pub announce : Exec (Unit {0})
announce = do
  connected ← gets (λ d. d.is_connected)
  if connected then raise buffer_overflow else pure tt

module _ (env : Env) where
  -- connect_to_wifi, at start-up
  unfoldable pub connect_to_wifi : Bytes → Exec Bool
  connect_to_wifi wifi_config = do
    events ← call wifi_join env.wifi_events
    connected ← joined_or_waits (wait_bits events (fresh_station 0)).0
    modify (λ d. record d { wifi_connected = connected })
    pure connected

  unfoldable pub join_saved : EspErr × Option Bytes → Exec (Unit {0})
  join_saved (esp_ok, some wifi_config) = do
    connected ← connect_to_wifi wifi_config
    if connected then pure tt else emit esp_touch
  join_saved (esp_ok, none) = raise uninitialised
  join_saved (err, wifi_config) = emit esp_touch

  -- The buffer has 2048 bytes and is read as a string.
  unfoldable pub take_key : Bytes → Exec (Unit {0})
  take_key file =
      if leb 2048 (length file) then raise buffer_overflow else emit (store_key (c_string file))

  unfoldable pub send_certificate : Option Bytes → Exec Bool
  send_certificate none = pure false
  send_certificate (some file) = do
    err ← call read_mac env.mac_err
    if leb 2048 (length file) then raise buffer_overflow else (do
      register_lock env (c_string file)
          (show_mac (if is_ok err then env.ble_mac else replicate 6 0))
      status ← force_get_registration_status env
      pure true)

  -- The partition stays mounted where a file is missing.
  unfoldable pub use_files : Option Bytes → Exec (Unit {0})
  use_files none = pure tt
  use_files (some file) = do
    take_key file
    status ← get_registration_status env
    if is_not_registered status
        then (do
          emit open_certificate
          sent ← send_certificate env.certificate_file
          if sent then emit unmount_spiffs else pure tt)
        else emit unmount_spiffs

  unfoldable pub init_rsa_key : Exec (Unit {0})
  init_rsa_key = do
    mounted ← call mount_spiffs env.spiffs_err
    if is_ok mounted then (do emit open_key; use_files env.key_file) else pure tt

module _ (env : Env) (number : EspErr → ℤ) where
  -- Any other number leaves the LED as it is.
  unfoldable pub show_state : LockState → Exec (Unit {0})
  show_state locked = lock_lock env
  show_state unlocked = unlock_lock env
  show_state (lock_code n) = pure tt

  unfoldable pub init_led_lock_state : Exec (Unit {0})
  init_led_lock_state = do state ← get_lock_state env number; show_state state

  -- The part of app_main behind the network, for a first boot or a wake-up.
  unfoldable pub come_online : Bool → Exec (Unit {0})
  come_online wakeup_from_deep_sleep = do
    set_led_status led_idle
    obtain_time env
    if wakeup_from_deep_sleep then pure tt else init_rsa_key env
    emit tcp_setup
    modify (λ d. record d { wifi_connected = true; server_online = true })
    if wakeup_from_deep_sleep then emit ble_setup else announce
    init_led_lock_state
    status ← get_registration_status env
    if is_complete status then start_deep_sleep_timer env default_sleep_time else pure tt

  unfoldable pub app_main : Bool → Exec (Unit {0})
  app_main wakeup_from_deep_sleep = do
    err ← call flash_init env.flash_init_err
    error_check err
    if wakeup_from_deep_sleep then pure tt else emit ble_setup
    saved ← get_saved_wifi env
    join_saved env saved
    come_online wakeup_from_deep_sleep
