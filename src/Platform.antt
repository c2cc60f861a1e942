-- ===== src/Platform.antt =====
-- What the firmware relies on and does not implement: ESP-IDF, mbedtls, cJSON, the server, uthash.
-- Every call is an event; the answers of the platform are any functions of the events so far.
use smart_door_lock_io_t.Common.{ℕ, ℤ, Bytes, Bool, List, Option}
use smart_door_lock_io_t.Wifi.{WifiEvent}
use smart_door_lock_io_t.Types.{Authorization, UserType, LockState}

-- esp_err_t, with the codes that the firmware tells apart.
pub data EspErr : Type 0 where
  esp_ok not_found no_free_pages new_version err_arg : EspErr
  esp_err : ℤ → EspErr

abbrev pub is_ok : EspErr → Bool
is_ok esp_ok = Bool.true
is_ok _ = Bool.false

-- The body of POST /register-invite: the members of the JSON object, `none` where one is left out.
pub record InviteRequest : Type 0 where
  pub smart_lock_mac : Bytes
  pub expiration : ℤ
  pub email_locked : Option Bytes
  pub kind : UserType
  pub valid_from : Option ℤ
  pub valid_until : Option ℤ
  pub weekdays_str : Option Bytes
  pub one_day : Option ℤ

pub data Event : Type 0 where
  read_time poll_sync init_sync : Event
  flash_init flash_erase nvs_open nvs_commit nvs_close : Event
  read_auth_size read_auth erase_auth : Bytes → Event
  write_auth : Authorization → Event
  read_lock_state : Event
  write_lock_state : LockState → Event
  led_init led_clear led_refresh : Event
  led_pixel : ℕ → ℕ → ℕ → Event
  fill_random : ℕ → Event
  random_word : Event
  hmac_step : Event
  read_mac : Event
  parse_key sha256_step : Event
  sign : Bytes → Event
  -- a request with its signature, where it has one
  post_invite : InviteRequest → Option Bytes → Event
  post_authorization : Bytes → Bytes → Option Bytes → Event
  get_status : Bytes → Event
  notify : Bytes → Event
  rsa_decrypt : Bytes → Event
  aes_encrypt aes_decrypt : Event
  indicate : Bytes → Event
  gap_disconnect : Event
  timer_query timer_create timer_start timer_stop : Event
  sleep_second : Event
  enable_wakeup : ℤ → Event
  deep_sleep : Event
  tcp_send : Bytes → Event
  tcp_close tcp_shutdown : Event
  tcp_socket tcp_bind tcp_listen close_listener : Event
  uart_write : Bytes → Event
  encrypt_link set_device_name configure_privacy create_attributes start_service oob_reply
        confirm_reply :
      Event
  security_reply advertise_params queue_send : Event
  advertise : Event
  advertise_data : Bytes → Event
  delay : Event
  read_wifi_size read_wifi erase_wifi : Event
  write_wifi : Bytes → Event
  post_registration : Bytes → Bytes → Bytes → Event
  ble_setup tcp_setup wifi_join esp_touch mount_spiffs open_key open_certificate unmount_spiffs :
      Event
  store_key : Bytes → Event

-- The events so far, the latest first.
abbrev pub Trace : Type 0
Trace = List Event

-- The JSON answer to /register-invite: `success` and `inviteID`.
pub record InviteReply : Type 0 where
  pub success : Bool
  pub invite_id : Option Bytes

-- The JSON answer to /request-authorization: `success` and the members of `data`.
pub record AuthorizationReply : Type 0 where
  pub success : Bool
  pub phone_id : Option Bytes
  pub kind : ℤ
  pub master_key_encrypted_lock : Option Bytes
  pub weekdays : List ℤ
  pub valid_from : ℤ
  pub valid_until : ℤ
  pub one_day : ℤ

-- The JSON answer to /check-lock-registration-status.
pub record StatusReply : Type 0 where
  pub success : Bool
  pub status : ℤ

pub record Env : Type 0 where
  -- time, localtime_r and mktime
  pub time : Trace → ℤ
  pub tm_year : ℤ → ℤ
  pub tm_wday : ℤ → ℕ
  pub midnight : ℤ → ℤ
  pub sync_is_reset : Trace → Bool
  -- the flash store
  pub flash_init_err : Trace → EspErr
  pub flash_erase_err : Trace → EspErr
  pub open_err : Trace → EspErr
  pub write_err : Trace → EspErr
  -- under or of a key that the caller gives
  pub auth_write_err : Trace → Bytes → EspErr
  pub auth_erase_err : Trace → Bytes → EspErr
  pub wifi_erase_err : Trace → EspErr
  pub commit_err : Trace → EspErr
  pub auth_size : Trace → Bytes → EspErr × ℕ
  pub auth_blob : Trace → Bytes → EspErr × Authorization
  pub stored_lock_state : Trace → EspErr × ℤ
  -- HASH_FIND over the keys of the items in the order of their addition
  pub hash_find : List Bytes → Bytes → Option ℕ
  -- malloc(0) may return NULL
  pub malloc_zero_is_null : Bool
  -- mbedtls and the random source
  pub random_bytes : Trace → ℕ → Bytes
  pub random_u32 : Trace → ℕ
  pub hmac_status : Trace → EspErr
  pub hmac_digest : Bytes → Bytes → Bytes
  pub key_status : Trace → EspErr
  pub sha256_status : Trace → EspErr
  pub sha256_digest : Bytes → Bytes
  pub pss_signature : Trace → Bytes → Option Bytes
  pub rsa_plain : Trace → Bytes → Option Bytes
  pub aes_cbc_encrypt : Bytes → Bytes → Bytes → Bytes
  pub aes_cbc_decrypt : Bytes → Bytes → Bytes → Bytes
  -- the network
  pub mac : Bytes
  pub print_invite : InviteRequest → Bytes
  pub print_authorization : Bytes → Bytes → Bytes
  pub invite_reply : Trace → InviteRequest → EspErr × InviteReply
  pub authorization_reply : Trace → Bytes → EspErr × AuthorizationReply
  pub status_reply : Trace → EspErr × StatusReply
  pub http_status : Trace → EspErr
  -- esp_timer
  pub timer_is_active : Trace → Bool
  pub timer_err : Trace → EspErr
  -- `send` on a socket: how many bytes it took, or -1
  pub tcp_written : Trace → Bytes → ℤ
  -- `socket`, and the results of `bind` and `listen`
  pub tcp_socket_fd : Trace → ℤ
  pub tcp_bind_err : Trace → ℤ
  pub tcp_listen_err : Trace → ℤ
  pub mac_err : Trace → EspErr
  -- the memory behind the value of a Bluetooth write, which no NUL ends
  pub behind_value : Trace → Bytes
  -- the saved Wi-Fi credentials, and POST /register-door-lock
  pub wifi_size : Trace → EspErr × ℕ
  pub wifi_blob : Trace → EspErr × Bytes
  pub registration_err : Trace → EspErr
  -- start-up: what the Wi-Fi driver reports, and the files of the lock
  pub wifi_events : Trace → List WifiEvent
  pub spiffs_err : Trace → EspErr
  pub key_file : Option Bytes
  pub certificate_file : Option Bytes
  pub ble_mac : Bytes
  -- the structure in the memory that malloc returns
  pub fresh_authorization : Trace → Authorization
