-- ===== src/Device.antt =====
-- The firmware's global variables, and the monad of its functions: they change the globals, call the
-- platform, and may stop the firmware by an abort or by undefined behaviour.
pub mod Keeps
pub mod Runs
use smart_door_lock_io_t.Common.{ℕ, ℤ, Bytes, Bool, true, false, List, [], ◌∷◌, Option, none, some}
use smart_door_lock_io_t.Types.{UserInfo, Nonce, RegistrationStatus, LedStatus}
use smart_door_lock_io_t.Platform.{Event, Trace}

pub record Device : Type 0 where
  pub trace : Trace
  -- nonce.c: head
  pub nonces : List Nonce
  -- user_info.c: users_info, in the order of addition, and current_BLE_addr
  pub users_info : List UserInfo
  pub current_ble_addr : Bytes
  -- utils.c: registration_status
  pub registration_status : RegistrationStatus
  -- lock_status.c
  pub led_status : LedStatus
  pub led_configured : Bool
  -- ble_s3_server.c: got_first_invite_session_key_s3, server_online, is_connected, spp_mtu_size,
  -- ble_user_addr, enable_data_ntf
  pub got_first_key : Bool
  pub server_online : Bool
  pub is_connected : Bool
  pub spp_mtu_size : ℕ
  pub ble_user_addr : Bytes
  pub enable_data_ntf : Bool
  -- spp_conn_id, spp_gatts_if, spp_remote_bda, spp_handle_table, heart_rate_profile_tab[0].gatts_if,
  -- and whether cmd_cmd_queue was created
  pub spp_conn_id : ℕ
  pub spp_gatts_if : ℕ
  pub spp_remote_bda : Bytes
  pub spp_handle_table : List ℕ
  pub profile_gatts_if : ℕ
  pub has_cmd_queue : Bool
  -- wifi_connect_util.c: isConnected
  pub wifi_connected : Bool
  -- power_util.c: deep_sleep_timer, with the sleep time that its callback gets
  pub deep_sleep_timer : Option ℤ
  -- tcp_server.c: addr_str
  pub addr_str : Bytes
  -- ble_server.c: got_first_invite_session_key, and the buffer `data` of echo_task up to its first NUL,
  -- which at first is what malloc left there
  pub got_first_uart_key : Bool
  pub uart_data : Bytes

-- `exhausted` is no fault of the code: the fuel of a loop of the model ran out, or the code waits.
pub data Fault : Type 0 where
  aborted null_pointer bad_free buffer_overflow uninitialised use_after_free out_of_bounds
        exhausted :
      Fault

pub data Result {ℓ} (A : Type ℓ) : Type ℓ where
  ok : A → Result A
  fault : Fault → Result A

abbrev pub Exec {ℓ} : Type ℓ → Type ℓ
Exec A = Device → Result A × Device

module _ {ℓ} {A : Type ℓ} where
  unfoldable pub pure : A → Exec A
  pure a d = (ok a, d)

  unfoldable pub raise : Fault → Exec A
  raise f d = (fault f, d)

  -- The value of a pointer or a field, if it has one.
  unfoldable pub require : Fault → Option A → Exec A
  require f none d = (fault f, d)
  require f (some a) d = (ok a, d)

  -- A call of the platform: its answer depends on the events before it.
  unfoldable pub call : Event → (Trace → A) → Exec A
  call e answer d = (ok (answer d.trace), record d { trace = e ∷ d.trace })

  unfoldable pub gets : (Device → A) → Exec A
  gets f d = (ok (f d), d)

-- The branches of a test of a pointer for NULL.
abbrev pub if_some {ℓ κ} : {A : Type ℓ} {B : Type κ} → Option A → (A → B) → B → B
if_some none f b = b
if_some (some a) f b = f a

unfoldable pub emit : Event → Exec (Unit {0})
emit e d = (ok tt, record d { trace = e ∷ d.trace })

unfoldable pub modify : (Device → Device) → Exec (Unit {0})
modify f d = (ok tt, f d)

module _ {ℓ κ} {A : Type ℓ} {B : Type κ} where
  abbrev pub after : Result A → Device → (A → Exec B) → Result B × Device
  after (ok a) d f = f a d
  after (fault e) d f = (fault e, d)

  infixl 5 ◌>>=◌
  unfoldable pub ◌>>=◌ : Exec A → (A → Exec B) → Exec B
  unfolding pure raise require call gets emit modify
  ◌>>=◌ m f d = let (r, d') = m d in after r d' f

  infixl 5 ◌>>◌
  abbrev pub ◌>>◌ : Exec A → Exec B → Exec B
  m >> k = m >>= λ _. k
