-- ===== src/LockCommands.antt =====
-- The branches SAC, RUD, RLD, SNT and RDS of `checkCommand` in main/tcp_server_handler.c. A response
-- is a C string. The local memory that a branch frees at its end is not modelled.
pub mod Answers
pub mod Total
use smart_door_lock_io_t.Common.{
  ℕ, ◌+◌, Bytes, Bool, true, false, List, [], ◌∷◌, ◌++◌, Option, none, some, codes, if◌then◌else◌,
}
use smart_door_lock_io_t.Types.{LockState, lock_state_value, authorized}
use smart_door_lock_io_t.Platform.{Env, EspErr, notify}
use smart_door_lock_io_t.Device.{Exec, pure, emit, if_some, ◌>>=◌, ◌>>◌}
use smart_door_lock_io_t.Common.Int.{ℤ}
use smart_door_lock_io_t.Text.{show_d}
use smart_door_lock_io_t.Users.{
  set_user_state, set_ble_user_state_to_connecting, get_user_state, get_user_seed,
}
use smart_door_lock_io_t.LockStatus.{lock_lock, unlock_lock, get_lock_state}
use smart_door_lock_io_t.Access.{
  is_authorized, arg, verify_timestamps_and_nonce, can_use_lock, check_authorization_code,
}
use smart_door_lock_io_t.Args.{get_args}

abbrev pub ack_message : Bytes
ack_message = codes "ACK"

abbrev pub nak_message : Bytes
nak_message = codes "NAK"

abbrev pub ack_if : Bool → Bytes
ack_if ack = if ack then ack_message else nak_message

abbrev pub nak : Exec (Option Bytes)
nak = pure (some nak_message)

module _ (env : Env) where
  unfoldable pub authorize_session : Bytes → Bytes → Bytes → Exec Bool
  authorize_session phone_id auth_code user_ip = do
    auth_seed ← get_user_seed env user_ip
    is_valid ← check_authorization_code env phone_id auth_code auth_seed
    if is_valid then (do set_user_state env user_ip authorized phone_id; pure true) else pure false

  -- Send Auth Credentials
  unfoldable pub send_auth_credentials : Bytes → Bytes → Exec (Option Bytes)
  send_auth_credentials cmd user_ip = do
    words ← get_args env cmd 5
    if_some words
        (λ args. do
          phone_id ← arg args 0
          auth_code ← arg args 1
          fresh ← verify_timestamps_and_nonce env args 2
          is_valid ← if fresh then authorize_session phone_id auth_code user_ip else pure false
          pure (some (ack_if is_valid)))
        nak

  -- The lock is moved if the message is fresh and its sender may use the lock.
  unfoldable pub move_lock : Exec (Unit {0}) → List Bytes → Bytes → Exec Bool
  move_lock move args user_ip = do
    fresh ← verify_timestamps_and_nonce env args 0
    if fresh
        then (do
          allowed ← can_use_lock env user_ip
          if allowed then (do move; pure true) else pure false)
        else pure false

  unfoldable pub request_move : Exec (Unit {0}) → Bytes → Bytes → Exec (Option Bytes)
  request_move move cmd user_ip = do
    words ← get_args env cmd 3
    if_some words
        (λ args. do
          ack ← move_lock move args user_ip
          set_ble_user_state_to_connecting env
          pure (some (ack_if ack)))
        nak

  -- Request Unlock Door
  unfoldable pub request_unlock_door : Bytes → Bytes → Exec (Option Bytes)
  request_unlock_door = request_move (unlock_lock env)

  -- Request Lock Door
  unfoldable pub request_lock_door : Bytes → Bytes → Exec (Option Bytes)
  request_lock_door = request_move (lock_lock env)

  unfoldable pub notify_if_authorized : Bytes → Bytes → Exec Bool
  notify_if_authorized devid user_ip = do
    state ← get_user_state env user_ip
    if is_authorized state then (do emit (notify devid); pure true) else pure false

  unfoldable pub send_notification_command : Bytes → Bytes → Exec (Option Bytes)
  send_notification_command cmd user_ip = do
    words ← get_args env cmd 4
    if_some words
        (λ args. do
          fresh ← verify_timestamps_and_nonce env args 1
          devid ← arg args 0
          ack ← if fresh then notify_if_authorized devid user_ip else pure false
          pure (some (ack_if ack)))
        nak

  -- `number` is the value of an error code, which `get_lock_state` may return as a state.
  unfoldable pub read_state : (EspErr → ℤ) → Bytes → Exec Bytes
  read_state number user_ip = do
    state ← get_user_state env user_ip
    if is_authorized state
        then (do
          lock_state ← get_lock_state env number
          pure (codes "SDS " ++ show_d (lock_state_value lock_state)))
        else pure nak_message

  -- Request Door State: the only branch that makes the BLE user connect again after a missing word.
  unfoldable pub request_door_state : (EspErr → ℤ) → Bytes → Bytes → Exec (Option Bytes)
  request_door_state number cmd user_ip = do
    words ← get_args env cmd 3
    if_some words
        (λ args. do
          fresh ← verify_timestamps_and_nonce env args 0
          response ← if fresh then read_state number user_ip else pure nak_message
          set_ble_user_state_to_connecting env
          pure (some response))
        (do set_ble_user_state_to_connecting env; nak)
