-- ===== src/BleS3/Process.antt =====
-- process_normal_data of main/ble_s3_server.c: one message of the Bluetooth peer.
use smart_door_lock_io_t.Common.{ℤ, Bytes, Bool, true, false, ◌++◌, codes, str_eq, if◌then◌else◌}
use smart_door_lock_io_t.Types.{UserState, disconnected, connecting, connected, authorized}
use smart_door_lock_io_t.Platform.{Env, EspErr}
use smart_door_lock_io_t.Device.{Exec, null_pointer, pure, require, gets, modify, ◌>>=◌, ◌>>◌}
use smart_door_lock_io_t.Base64.{base64_encode}
use smart_door_lock_io_t.Aes.{encrypt_str_aes, decrypt_base64_aes}
use smart_door_lock_io_t.Users.{get_user_state, generate_random_seed}
use smart_door_lock_io_t.Session.{
  session_aes, retrieve_session_credentials, get_registration_status, force_get_registration_status,
}
use smart_door_lock_io_t.Messages.{add_timestamps_and_nonce_to_msg}
use smart_door_lock_io_t.InviteCommands.{is_registered}
use smart_door_lock_io_t.Handler.{check_command}
use smart_door_lock_io_t.LockCommands.{ack_message}
use smart_door_lock_io_t.BleS3.{send_data_ble_s3, disconnect_ble_s3}

unfoldable pub answer_ping : Exec (Unit {0})
answer_ping = do
  online ← gets (λ d. d.server_online)
  send_data_ble_s3 (if online then codes "LOK" else codes "LNO")

module _ (env : Env) where
  -- The response is stamped, encrypted and sent.
  unfoldable pub send_response : Bytes → Bytes → Exec (Unit {0})
  send_response aes response = do
    response_ts ← add_timestamps_and_nonce_to_msg env response
    response_enc ← encrypt_str_aes env aes response_ts
    send_data_ble_s3 response_enc

  -- REGISTERED, as the cache says and as the server then confirms.
  unfoldable pub awaits_first_invite : Exec Bool
  awaits_first_invite = do
    status ← get_registration_status env
    if is_registered env status
        then (do again ← force_get_registration_status env; pure (is_registered env again))
        else pure false

  unfoldable pub start_session : Bytes → Bytes → Exec (Unit {0})
  start_session data' addr = do
    found ← retrieve_session_credentials env data' addr
    if found
        then (do
          seed ← generate_random_seed env addr
          seed_base64 ← require null_pointer (base64_encode seed)
          aes ← session_aes env addr
          send_response aes (codes "RAC " ++ seed_base64))
        else disconnect_ble_s3

module _ (env : Env) (number : EspErr → ℤ) where
  -- A command is decrypted under the session key and handled; strlen reads a NULL response.
  unfoldable pub answer_command : Bytes → Bytes → Exec (Unit {0})
  answer_command data' addr = do
    aes ← session_aes env addr
    cmd ← decrypt_base64_aes env aes data'
    answer ← check_command env number cmd addr
    response ← require null_pointer answer
    send_response env aes response

  -- The two messages before the first invite: a session key, and a command.
  unfoldable pub first_message : Bytes → Bytes → Exec (Unit {0})
  first_message data' addr = do
    got ← gets (λ d. d.got_first_key)
    if got
        then (do
          modify (λ d. record d { got_first_key = false })
          answer_command data' addr
          status ← force_get_registration_status env
          pure tt)
        else (do
          found ← retrieve_session_credentials env data' addr
          if found
              then (do
                aes ← session_aes env addr
                modify (λ d. record d { got_first_key = true })
                send_response env aes ack_message
                status ← force_get_registration_status env
                pure tt)
              else disconnect_ble_s3)

  unfoldable pub message_in : UserState → Bytes → Bytes → Exec (Unit {0})
  message_in disconnected data' addr = disconnect_ble_s3
  message_in connecting data' addr = start_session env data' addr
  message_in connected data' addr = answer_command data' addr
  message_in authorized data' addr = answer_command data' addr

  unfoldable pub session_message : Bytes → Bytes → Exec (Unit {0})
  session_message data' addr = do state ← get_user_state env addr; message_in state data' addr

  -- Without Wi-Fi all but a ping is dropped.
  unfoldable pub process_online : Bytes → Exec (Unit {0})
  process_online data' = do
    online ← gets (λ d. d.wifi_connected)
    addr ← gets (λ d. d.ble_user_addr)
    if online
        then (do
          first ← awaits_first_invite env
          if first then first_message data' addr else session_message data' addr)
        else pure tt

  unfoldable pub process_normal_data : Bytes → Exec (Unit {0})
  process_normal_data data' =
      if str_eq data' (codes "PNG") then answer_ping else process_online data'
