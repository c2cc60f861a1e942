-- ===== src/Uart.antt =====
-- main/ble_server.c: the Bluetooth server of the older boards, which talks to a module over a serial
-- line. A round of echo_task is a function of the bytes that `uart_read_bytes` gives. The error
-- -1 of that call is not modelled, and the room behind the data, where the end mark goes, only for the
-- literal.
pub mod Safety
use smart_door_lock_io_t.Common.{
  ℤ, Bytes, Bool, true, false, ◌||◌, List, [], ◌∷◌, ◌++◌, codes, str_eq, has_prefix, ◌==◌,
  if◌then◌else◌,
}
use smart_door_lock_io_t.Types.{UserState, disconnected, connecting, connected, authorized}
use smart_door_lock_io_t.Platform.{Env, EspErr, uart_write, delay}
use smart_door_lock_io_t.Device.{
  Exec, null_pointer, buffer_overflow, pure, raise, require, gets, modify, emit, ◌>>=◌, ◌>>◌,
}
use smart_door_lock_io_t.Text.{c_string}
use smart_door_lock_io_t.Base64.{base64_encode}
use smart_door_lock_io_t.Aes.{encrypt_str_aes, decrypt_base64_aes}
use smart_door_lock_io_t.Users.{
  get_user_state, get_user_aes_ctx, set_user_state, generate_random_seed, set_current_ble_addr,
}
use smart_door_lock_io_t.Session.{
  session_aes, retrieve_session_credentials, get_registration_status,
}
use smart_door_lock_io_t.Messages.{add_timestamps_and_nonce_to_msg}
use smart_door_lock_io_t.InviteCommands.{is_registered}
use smart_door_lock_io_t.Handler.{check_command}
use smart_door_lock_io_t.LockCommands.{ack_message}
use smart_door_lock_io_t.LockStatus.{disconnect_lock}
use smart_door_lock_io_t.Power.{start_deep_sleep_timer, cancel_deep_sleep_timer, default_sleep_time}

-- The name that the one session goes by.
abbrev pub ble_user : Bytes
ble_user = codes "BLE_USER"

unfoldable pub send_at_cmd : Bytes → Exec (Unit {0})
send_at_cmd at_cmd = emit (uart_write at_cmd)

unfoldable pub send_data : Bytes → Exec (Unit {0})
send_data data' = emit (uart_write (data' ++ 4 ∷ []))

-- sendData("LOK") writes its end mark behind the literal.
unfoldable pub send_literal : Exec (Unit {0})
send_literal = raise buffer_overflow

-- A `-` stands for a `+` at the start of a Base64 text.
abbrev pub unescape : Bytes → Bytes
unescape [] = []
unescape (c ∷ s) = if c == b'-' then b'+' ∷ s else c ∷ s

-- What the module itself says: strncmp("AT+", data, 3) and strncmp("+", data, 1).
abbrev pub is_at_response : Bytes → Bool
is_at_response data' = has_prefix (codes "AT+") data' || has_prefix (codes "+") data'

module _ (env : Env) where
  unfoldable pub disconnect : Exec (Unit {0})
  disconnect = do
    set_user_state env ble_user disconnected []
    emit delay
    send_at_cmd (codes "AT+DISC\r\n")
    emit delay
    disconnect_lock

  -- strncmp("+DISCONNECT", data, 13) compares the NUL too: nothing may follow the word.
  unfoldable pub at_response : Bytes → Exec (Unit {0})
  at_response data' =
      if has_prefix (codes "+CONNECTED") data'
      then (do
        set_user_state env ble_user connecting []
        cancel_deep_sleep_timer env
        set_current_ble_addr ble_user)
      else if str_eq data' (codes "+DISCONNECT")
      then (do
        set_user_state env ble_user disconnected []
        set_current_ble_addr []
        disconnect_lock
        start_deep_sleep_timer env default_sleep_time)
      else pure tt

  unfoldable pub respond : Bytes → Bytes → Exec (Unit {0})
  respond aes response = do
    response_ts ← add_timestamps_and_nonce_to_msg env response
    response_enc ← encrypt_str_aes env aes response_ts
    send_data response_enc

  -- The first key before the first invite.
  unfoldable pub first_key : Bytes → Exec (Unit {0})
  first_key data' = do
    found ← retrieve_session_credentials env data' ble_user
    if found
        then (do
          aes ← session_aes env ble_user
          modify (λ d. record d { got_first_uart_key = true })
          respond aes ack_message)
        else disconnect

  unfoldable pub open_session : Bytes → Exec (Unit {0})
  open_session data' = do
    found ← retrieve_session_credentials env data' ble_user
    if found
        then (do
          seed ← generate_random_seed env ble_user
          seed_base64 ← require null_pointer (base64_encode seed)
          aes ← session_aes env ble_user
          respond aes (codes "RAC " ++ seed_base64))
        else disconnect

module _ (env : Env) (number : EspErr → ℤ) where
  unfoldable pub handle_command : Bytes → Exec (Unit {0})
  handle_command data' = do
    aes ← session_aes env ble_user
    cmd ← decrypt_base64_aes env aes data'
    answer ← check_command env number cmd ble_user
    response ← require null_pointer answer
    respond env aes response

  unfoldable pub message_in_state : UserState → Bytes → Exec (Unit {0})
  message_in_state disconnected data' = disconnect env
  message_in_state connecting data' = open_session env data'
  message_in_state connected data' = handle_command data'
  message_in_state authorized data' = handle_command data'

  unfoldable pub registered_message : Bytes → Exec (Unit {0})
  registered_message data' = do
    got ← gets (λ d. d.got_first_uart_key)
    if got
        then (do modify (λ d. record d { got_first_uart_key = false }); handle_command data')
        else first_key env data'

  unfoldable pub uart_message : Bytes → Exec (Unit {0})
  uart_message data' = do
    ctx ← get_user_aes_ctx env ble_user
    status ← get_registration_status env
    if is_registered env status
        then registered_message data'
        else (do state ← get_user_state env ble_user; message_in_state state data')

  -- What was read; nothing is read within 250 ms if `bytes` is empty.
  unfoldable pub read_round : Bytes → Exec (Unit {0})
  read_round [] = pure tt
  read_round (c ∷ s) = do
    let data' = c_string (c ∷ s)
    modify (λ d. record d { uart_data = data' })
    if is_at_response data' then at_response env data' else (do
      modify (λ d. record d { uart_data = unescape data' })
      uart_message (unescape data'))

  -- The buffer keeps what the round before read; a ping is answered from there, again and again.
  unfoldable pub echo_round : Bytes → Exec (Unit {0})
  echo_round bytes = do
    data' ← gets (λ d. d.uart_data)
    if str_eq data' (codes "PNG") then send_literal else (do
      online ← gets (λ d. d.wifi_connected)
      if online then read_round bytes else pure tt)
