-- ===== src/Tcp.antt =====
-- main/tcp_server.c: a connection over TCP. What `recv` returns is the list of the receives; the
-- connection waits where the list ends.
pub mod Send
pub mod Kept
pub mod Safety
pub mod Connection
pub mod Server
pub mod Opens
use smart_door_lock_io_t.Common.{
  ℕ, zero, suc, ◌+◌, ◌-◌, ℤ, pos, negsuc, Bytes, Bool, true, false, List, [], ◌∷◌, ◌++◌, Option,
  none, some, length, drop, codes, str_eq, eqb_ℤ, ltb, if◌then◌else◌,
}
use smart_door_lock_io_t.Types.{UserState, disconnected, connecting, connected, authorized}
use smart_door_lock_io_t.Platform.{
  Env, EspErr, tcp_send, tcp_close, tcp_shutdown, tcp_socket, tcp_bind, tcp_listen, close_listener,
}
use smart_door_lock_io_t.Device.{
  Exec, null_pointer, out_of_bounds, exhausted, pure, raise, require, call, emit, gets, modify,
  if_some, ◌>>=◌, ◌>>◌,
}
use smart_door_lock_io_t.Text.{c_string}
use smart_door_lock_io_t.Base64.{base64_encode}
use smart_door_lock_io_t.Aes.{encrypt_str_aes, decrypt_base64_aes}
use smart_door_lock_io_t.Users.{
  get_user_aes_ctx, get_user_state, generate_random_seed, set_user_state,
}
use smart_door_lock_io_t.Session.{session_aes, retrieve_session_credentials}
use smart_door_lock_io_t.Messages.{add_timestamps_and_nonce_to_msg}
use smart_door_lock_io_t.Handler.{check_command}
use smart_door_lock_io_t.LockCommands.{nak_message}
use smart_door_lock_io_t.LockStatus.{disconnect_lock}
use smart_door_lock_io_t.Power.{start_deep_sleep_timer, cancel_deep_sleep_timer, default_sleep_time}

-- What `recv` returned: bytes, 0 or -1.
pub data Receive : Type 0 where
  received : Bytes → Receive
  closed failed : Receive

-- What `accept` returned: the address of a peer, with what `recv` then returns, or -1.
pub data Accept : Type 0 where
  accepted : Bytes → List Receive → Accept
  refused : Accept

-- Whether `do_retransmit` still waits for bytes, or has returned; the same for the task.
pub data Phase : Type 0 where
  waiting returned : Phase

-- to_write -= written; only `to_write > 0` and the offset are looked at, so it may stop at 0.
abbrev pub minus_written : ℕ → ℤ → ℕ
minus_written to_write (pos written) = to_write - written
minus_written to_write (negsuc n) = to_write + suc n

abbrev pub is_negative : ℤ → Bool
is_negative (pos n) = false
is_negative (negsuc n) = true

module _ (env : Env) where
  -- while (to_write > 0): from the offset `len - to_write` on. After an error `to_write` grows, and
  -- the next call may start in front of the text.
  unfoldable pub send_rest : ℕ → Bytes → ℕ → Exec (Unit {0})
  send_rest zero text to_write = if ltb 0 to_write then raise exhausted else pure tt
  send_rest (suc fuel) text to_write =
      let rest = λ (written : ℤ). send_rest fuel text (minus_written to_write written) in
      if ltb 0 to_write
      then (if ltb (length text) to_write then raise out_of_bounds else (do
        let bytes = drop (length text - to_write) text
        written ← call (tcp_send bytes) (λ t. env.tcp_written t bytes)
        rest written))
      else pure tt

  -- The session's state is reset; its key stays in the table, since `free_AES` gets a copy.
  unfoldable pub disconnect_sock : Exec (Unit {0})
  disconnect_sock = do
    addr ← gets (λ d. d.addr_str)
    set_user_state env addr disconnected []
    ctx ← get_user_aes_ctx env addr
    emit tcp_close
    disconnect_lock
    start_deep_sleep_timer env default_sleep_time

  -- The session key and the seed for the phone.
  unfoldable pub opened_session : Bytes → Bytes → Exec (Option (Bytes × Bytes))
  opened_session data' addr = do
    found ← retrieve_session_credentials env data' addr
    if found
        then (do
          seed ← generate_random_seed env addr
          seed_base64 ← require null_pointer (base64_encode seed)
          aes ← session_aes env addr
          pure (some (aes, codes "RAC " ++ seed_base64)))
        else pure none

module _ (env : Env) (number : EspErr → ℤ) where
  -- strcmp and strlen read a NULL response.
  unfoldable pub command_response : Bytes → Bytes → Exec (Option (Bytes × Bytes))
  command_response data' addr = do
    aes ← session_aes env addr
    cmd ← decrypt_base64_aes env aes data'
    answer ← check_command env number cmd addr
    response ← require null_pointer answer
    pure (some (aes, response))

  -- The key and the response; `none` where the server disconnects.
  unfoldable pub response_in : UserState → Bytes → Bytes → Exec (Option (Bytes × Bytes))
  response_in disconnected data' addr = pure none
  response_in connecting data' addr = opened_session env data' addr
  response_in connected data' addr = command_response data' addr
  response_in authorized data' addr = command_response data' addr

module _ (env : Env) (number : EspErr → ℤ) (fuel : ℕ) where
  unfoldable pub send_and_judge : Bytes × Bytes → Exec Phase
  send_and_judge (aes, response) = do
    response_ts ← add_timestamps_and_nonce_to_msg env response
    response_enc ← encrypt_str_aes env aes response_ts
    send_rest env fuel response_enc (length response_enc)
    if str_eq response nak_message then (do disconnect_sock env; pure returned) else pure waiting

  -- The body of the loop for `len > 0` bytes.
  unfoldable pub retransmit_once : Bytes → Exec Phase
  retransmit_once bytes = do
    let data' = c_string bytes
    addr ← gets (λ d. d.addr_str)
    state ← get_user_state env addr
    response ← response_in env number state data' addr
    if_some response send_and_judge (do disconnect_sock env; pure returned)

  -- The loop, `go_on` is its rest.
  abbrev pub in_phase : Exec Phase → Phase → Exec Phase
  in_phase go_on waiting = go_on
  in_phase go_on returned = pure returned

  unfoldable pub do_retransmit : List Receive → Exec Phase
  do_retransmit [] = pure waiting
  do_retransmit (received bytes ∷ receives) = do
    phase ← retransmit_once bytes
    in_phase (do_retransmit receives) phase
  do_retransmit (closed ∷ receives) = pure returned
  do_retransmit (failed ∷ receives) = pure returned

  abbrev pub end_connection : Phase → Exec Phase
  end_connection waiting = pure waiting
  end_connection returned = do
    emit tcp_shutdown
    start_deep_sleep_timer env default_sleep_time
    emit tcp_close
    pure returned

  unfoldable pub begin_connection : Bytes → Exec (Unit {0})
  begin_connection addr = do
    modify (λ d. record d { addr_str = addr })
    cancel_deep_sleep_timer env
    set_user_state env addr connecting []

  -- One round of the accept loop of tcp_server_task, for a peer with the address `addr`.
  unfoldable pub serve_connection : Bytes → List Receive → Exec Phase
  serve_connection addr receives = do
    begin_connection addr
    phase ← do_retransmit receives
    end_connection phase

  abbrev pub after_connection : Exec Phase → Phase → Exec Phase
  after_connection go_on waiting = pure waiting
  after_connection go_on returned = go_on

  -- The loop, `go_on` is its rest; it does not get there while a connection waits for bytes.
  unfoldable pub accept_loop : List Accept → Exec Phase
  accept_loop [] = pure waiting
  accept_loop (refused ∷ accepts) = do emit close_listener; pure returned
  accept_loop (accepted addr receives ∷ accepts) = do
    phase ← serve_connection addr receives
    after_connection (accept_loop accepts) phase

  -- `false` where the task ends without a socket that listens.
  unfoldable pub listen_socket : Exec Bool
  listen_socket = do
    sock ← call tcp_socket env.tcp_socket_fd
    if is_negative sock then pure false else (do
      bound ← call tcp_bind env.tcp_bind_err
      if eqb_ℤ bound (pos 0)
          then (do
            listening ← call tcp_listen env.tcp_listen_err
            if eqb_ℤ listening (pos 0) then pure true else (do emit close_listener; pure false))
          else (do emit close_listener; pure false))

  unfoldable pub tcp_server_task : List Accept → Exec Phase
  tcp_server_task accepts = do
    listens ← listen_socket
    if listens then accept_loop accepts else pure returned
