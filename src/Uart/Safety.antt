-- ===== src/Uart/Safety.antt =====
-- When a round of the serial server opens the lock, and the ping that ends it.
use smart_door_lock_io_t.Common.{
  ℕ, ℤ, Bytes, Bool, true, false, [], ◌∷◌, codes, str_eq, has_prefix, ◌≡◌, ◌∙◌, subst, refl, ◌⊎◌,
  inl, if◌then◌else◌,
}
use smart_door_lock_io_t.Types.{
  UserState, disconnected, connecting, connected, authorized, LedStatus, RegistrationStatus,
}
use smart_door_lock_io_t.Platform.{Env, EspErr, uart_write, delay}
use smart_door_lock_io_t.Device.{
  Device, ok, fault, buffer_overflow, Exec, pure, raise, gets, modify, ◌>>=◌,
}
use smart_door_lock_io_t.Device.Keeps.{
  Keeps, Keeps-bind, Keeps-if, Keeps-modify, Keeps-emit, Keeps-pure, Keeps-require,
}
use smart_door_lock_io_t.Text.{c_string}
use smart_door_lock_io_t.Quiet.{IsQuiet}
use smart_door_lock_io_t.Quiet.Platform.{set_user_state-Keeps}
use smart_door_lock_io_t.Quiet.Storage.{
  retrieve_session_credentials-Keeps, get_registration_status-Keeps,
}
use smart_door_lock_io_t.Quiet.Messages.{
  session_aes-Keeps, generate_random_seed-Keeps, add_timestamps_and_nonce_to_msg-Keeps,
  encrypt_str_aes-Keeps,
}
use smart_door_lock_io_t.Session.{get_registration_status}
use smart_door_lock_io_t.InviteCommands.{is_registered}
use smart_door_lock_io_t.Users.{set_current_ble_addr}
use smart_door_lock_io_t.Power.{default_sleep_time}
use smart_door_lock_io_t.BleS3.Kept.{user_state-Keeps, looks_up-Keeps}
use smart_door_lock_io_t.Handler.Safety.{unlocks}
use smart_door_lock_io_t.Unlocking.{
  IsUnlocking, IsClosing, Safe, Safe-IsQuiet, Safe-Keeps, Safely, Behind, handles-Safely,
  Safely-quiet, Safely-from, Safely-bind, Safely-over, Safely-gets, Safely-modify, Safely-if,
}
use smart_door_lock_io_t.Tcp.Kept.{
  StaysClosed, StaysClosed-IsQuiet, StaysClosed-IsClosing, cancel_deep_sleep_timer-Keeps,
  start_deep_sleep_timer-Keeps, disconnect_lock-Keeps,
}
use smart_door_lock_io_t.Uart.{
  ble_user, send_at_cmd, send_data, send_literal, unescape, is_at_response, disconnect, at_response,
  respond, first_key, open_session, handle_command, message_in_state, registered_message,
  uart_message, read_round, echo_round,
}

module _ (env : Env) {n : ℕ} {s : LedStatus} where
  abbrev closed_quiet : IsQuiet (StaysClosed n s)
  closed_quiet = StaysClosed-IsQuiet

  disconnect-Keeps : Keeps (StaysClosed n s) (disconnect env)
  unfolding disconnect send_at_cmd
  disconnect-Keeps =
      Keeps-bind _ _ (set_user_state-Keeps env closed_quiet ble_user disconnected []) (λ _.
        Keeps-bind _ _ (Keeps-emit _ (closed_quiet.events delay refl)) (λ _.
          Keeps-bind _ _ (Keeps-emit _ (closed_quiet.events (uart_write _) refl)) (λ _.
            Keeps-bind _ _ (Keeps-emit _ (closed_quiet.events delay refl))
              (λ _. disconnect_lock-Keeps))))

  at_response-Keeps : (data' : Bytes) → Keeps (StaysClosed n s) (at_response env data')
  unfolding at_response set_current_ble_addr
  at_response-Keeps data' =
      Keeps-if (has_prefix (codes "+CONNECTED") data') _ _
        (Keeps-bind _ _ (set_user_state-Keeps env closed_quiet ble_user connecting []) (λ _.
          Keeps-bind _ _ (cancel_deep_sleep_timer-Keeps env closed_quiet)
            (λ _. Keeps-modify _ (λ d p. p))))
        (Keeps-if (str_eq data' (codes "+DISCONNECT")) _ _
          (Keeps-bind _ _ (set_user_state-Keeps env closed_quiet ble_user disconnected []) (λ _.
            Keeps-bind _ _ (Keeps-modify _ (λ d p. p)) (λ _.
              Keeps-bind _ _ disconnect_lock-Keeps (λ _.
                start_deep_sleep_timer-Keeps env closed_quiet default_sleep_time (λ d p. p)))))
          (Keeps-pure _))

-- How a message from the state `start` on comes to be decrypted: in the state behind the question for
-- the registration status, where that is not REGISTERED; or there with the flag for the first key taken
-- back, where it is REGISTERED and the flag was set.
pub data IsTakenUp (env : Env) (start before : Device) : Type 0 where
  in_session :
      (status : RegistrationStatus)
      → get_registration_status env start ≡ (ok status, before)
      → is_registered env status ≡ false
      → IsTakenUp env start before
  as_first :
      (status : RegistrationStatus) (asked : Device)
      → get_registration_status env start ≡ (ok status, asked)
      → is_registered env status ≡ true
      → asked.got_first_uart_key ≡ true
      → before ≡ record asked { got_first_uart_key = false }
      → IsTakenUp env start before

module _ (env : Env) (number : EspErr → ℤ) (data' : Bytes) (start : Device) where
  abbrev Start : Device → Type 0
  Start = StaysClosed (unlocks start.trace) start.led_status

  abbrev closing : IsClosing Start
  closing = StaysClosed-IsClosing

  abbrev TakenUp : Device → Type 0
  TakenUp = IsTakenUp env start

  -- Behind the question, with its answer.
  abbrev Asked : Bool → Device → Type 0
  Asked registered d =
      (status : RegistrationStatus) × (get_registration_status env start ≡ (ok status, d))
      × (is_registered env status ≡ registered)

  abbrev Shut : Device → Type 0
  Shut = Safe env number data' ble_user TakenUp closing

  abbrev quiet : IsQuiet Shut
  quiet = Safe-IsQuiet env number data' ble_user TakenUp closing

  abbrev Careful : (Device → Type 0) → {A : Type 0} → Exec A → Type 0
  Careful H m = Safely env number data' ble_user TakenUp closing H m

  keeps_shut : {A : Type 0} (m : Exec A) → Keeps Start m → Keeps Shut m
  keeps_shut m kept = Safe-Keeps env number data' ble_user TakenUp closing m kept

  respond-Keeps : (aes response : Bytes) → Keeps Shut (respond env aes response)
  unfolding respond send_data
  respond-Keeps aes response =
      Keeps-bind _ _ (add_timestamps_and_nonce_to_msg-Keeps env quiet response) (λ stamped.
        Keeps-bind _ _ (encrypt_str_aes-Keeps env quiet aes stamped)
          (λ sealed. Keeps-emit _ (quiet.events (uart_write _) refl)))

  first_key-Keeps : Keeps Shut (first_key env data')
  unfolding first_key
  first_key-Keeps =
      Keeps-bind _ _ (retrieve_session_credentials-Keeps env quiet data' ble_user) (λ found.
        Keeps-if found _ _
          (Keeps-bind _ _ (session_aes-Keeps env quiet ble_user) (λ aes.
            Keeps-bind _ _ (keeps_shut _ (Keeps-modify _ (λ d p. p))) (λ _. respond-Keeps aes _)))
          (keeps_shut _ (disconnect-Keeps env)))

  open_session-Keeps : Keeps Shut (open_session env data')
  unfolding open_session
  open_session-Keeps =
      Keeps-bind _ _ (retrieve_session_credentials-Keeps env quiet data' ble_user) (λ found.
        Keeps-if found _ _
          (Keeps-bind _ _ (generate_random_seed-Keeps env quiet ble_user) (λ seed.
            Keeps-bind _ _ (Keeps-require _ _) (λ text.
              Keeps-bind _ _ (session_aes-Keeps env quiet ble_user) (λ aes. respond-Keeps aes _))))
          (keeps_shut _ (disconnect-Keeps env)))

  handle_command-Safely : Careful TakenUp (handle_command env number data')
  unfolding handle_command
  handle_command-Safely =
      handles-Safely env number data' ble_user TakenUp closing _
        (λ aes answer. Keeps-bind _ _ (Keeps-require _ _) (λ response. respond-Keeps aes response))

  in_its_session : (d : Device) → Asked false d → TakenUp d
  in_its_session d (status, asked, is) = in_session status asked is

  message_in_state-Safely :
      (state : UserState) → Careful (Asked false) (message_in_state env number state data')
  unfolding message_in_state
  message_in_state-Safely disconnected = Safely-quiet _ (keeps_shut _ (disconnect-Keeps env))
  message_in_state-Safely connecting = Safely-quiet _ open_session-Keeps
  message_in_state-Safely connected = Safely-from _ in_its_session handle_command-Safely
  message_in_state-Safely authorized = Safely-from _ in_its_session handle_command-Safely

  registered_message-Safely : Careful (Asked true) (registered_message env number data')
  unfolding registered_message
  registered_message-Safely = Safely-gets _ _ (λ got.
      Safely-if got _ _
        (λ set. Safely-modify _ _ (keeps_shut _ (Keeps-modify _ (λ d p. p))) (
          Safely-from _
            (λ e (d, ((status, asked, registered), is), same).
              as_first status d asked registered (is ∙ set) same)
            handle_command-Safely))
        (λ unset. Safely-quiet _ first_key-Keeps))

  uart_message-Safely : Careful (λ d. d ≡ start) (uart_message env number data')
  unfolding uart_message
  uart_message-Safely =
      Safely-over _ _ (looks_up-Keeps env ble_user) (looks_up-Keeps env ble_user) (λ ctx.
        Safely-bind _ _ (get_registration_status-Keeps env quiet) (λ status.
          Safely-if _ _ _
            (λ is. Safely-from _ (λ e b. asked_at e status true is b) registered_message-Safely)
            (λ is.
              Safely-from _ (λ e b. asked_at e status false is b)
                (Safely-over _ _ (user_state-Keeps env ble_user) (user_state-Keeps env ble_user)
                  message_in_state-Safely))))
    where
      asked_at :
          (e : Device) (status : RegistrationStatus) (registered : Bool)
          → is_registered env status ≡ registered
          → Behind (λ d. d ≡ start) (get_registration_status env) status e
          → Asked registered e
      asked_at e status registered is (d, same, run) =
          (status, subst (λ x. get_registration_status env x ≡ (ok status, e)) same run, is)

module _ (env : Env) (number : EspErr → ℤ) (bytes : Bytes) (d : Device) where
  -- The lock stays shut, or the bytes are an unlock command.
  abbrev Outcome : Device → Type 0
  Outcome e =
      StaysClosed (unlocks d.trace) d.led_status e
      ⊎ IsUnlocking env (unescape (c_string bytes)) ble_user
          (IsTakenUp env (record d { uart_data = unescape (c_string bytes) }))

  stays :
      {A : Type 0} (m : Exec A)
      → Keeps (StaysClosed (unlocks d.trace) d.led_status) m
      → Outcome (m d).1
  stays m kept = inl (kept.at d (refl, inl refl))

  judged :
      (data' : Bytes)
      → unescape (c_string bytes) ≡ data'
      → Outcome (uart_message env number data' (record d { uart_data = data' })).1
  judged data' e = rw e (
      (uart_message-Safely env number data' (record d { uart_data = data' })).safely
        (record d { uart_data = data' }) refl (inl (refl, inl refl)))

read_round-unlocks :
    (env : Env) (number : EspErr → ℤ) (bytes : Bytes) (d : Device)
    → Outcome env number bytes d (read_round env number bytes d).1
unfolding read_round modify ◌>>=◌ pure
read_round-unlocks env number [] d = inl (refl, inl refl)
read_round-unlocks env number (c ∷ s) d = by_kind (is_at_response (c_string (c ∷ s)))
  where
    by_kind :
        (b : Bool)
        → Outcome env number
            (c ∷ s)
            d
            ((if b
                then at_response env (c_string (c ∷ s))
                else (modify (λ x. record x { uart_data = unescape (c_string (c ∷ s)) }) >>= λ _.
                    uart_message env number (unescape (c_string (c ∷ s)))))
              (record d { uart_data = c_string (c ∷ s) })).1
    by_kind true = inl (
        (at_response-Keeps env (c_string (c ∷ s))).at (record d { uart_data = c_string (c ∷ s) })
          (refl, inl refl))
    by_kind false = judged env number (c ∷ s) d _ refl

-- Whatever the module delivers in a round of the serial server: the flash is not told that the lock is
-- open, and the LED shows what it showed, a locked door or an idle one; or the bytes, up to their
-- first NUL and with a leading `-` read as `+`, decrypt, when the lock takes them up behind its question
-- for the registration status, under the AES key of the session to an RUD command that then passes its
-- checks.
pub echo_round-unlocks :
    (env : Env) (number : EspErr → ℤ) (bytes : Bytes) (d : Device)
    → StaysClosed (unlocks d.trace) d.led_status (echo_round env number bytes d).1
      ⊎ IsUnlocking env
          (unescape (c_string bytes))
          ble_user
          (IsTakenUp env (record d { uart_data = unescape (c_string bytes) }))
unfolding echo_round gets send_literal raise pure ◌>>=◌
echo_round-unlocks env number bytes d = by_ping (str_eq d.uart_data (codes "PNG"))
  where
    by_network :
        (b : Bool)
        → Outcome env number bytes d ((if b then read_round env number bytes else pure tt) d).1
    by_network true = read_round-unlocks env number bytes d
    by_network false = inl (refl, inl refl)

    by_ping :
        (b : Bool)
        → Outcome env number bytes d
            ((if b
                then send_literal
                else (gets (λ x. x.wifi_connected) >>= λ online.
                    if online then read_round env number bytes else pure tt))
              d).1
    by_ping true = inl (refl, inl refl)
    by_ping false = by_network d.wifi_connected

-- Once the buffer holds a ping, the round stops the firmware, whatever the module delivers.
pub echo_round-ping :
    (env : Env) (number : EspErr → ℤ) (bytes : Bytes) (d : Device)
    → d.uart_data ≡ codes "PNG"
    → (echo_round env number bytes d).0 ≡ fault buffer_overflow
unfolding echo_round gets send_literal raise ◌>>=◌
echo_round-ping env number bytes d ping = rw ping refl
