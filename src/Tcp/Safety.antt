-- ===== src/Tcp/Safety.antt =====
-- When a TCP connection opens the lock.
use smart_door_lock_io_t.Common.{ℕ, ℤ, Bytes, Option, none, some, ◌≡◌, refl, ◌⊎◌, inl}
use smart_door_lock_io_t.Types.{UserState, disconnected, connecting, connected, authorized}
use smart_door_lock_io_t.Platform.{Env, EspErr}
use smart_door_lock_io_t.Device.{Device, Exec, pure, gets, if_some, ◌>>=◌}
use smart_door_lock_io_t.Device.Keeps.{Keeps, Keeps-bind, Keeps-if, Keeps-pure, Keeps-require}
use smart_door_lock_io_t.Text.{c_string}
use smart_door_lock_io_t.Quiet.{IsQuiet}
use smart_door_lock_io_t.Quiet.Storage.{retrieve_session_credentials-Keeps}
use smart_door_lock_io_t.Quiet.Messages.{
  session_aes-Keeps, generate_random_seed-Keeps, add_timestamps_and_nonce_to_msg-Keeps,
  encrypt_str_aes-Keeps,
}
use smart_door_lock_io_t.Users.{get_user_state}
use smart_door_lock_io_t.BleS3.Kept.{user_state-Keeps}
use smart_door_lock_io_t.Handler.Safety.{unlocks}
use smart_door_lock_io_t.Unlocking.{
  IsUnlocking, IsClosing, Safe, Safe-IsQuiet, Safe-Keeps, Safely, handles-Safely, Safely-quiet,
  Safely-over, Safely-then,
}
use smart_door_lock_io_t.Tcp.{
  returned, disconnect_sock, opened_session, command_response, response_in, send_and_judge,
  retransmit_once,
}
use smart_door_lock_io_t.Tcp.Kept.{
  StaysClosed, StaysClosed-IsClosing, send_rest-Keeps, disconnect_sock-Keeps,
}

module _ (env : Env) (number : EspErr → ℤ) (fuel : ℕ) (data' addr : Bytes) (start : Device) where
  abbrev Start : Device → Type 0
  Start = StaysClosed (unlocks start.trace) start.led_status

  abbrev closing : IsClosing Start
  closing = StaysClosed-IsClosing

  -- The message is taken up at arrival.
  abbrev AtStart : Device → Type 0
  AtStart d = d ≡ start

  abbrev Shut : Device → Type 0
  Shut = Safe env number data' addr AtStart closing

  abbrev quiet : IsQuiet Shut
  quiet = Safe-IsQuiet env number data' addr AtStart closing

  abbrev Careful : {A : Type 0} → Exec A → Type 0
  Careful m = Safely env number data' addr AtStart closing AtStart m

  hangs_up-Keeps : Keeps Shut (disconnect_sock env)
  hangs_up-Keeps = Safe-Keeps env number data' addr AtStart closing _ (disconnect_sock-Keeps env)

  send_and_judge-Keeps :
      (response : Bytes × Bytes) → Keeps Shut (send_and_judge env number fuel response)
  unfolding send_and_judge
  send_and_judge-Keeps (aes, response) =
      Keeps-bind _ _ (add_timestamps_and_nonce_to_msg-Keeps env quiet response) (λ stamped.
        Keeps-bind _ _ (encrypt_str_aes-Keeps env quiet aes stamped) (λ sealed.
          Keeps-bind _ _ (send_rest-Keeps env quiet fuel sealed _) (λ _.
            Keeps-if _ _ _ (Keeps-bind _ _ hangs_up-Keeps (λ _. Keeps-pure _)) (Keeps-pure _))))

  opened_session-Keeps : Keeps Shut (opened_session env data' addr)
  unfolding opened_session
  opened_session-Keeps =
      Keeps-bind _ _ (retrieve_session_credentials-Keeps env quiet data' addr) (λ found.
        Keeps-if found _ _
          (Keeps-bind _ _ (generate_random_seed-Keeps env quiet addr) (λ seed.
            Keeps-bind _ _ (Keeps-require _ _)
              (λ text. Keeps-bind _ _ (session_aes-Keeps env quiet addr) (λ aes. Keeps-pure _))))
          (Keeps-pure _))

  command_response-Safely : Careful (command_response env number data' addr)
  unfolding command_response
  command_response-Safely =
      handles-Safely env number data' addr AtStart closing _
        (λ aes answer. Keeps-bind _ _ (Keeps-require _ _) (λ response. Keeps-pure _))

  response_in-Safely : (state : UserState) → Careful (response_in env number state data' addr)
  unfolding response_in
  response_in-Safely disconnected = Safely-quiet _ (Keeps-pure _)
  response_in-Safely connecting = Safely-quiet _ opened_session-Keeps
  response_in-Safely connected = command_response-Safely
  response_in-Safely authorized = command_response-Safely

  judged-Keeps :
      (response : Option (Bytes × Bytes))
      → Keeps Shut (
          if_some response
            (send_and_judge env number fuel)
            (disconnect_sock env >>= λ _. pure returned))
  judged-Keeps none = Keeps-bind _ _ hangs_up-Keeps (λ _. Keeps-pure _)
  judged-Keeps (some response) = send_and_judge-Keeps response

  answered-Safely : Careful (
      get_user_state env addr >>= λ state. response_in env number state data' addr >>= λ response.
      if_some response
        (send_and_judge env number fuel)
        (disconnect_sock env >>= λ _. pure returned))
  answered-Safely =
      Safely-over _ _ (user_state-Keeps env addr) (user_state-Keeps env addr)
        (λ state. Safely-then _ _ (response_in-Safely state) judged-Keeps)

-- Whatever bytes come in on a TCP connection: the lock stays shut, or they are, as the lock is when they
-- come in, an unlock command of the session that passes its checks.
pub retransmit_once-unlocks :
    (env : Env) (number : EspErr → ℤ) (fuel : ℕ) (bytes : Bytes) (d : Device)
    → StaysClosed (unlocks d.trace) d.led_status (retransmit_once env number fuel bytes d).1
      ⊎ IsUnlocking env (c_string bytes) d.addr_str (λ e. e ≡ d)
unfolding retransmit_once gets ◌>>=◌
retransmit_once-unlocks env number fuel bytes d =
    (answered-Safely env number fuel (c_string bytes) d.addr_str d).safely d refl
      (inl (refl, inl refl))
