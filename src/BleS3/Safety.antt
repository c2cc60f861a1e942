-- ===== src/BleS3/Safety.antt =====
-- When a message of the Bluetooth peer opens the lock.
use smart_door_lock_io_t.Common.{
  ℕ, ℤ, Bytes, Bool, true, false, codes, str_eq, if◌then◌else◌, ◌≡◌, ◌∙◌, subst, refl, ◌⊎◌, inl,
}
use smart_door_lock_io_t.Types.{
  UserState, disconnected, connecting, connected, authorized, LedStatus,
}
use smart_door_lock_io_t.Platform.{Env, EspErr}
use smart_door_lock_io_t.Device.{Device, ok, Exec, pure, gets, ◌>>=◌}
use smart_door_lock_io_t.Device.Keeps.{
  Keeps, Keeps-bind, Keeps-if, Keeps-gets, Keeps-modify, Keeps-pure, Keeps-require,
}
use smart_door_lock_io_t.Quiet.{IsQuiet}
use smart_door_lock_io_t.Quiet.Storage.{
  get_registration_status-Keeps, force_get_registration_status-Keeps,
  retrieve_session_credentials-Keeps,
}
use smart_door_lock_io_t.Handler.Safety.{unlocks, StaysShut, StaysShut-IsQuiet}
use smart_door_lock_io_t.BleS3.Process.{
  awaits_first_invite, start_session, answer_command, first_message, message_in, session_message,
  answer_ping, process_online, process_normal_data,
}
use smart_door_lock_io_t.Device.{modify}
use smart_door_lock_io_t.Quiet.Messages.{generate_random_seed-Keeps, session_aes-Keeps}
use smart_door_lock_io_t.Unlocking.{
  IsUnlocking, IsClosing, StaysShut-IsClosing, Safe, Safe-IsQuiet, Safely, Safe-Keeps, Behind,
  handles-Safely, Safely-quiet, Safely-from, Safely-if, Safely-bind, Safely-over, Safely-gets,
  Safely-modify, Safely-then,
}
use smart_door_lock_io_t.BleS3.Kept.{
  send_data_ble_s3-Keeps, disconnect_ble_s3-Keeps, send_response-Keeps, user_state-Keeps,
}

-- How a message from the state `start` on comes to be decrypted: in the state behind the question for
-- the registration status, where that is not REGISTERED; or there with the flag for the first key taken
-- back, where it is REGISTERED and the flag was set.
pub data IsTakenUp (env : Env) (start before : Device) : Type 0 where
  in_session : awaits_first_invite env start ≡ (ok false, before) → IsTakenUp env start before
  as_first :
      (asked : Device)
      → awaits_first_invite env start ≡ (ok true, asked)
      → asked.got_first_key ≡ true
      → before ≡ record asked { got_first_key = false }
      → IsTakenUp env start before

module _ (env : Env) (number : EspErr → ℤ) (data' addr : Bytes) (start : Device) where
  abbrev Start : Device → Type 0
  Start = StaysShut (unlocks start.trace) start.led_status

  abbrev closing : IsClosing Start
  closing = StaysShut-IsClosing start

  abbrev TakenUp : Device → Type 0
  TakenUp = IsTakenUp env start

  -- Behind the question, with its answer.
  abbrev Asked : Bool → Device → Type 0
  Asked first d = awaits_first_invite env start ≡ (ok first, d)

  abbrev Shut : Device → Type 0
  Shut = Safe env number data' addr TakenUp closing

  abbrev quiet : IsQuiet Shut
  quiet = Safe-IsQuiet env number data' addr TakenUp closing

  abbrev Careful : (Device → Type 0) → {A : Type 0} → Exec A → Type 0
  Careful H m = Safely env number data' addr TakenUp closing H m

  answer_command-Safely : Careful TakenUp (answer_command env number data' addr)
  unfolding answer_command
  answer_command-Safely = handles-Safely env number data' addr TakenUp closing _ (λ aes answer.
      Keeps-bind _ _ (Keeps-require _ _) (λ response. send_response-Keeps env quiet aes response))

  abbrev written :
      (f : Device → Device) → ((d : Device) → Start d → Start (f d)) → Keeps Shut (modify f)
  written f step = Safe-Keeps env number data' addr TakenUp closing (modify f) (Keeps-modify f step)

  -- The functions around it.
  start_session-Keeps : Keeps Shut (start_session env data' addr)
  unfolding start_session
  start_session-Keeps =
      Keeps-bind _ _ (retrieve_session_credentials-Keeps env quiet data' addr) (λ found.
        Keeps-if found _ _
          (Keeps-bind _ _ (generate_random_seed-Keeps env quiet addr) (λ seed.
            Keeps-bind _ _ (Keeps-require _ _) (λ text.
              Keeps-bind _ _ (session_aes-Keeps env quiet addr)
                (λ aes. send_response-Keeps env quiet aes _))))
          (disconnect_ble_s3-Keeps env quiet))

  first_message-Safely : Careful (Asked true) (first_message env number data' addr)
  unfolding first_message
  first_message-Safely =
      let status =
        Keeps-bind _ _ (force_get_registration_status-Keeps env quiet) (λ status. Keeps-pure tt) in
      Safely-gets _ _ (λ got.
        Safely-if got _ _
          (λ set. Safely-modify _ _ (written _ (λ d p. p)) (
            Safely-from _ (λ e (d, (asked, is), same). as_first d asked (is ∙ set) same)
              (Safely-then _ _ answer_command-Safely (λ _. status))))
          (λ unset. Safely-quiet _ (
            Keeps-bind _ _ (retrieve_session_credentials-Keeps env quiet data' addr) (λ found.
              Keeps-if found _ _
                (Keeps-bind _ _ (session_aes-Keeps env quiet addr) (λ aes.
                  Keeps-bind _ _ (written _ (λ d p. p))
                    (λ _. Keeps-bind _ _ (send_response-Keeps env quiet aes _) (λ _. status))))
                (disconnect_ble_s3-Keeps env quiet)))))

  message_in-Safely :
      (state : UserState) → Careful (Asked false) (message_in env number state data' addr)
  unfolding message_in
  message_in-Safely disconnected = Safely-quiet _ (disconnect_ble_s3-Keeps env quiet)
  message_in-Safely connecting = Safely-quiet _ start_session-Keeps
  message_in-Safely connected = Safely-from _ (λ d asked. in_session asked) answer_command-Safely
  message_in-Safely authorized = Safely-from _ (λ d asked. in_session asked) answer_command-Safely

  session_message-Safely : Careful (Asked false) (session_message env number data' addr)
  unfolding session_message
  session_message-Safely =
      Safely-over _ _ (user_state-Keeps env addr) (user_state-Keeps env addr) message_in-Safely

  awaits_first_invite-Safe : Keeps Shut (awaits_first_invite env)
  unfolding awaits_first_invite
  awaits_first_invite-Safe = Keeps-bind _ _ (get_registration_status-Keeps env quiet) (λ known.
      Keeps-if _ _ _
        (Keeps-bind _ _ (force_get_registration_status-Keeps env quiet) (λ again. Keeps-pure _))
        (Keeps-pure _))

  first_or_session-Safely :
      Careful
        (λ d. d ≡ start)
        (awaits_first_invite env >>= λ first.
          if first
          then first_message env number data' addr
          else session_message env number data' addr)
  first_or_session-Safely = Safely-bind _ _ awaits_first_invite-Safe (λ first.
      Safely-if first _ _
        (λ is. Safely-from _ (λ e b. asked_at e true (behind is e b)) first_message-Safely)
        (λ is. Safely-from _ (λ e b. asked_at e false (behind is e b)) session_message-Safely))
    where
      behind :
          {first answer : Bool}
          → first ≡ answer
          → (e : Device) → Behind (λ d. d ≡ start) (awaits_first_invite env) first e
          → Behind (λ d. d ≡ start) (awaits_first_invite env) answer e
      behind is e b = subst (λ x. Behind (λ d. d ≡ start) (awaits_first_invite env) x e) is b

      asked_at :
          (e : Device) (answer : Bool)
          → Behind (λ d. d ≡ start) (awaits_first_invite env) answer e
          → Asked answer e
      asked_at e answer (d, same, run) =
          subst (λ x. awaits_first_invite env x ≡ (ok answer, e)) same run

answer_ping-Keeps : (env : Env) (n : ℕ) (s : LedStatus) → Keeps (StaysShut n s) answer_ping
unfolding answer_ping
answer_ping-Keeps env n s =
    Keeps-bind _ _ (Keeps-gets _) (λ online. send_data_ble_s3-Keeps env StaysShut-IsQuiet _)

-- Whatever a Bluetooth peer sends: either the flash is never told that the lock is open and the LED
-- shows what it showed or a locked door; or, when the lock takes the data up behind its question for
-- the registration status, the data decrypts under the AES key of the peer's session to an RUD command,
-- three words of which then pass as timestamps and nonce, and the peer's session then may use the lock.
pub process_normal_data-unlocks :
    (env : Env) (number : EspErr → ℤ) (data' : Bytes) (d : Device)
    → StaysShut (unlocks d.trace) d.led_status (process_normal_data env number data' d).1
      ⊎ IsUnlocking env data' d.ble_user_addr (IsTakenUp env d)
unfolding process_normal_data process_online gets pure ◌>>=◌
process_normal_data-unlocks env number data' d = by_word (str_eq data' (codes "PNG"))
  where
    online :
        (b : Bool)
        → Shut env number data' d.ble_user_addr d
            ((if b
                then (awaits_first_invite env >>= λ first.
                    if first
                    then first_message env number data' d.ble_user_addr
                    else session_message env number data' d.ble_user_addr)
                else pure tt)
              d).1
    online true =
        (first_or_session-Safely env number data' d.ble_user_addr d).safely d refl
          (inl (refl, inl refl))
    online false = inl (refl, inl refl)

    by_word :
        (b : Bool)
        → Shut env number data' d.ble_user_addr d
            ((if b then answer_ping else process_online env number data') d).1
    by_word true = inl ((answer_ping-Keeps env _ _).at d (refl, inl refl))
    by_word false = online d.wifi_connected
