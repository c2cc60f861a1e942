-- ===== src/Tcp/Opens.antt =====
-- A command over TCP that passes its checks opens the door.
use smart_door_lock_io_t.Common.{ℕ, ℤ, Bytes, true, some, codes, ◌≡◌, refl, sym, subst}
use smart_door_lock_io_t.Types.{authorized, led_unlocked}
use smart_door_lock_io_t.Platform.{Env, EspErr, Trace, esp_ok}
use smart_door_lock_io_t.Device.{
  Device, Result, ok, fault, Exec, pure, require, gets, if_some, ◌>>=◌,
}
use smart_door_lock_io_t.Device.Keeps.{Keeps, Keeps-bind, Keeps-pure}
use smart_door_lock_io_t.Device.Runs.{bind_elim, bind-run}
use smart_door_lock_io_t.Text.{c_string}
use smart_door_lock_io_t.Quiet.{IsQuiet}
use smart_door_lock_io_t.Quiet.Platform.{set_ble_user_state_to_connecting-Keeps}
use smart_door_lock_io_t.Quiet.Messages.{
  add_timestamps_and_nonce_to_msg-Keeps, encrypt_str_aes-Keeps,
}
use smart_door_lock_io_t.Users.{get_user_state, set_ble_user_state_to_connecting}
use smart_door_lock_io_t.Session.{session_aes}
use smart_door_lock_io_t.Aes.{decrypt_base64_aes}
use smart_door_lock_io_t.Args.{get_args, get_command}
use smart_door_lock_io_t.LockStatus.{unlock_lock}
use smart_door_lock_io_t.LockCommands.{ack_message, move_lock, request_move, request_unlock_door}
use smart_door_lock_io_t.LockCommands.Total.{move_lock-opens}
use smart_door_lock_io_t.Handler.{dispatch, check_command}
use smart_door_lock_io_t.Handler.Unlock.{IsGranted}
use smart_door_lock_io_t.Tcp.{
  command_response, response_in, send_and_judge, retransmit_once, disconnect_sock, returned,
}
use smart_door_lock_io_t.Tcp.Kept.{send_rest-Keeps}

abbrev IsOpen : Device → Type 0
IsOpen d = d.led_status ≡ led_unlocked

IsOpen-IsQuiet : IsQuiet IsOpen
IsOpen-IsQuiet = record {
  events = λ e h. record { ignore = λ d p. p };
  nonces = λ d l p. p;
  users = λ d l p. p;
  status = λ d r p. p;
}

-- The door is open, and what is returned, if anything is, is `a`.
abbrev Answers : {A : Type 0} → A → Result A × Device → Type 0
Answers a (ok x, e) = (x ≡ a) × IsOpen e
Answers a (fault f, e) = IsOpen e

Answers-run :
    {A B : Type 0} (m : Exec A) (f : A → Exec B) (d d1 : Device) (a : A) (b : B)
    → m d ≡ (ok a, d1)
    → Answers b (f a d1)
    → Answers b ((m >>= f) d)
Answers-run m f d d1 a b run next = subst (Answers b) (sym (bind-run m f d d1 a run)) next

Answers-bind :
    {A B : Type 0} (m : Exec A) (f : A → Exec B) (d : Device) (a : A) (b : B)
    → Answers a (m d)
    → ((e : Device) → IsOpen e → Answers b (f a e))
    → Answers b ((m >>= f) d)
Answers-bind m f d a b first next =
    bind_elim m f d (Answers b) (λ e d1 run. subst (Answers a) run first)
      (λ x d1 run.
        let (same, shown) = subst (Answers a) run first in
        subst (λ y. Answers b (f y d1)) (sym same) (next d1 shown))

kept-Answers : (m : Exec (Unit {0})) (d : Device) → Keeps IsOpen m → IsOpen d → Answers tt (m d)
kept-Answers m d kept shown = by_run (m d) (kept.at d shown)
  where
    by_run : (r : Result (Unit {0}) × Device) → IsOpen r.1 → Answers tt r
    by_run (ok tt, e) h = (refl, h)
    by_run (fault f, e) h = h

module _ (env : Env) (number : EspErr → ℤ)
    (healthy : (t : Trace) → env.flash_init_err t ≡ esp_ok) where
  request_unlock_door-opens :
      (cmd ip : Bytes) (d : Device)
      → IsGranted env cmd ip d
      → Answers (some ack_message) (request_unlock_door env cmd ip d)
  unfolding request_unlock_door request_move pure
  request_unlock_door-opens cmd ip d g =
      let (e, (moved, shown)) =
        move_lock-opens env g.args ip g.parsed g.verified g.allowed healthy g.is_fresh g.can_use in
      Answers-run (get_args env cmd 3) _ d g.parsed (some g.args) (some ack_message) g.has_words (
        Answers-run (move_lock env (unlock_lock env) g.args ip) _ g.parsed e true (some ack_message)
          moved
          (Answers-bind (set_ble_user_state_to_connecting env) _ e tt (some ack_message)
            (kept-Answers _ e (set_ble_user_state_to_connecting-Keeps env IsOpen-IsQuiet) shown)
            (λ e' shown'. (refl, shown'))))

  check_command-opens :
      (cmd ip : Bytes) (d : Device)
      → get_command cmd ≡ some (codes "RUD")
      → IsGranted env cmd ip d
      → Answers (some ack_message) (check_command env number cmd ip d)
  unfolding check_command require dispatch ◌>>=◌
  check_command-opens cmd ip d word g = rw word (request_unlock_door-opens cmd ip d g)

  command_response-opens :
      (data' addr aes cmd : Bytes) (d d1 d2 : Device)
      → session_aes env addr d ≡ (ok aes, d1)
      → decrypt_base64_aes env aes data' d1 ≡ (ok cmd, d2)
      → get_command cmd ≡ some (codes "RUD")
      → IsGranted env cmd addr d2
      → Answers (some (aes, ack_message)) (command_response env number data' addr d)
  unfolding command_response require pure ◌>>=◌
  command_response-opens data' addr aes cmd d d1 d2 keyed opened word g =
      Answers-run (session_aes env addr) _ d d1 aes _ keyed (
        Answers-run (decrypt_base64_aes env aes data') _ d1 d2 cmd _ opened (
          Answers-bind (check_command env number cmd addr) _ d2 (some ack_message) _
            (check_command-opens cmd addr d2 word g) (λ e shown. (refl, shown))))

  send_and_judge-Keeps :
      (fuel : ℕ) (aes : Bytes) → Keeps IsOpen (send_and_judge env number fuel (aes, ack_message))
  unfolding send_and_judge
  send_and_judge-Keeps fuel aes =
      Keeps-bind _ _ (add_timestamps_and_nonce_to_msg-Keeps env IsOpen-IsQuiet ack_message)
        (λ stamp. Keeps-bind _ _ (encrypt_str_aes-Keeps env IsOpen-IsQuiet aes stamp) (λ sealed.
          Keeps-bind _ _ (send_rest-Keeps env IsOpen-IsQuiet fuel sealed _) (λ _. Keeps-pure _)))

-- A message over TCP in an authorized session, which decrypts, up to its first NUL, under the AES key
-- of the session to an RUD command that passes its checks, does open the lock: with a flash whose
-- initialisation succeeds, the LED shows an unlocked door behind it, whatever becomes of the answer.
pub retransmit_once-opens :
    (env : Env) (number : EspErr → ℤ) (fuel : ℕ) (bytes aes cmd : Bytes) (d d1 d2 d3 : Device)
    → ((t : Trace) → env.flash_init_err t ≡ esp_ok)
    → get_user_state env d.addr_str d ≡ (ok authorized, d1)
    → session_aes env d.addr_str d1 ≡ (ok aes, d2)
    → decrypt_base64_aes env aes (c_string bytes) d2 ≡ (ok cmd, d3)
    → get_command cmd ≡ some (codes "RUD")
    → IsGranted env cmd d.addr_str d3
    → (retransmit_once env number fuel bytes d).1.led_status ≡ led_unlocked
unfolding retransmit_once gets response_in ◌>>=◌
retransmit_once-opens env number fuel bytes aes cmd d d1 d2 d3 healthy state keyed opened word g =
    let answered =
      command_response-opens env number healthy (c_string bytes) d.addr_str aes cmd d1 d2 d3 keyed
        opened word g in
    subst (λ r. IsOpen r.1) (sym (bind-run (get_user_state env d.addr_str) _ d d1 authorized state))
      (bind_elim (response_in env number authorized (c_string bytes) d.addr_str) _ d1
        (λ r. IsOpen r.1) (λ e d' run. subst (Answers (some (aes, ack_message))) run answered)
        (λ response d' run.
          let (same, shown) = subst (Answers (some (aes, ack_message))) run answered in
          subst
            (λ o.
              IsOpen
                (if_some o (send_and_judge env number fuel)
                  (disconnect_sock env >>= λ _. pure returned) d').1)
            (sym same) ((send_and_judge-Keeps env number healthy fuel aes).at d' shown)))
