-- ===== src/Handler/Safety.antt =====
-- Which commands of `checkCommand` may open the lock.
use smart_door_lock_io_t.Common.{ℕ, ◌+◌, ℤ, Bytes, true, false, [], ◌∷◌, ◌≡◌, refl, arith, ◌⊎◌, inr}
use smart_door_lock_io_t.Types.{unlocked, LedStatus, led_locked}
use smart_door_lock_io_t.Platform.{
  Env, EspErr, Event, Trace, is_ok, write_lock_state, read_lock_state,
}
use smart_door_lock_io_t.Device.{Device, Exec}
use smart_door_lock_io_t.Device.Keeps.{
  Keeps, Ignores, Keeps-bind, Keeps-if, Keeps-if_some, Keeps-call, Keeps-modify, Keeps-pure,
  Keeps-raise,
}
use smart_door_lock_io_t.Nvs.{is_not_found, set_lock_state}
use smart_door_lock_io_t.LockStatus.Led.{is_led_event, update_led_color-Keeps}
use smart_door_lock_io_t.LockStatus.{set_led_status, lock_lock, get_lock_state}
use smart_door_lock_io_t.Quiet.{IsQuiet, is_lock_event}
use smart_door_lock_io_t.Quiet.Platform.{
  get_user_state-Keeps, set_ble_user_state_to_connecting-Keeps,
}
use smart_door_lock_io_t.Quiet.Decisions.{
  get_args-Keeps, verify_timestamps_and_nonce-Keeps, can_use_lock-Keeps,
}
use smart_door_lock_io_t.LockCommands.{
  move_lock, request_move, request_lock_door, read_state, request_door_state,
}
use smart_door_lock_io_t.Quiet.Storage.{init_nvs-Keeps, open_nvs-Keeps, write_and_commit-Keeps}

abbrev pub is_unlocking : Event → ℕ
is_unlocking (write_lock_state unlocked) = 1
is_unlocking _ = 0

-- How often the flash was told that the lock is open.
abbrev pub unlocks : Trace → ℕ
unlocks [] = 0
unlocks (e ∷ es) = is_unlocking e + unlocks es

-- The flash was told so `n` times and no more, and the LED shows `s` or a locked door.
abbrev pub StaysShut : ℕ → LedStatus → Device → Type 0
StaysShut n s d = (unlocks d.trace ≡ n) × ((d.led_status ≡ s) ⊎ (d.led_status ≡ led_locked))

pub quiet-is_unlocking : (e : Event) → is_lock_event e ≡ false → is_unlocking e ≡ 0
quiet-is_unlocking (write_lock_state s) h = ground arith
quiet-is_unlocking _ h = refl

pub led-is_unlocking : (e : Event) → is_led_event e ≡ true → is_unlocking e ≡ 0
led-is_unlocking (write_lock_state s) h = absurd (false-true h)
  where
    false-true : false ≡ true → ⊥
    false-true p = ground arith
led-is_unlocking _ h = refl

module _ {n : ℕ} {s : LedStatus} where
  shut : (e : Event) → is_unlocking e ≡ 0 → Ignores (StaysShut n s) e
  shut e h = record { ignore = λ d p. (omega (arith, h, p.0), p.1) }

  pub StaysShut-IsQuiet : IsQuiet (StaysShut n s)
  StaysShut-IsQuiet = record {
    events = λ e h. shut e (quiet-is_unlocking e h);
    nonces = λ d l p. p;
    users = λ d l p. p;
    status = λ d r p. p;
  }

  pub lock_lock-Keeps : (env : Env) → Keeps (StaysShut n s) (lock_lock env)
  unfolding lock_lock set_lock_state set_led_status
  lock_lock-Keeps env =
      Keeps-bind _ _ (write_and_commit-Keeps env StaysShut-IsQuiet _ (Keeps-call _ _ (shut _ refl)))
        (λ _.
          Keeps-bind _ _ (Keeps-modify _ (λ d p. (p.0, inr refl)))
            (λ _. update_led_color-Keeps (λ e h. shut e (led-is_unlocking e h)) (λ d p. p)))

  pub get_lock_state-Keeps :
      (env : Env) (number : EspErr → ℤ) → Keeps (StaysShut n s) (get_lock_state env number)
  unfolding get_lock_state
  get_lock_state-Keeps env number = Keeps-bind _ _ (init_nvs-Keeps env StaysShut-IsQuiet) (λ err.
      Keeps-if (is_ok err) _ _
        (Keeps-bind _ _ (open_nvs-Keeps env StaysShut-IsQuiet) (λ opened.
          Keeps-if (is_ok opened) _ _
            (Keeps-bind _ _ (Keeps-call _ _ (shut read_lock_state refl)) (λ (res, value).
              Keeps-if (is_ok res) _ _ (Keeps-pure _) (
                Keeps-if (is_not_found res) _ _
                  (Keeps-bind _ _ (lock_lock-Keeps env) (λ _. Keeps-pure _)) (Keeps-raise _))))
            (Keeps-pure _)))
        (Keeps-pure _))

  pub read_state-Keeps :
      (env : Env) (number : EspErr → ℤ) (ip : Bytes)
      → Keeps (StaysShut n s) (read_state env number ip)
  unfolding read_state
  read_state-Keeps env number ip =
      Keeps-bind _ _ (get_user_state-Keeps env StaysShut-IsQuiet ip) (λ state.
        Keeps-if _ _ _
          (Keeps-bind _ _ (get_lock_state-Keeps env number) (λ lock_state. Keeps-pure _))
          (Keeps-pure _))

  pub request_door_state-Keeps :
      (env : Env) (number : EspErr → ℤ) (cmd ip : Bytes)
      → Keeps (StaysShut n s) (request_door_state env number cmd ip)
  unfolding request_door_state
  request_door_state-Keeps env number cmd ip =
      let again = set_ble_user_state_to_connecting-Keeps env StaysShut-IsQuiet in
      Keeps-bind _ _ (get_args-Keeps env cmd 3) (λ words.
        Keeps-if_some words _ _
          (λ args.
            Keeps-bind _ _ (verify_timestamps_and_nonce-Keeps env StaysShut-IsQuiet args 0)
              (λ fresh.
                Keeps-bind _ _ (Keeps-if fresh _ _ (read_state-Keeps env number ip) (Keeps-pure _))
                  (λ response. Keeps-bind _ _ again (λ _. Keeps-pure _))))
          (Keeps-bind _ _ again (λ _. Keeps-pure _)))

  -- With a move that keeps the door shut, so does the whole command.
  pub request_move-Keeps :
      (env : Env) (move : Exec (Unit {0})) (cmd ip : Bytes)
      → Keeps (StaysShut n s) move
      → Keeps (StaysShut n s) (request_move env move cmd ip)
  unfolding request_move move_lock
  request_move-Keeps env move cmd ip kept = Keeps-bind _ _ (get_args-Keeps env cmd 3) (λ words.
      Keeps-if_some words _ _
        (λ args.
          Keeps-bind _ _
            (Keeps-bind _ _ (verify_timestamps_and_nonce-Keeps env StaysShut-IsQuiet args 0)
              (λ fresh.
                Keeps-if fresh _ _
                  (Keeps-bind _ _ (can_use_lock-Keeps env StaysShut-IsQuiet ip) (λ allowed.
                    Keeps-if allowed _ _ (Keeps-bind _ _ kept (λ _. Keeps-pure _)) (Keeps-pure _)))
                  (Keeps-pure _)))
            (λ ack.
              Keeps-bind _ _ (set_ble_user_state_to_connecting-Keeps env StaysShut-IsQuiet)
                (λ _. Keeps-pure _)))
        (Keeps-pure _))

  pub request_lock_door-Keeps :
      (env : Env) (cmd ip : Bytes) → Keeps (StaysShut n s) (request_lock_door env cmd ip)
  unfolding request_lock_door
  request_lock_door-Keeps env cmd ip = request_move-Keeps env _ cmd ip (lock_lock-Keeps env)
