-- ===== src/LockCommands/Answers.antt =====
-- The answers of RUD and RLD against the LED of the lock.
use smart_door_lock_io_t.Common.{
  Bytes, Bool, true, false, List, Option, none, some, ◌≡◌, refl, ap, sym, subst, ◌∙◌, if◌then◌else◌,
}
use smart_door_lock_io_t.Types.{locked, unlocked, LedStatus, led_locked, led_unlocked}
use smart_door_lock_io_t.Platform.{Env}
use smart_door_lock_io_t.Device.{Device, ok, Exec, pure, modify, if_some, ◌>>=◌}
use smart_door_lock_io_t.Device.Keeps.{Keeps}
use smart_door_lock_io_t.Device.Runs.{ok-injective, bind-ok}
use smart_door_lock_io_t.Nvs.{set_lock_state}
use smart_door_lock_io_t.LockStatus.Led.{update_led_color-Keeps}
use smart_door_lock_io_t.LockStatus.{set_led_status, lock_lock, unlock_lock}
use smart_door_lock_io_t.Quiet.{IsQuiet}
use smart_door_lock_io_t.Quiet.Platform.{set_ble_user_state_to_connecting-Keeps}
use smart_door_lock_io_t.Quiet.Decisions.{
  get_args-Keeps, verify_timestamps_and_nonce-Keeps, can_use_lock-Keeps,
}
use smart_door_lock_io_t.Users.{set_ble_user_state_to_connecting}
use smart_door_lock_io_t.Args.{get_args}
use smart_door_lock_io_t.Access.{verify_timestamps_and_nonce, can_use_lock}
use smart_door_lock_io_t.LockCommands.{
  ack_if, nak, move_lock, request_move, request_unlock_door, request_lock_door,
}

abbrev Shows : LedStatus → Device → Type 0
Shows s d = d.led_status ≡ s

Shows-IsQuiet : (s : LedStatus) → IsQuiet (Shows s)
Shows-IsQuiet s = record {
  events = λ e h. record { ignore = λ d p. p };
  nonces = λ d l p. p;
  users = λ d l p. p;
  status = λ d r p. p;
}

-- A run of a function that keeps the LED.
kept_led :
    {A : Type 0} (m : Exec A) (d d' : Device) (a : A)
    → Keeps (Shows d.led_status) m
    → m d ≡ (ok a, d')
    → d'.led_status ≡ d.led_status
kept_led m d d' a kept run = subst (Shows d.led_status) (ap (λ r. r.1) run) (kept.at d refl)

-- A function that leaves the LED showing `s` wherever it returns.
abbrev Sets : LedStatus → Exec (Unit {0}) → Type 0
Sets s m = (d d' : Device) → m d ≡ (ok tt, d') → d'.led_status ≡ s

set_led_status-Sets : (s : LedStatus) → Sets s (set_led_status s)
unfolding set_led_status modify ◌>>=◌
set_led_status-Sets s d d' h = subst (Shows s) (ap (λ r. r.1) h) (
    (update_led_color-Keeps {P = Shows s} (λ e h. record { ignore = λ x p. p }) (λ x p. p)).at
      (record d { led_status = s }) refl)

behind-Sets : {A : Type 0} (m : Exec A) (s : LedStatus) → Sets s (m >>= λ _. set_led_status s)
behind-Sets m s d d' h =
    let (e, (d1, (run, h1))) = bind-ok m (λ _. set_led_status s) d d' tt h in
    set_led_status-Sets s d1 d' h1

pub unlock_lock-Sets : (env : Env) → Sets led_unlocked (unlock_lock env)
unfolding unlock_lock
unlock_lock-Sets env = behind-Sets (set_lock_state env unlocked) led_unlocked

lock_lock-Sets : (env : Env) → Sets led_locked (lock_lock env)
unfolding lock_lock
lock_lock-Sets env = behind-Sets (set_lock_state env locked) led_locked

-- The LED that an answer stands for.
abbrev pub led_after : Bool → LedStatus → LedStatus → LedStatus
led_after ack moved before = if ack then moved else before

module _ (env : Env) (move : Exec (Unit {0})) (s : LedStatus) (sets : Sets s move) where
  moved_if :
      (b : Bool) (d d' : Device) (ack : Bool)
      → (if b then (move >>= λ _. pure true) else pure false) d ≡ (ok ack, d')
      → d'.led_status ≡ led_after ack s d.led_status
  unfolding pure
  moved_if true d d' ack h =
      let (u, (d1, (run, h1))) = bind-ok move (λ _. pure true) d d' ack h in
      let (is, same) = ok-injective h1 in
      subst (λ a. d'.led_status ≡ led_after a s d.led_status) is
        (ap (λ e. e.led_status) (sym same) ∙ sets d d1 run)
  moved_if false d d' ack h =
      let (is, same) = ok-injective h in
      subst (λ a. d'.led_status ≡ led_after a s d.led_status) is (ap (λ e. e.led_status) (sym same))

  allowed_if :
      (ip : Bytes) (b : Bool) (d d' : Device) (ack : Bool)
      → (if b
            then (can_use_lock env ip >>= λ allowed.
                if allowed then (move >>= λ _. pure true) else pure false)
            else pure false)
          d
        ≡ (ok ack, d')
      → d'.led_status ≡ led_after ack s d.led_status
  unfolding pure
  allowed_if ip true d d' ack h =
      let (b, (d1, (run, h1))) = bind-ok (can_use_lock env ip) _ d d' ack h in
      subst (λ l. d'.led_status ≡ led_after ack s l)
        (kept_led _ d d1 b (can_use_lock-Keeps env (Shows-IsQuiet _) ip) run)
        (moved_if b d1 d' ack h1)
  allowed_if ip false d d' ack h =
      let (is, same) = ok-injective h in
      subst (λ a. d'.led_status ≡ led_after a s d.led_status) is (ap (λ e. e.led_status) (sym same))

  pub move_lock-led :
      (args : List Bytes) (ip : Bytes) (d d' : Device) (ack : Bool)
      → move_lock env move args ip d ≡ (ok ack, d')
      → d'.led_status ≡ led_after ack s d.led_status
  unfolding move_lock
  move_lock-led args ip d d' ack h =
      let (b, (d1, (run, h1))) = bind-ok (verify_timestamps_and_nonce env args 0) _ d d' ack h in
      subst (λ l. d'.led_status ≡ led_after ack s l)
        (kept_led _ d d1 b (verify_timestamps_and_nonce-Keeps env (Shows-IsQuiet _) args 0) run)
        (allowed_if ip b d1 d' ack h1)

  -- The answer names whether the door was moved.
  request_move-answer :
      (cmd ip : Bytes) (d d' : Device) (r : Option Bytes)
      → request_move env move cmd ip d ≡ (ok r, d')
      → (ack : Bool) × ((r ≡ some (ack_if ack)) × (d'.led_status ≡ led_after ack s d.led_status))
  unfolding request_move pure
  request_move-answer cmd ip d d' r h =
      let (words, (d1, (run, h1))) = bind-ok (get_args env cmd 3) _ d d' r h in
      let same = kept_led _ d d1 words (get_args-Keeps env cmd 3) run in by_words words d1 same h1
    where
      Answer : Type 0
      Answer =
          (ack : Bool) × ((r ≡ some (ack_if ack)) × (d'.led_status ≡ led_after ack s d.led_status))

      by_words :
          (words : Option (List Bytes)) (d1 : Device)
          → d1.led_status ≡ d.led_status
          → if_some words
              (λ args. move_lock env move args ip >>= λ ack.
                set_ble_user_state_to_connecting env >>= λ _. pure (some (ack_if ack)))
              nak
              d1
            ≡ (ok r, d')
          → Answer
      by_words none d1 same h1 =
          let (is, e) = ok-injective h1 in (false, (sym is, ap (λ x. x.led_status) (sym e) ∙ same))
      by_words (some args) d1 same h1 =
          let (ack, (d2, (run2, h2))) = bind-ok (move_lock env move args ip) _ d1 d' r h1 in
          let (u, (d3, (run3, h3))) = bind-ok (set_ble_user_state_to_connecting env) _ d2 d' r h2 in
          let (is, e) = ok-injective h3 in
          let quiet = set_ble_user_state_to_connecting-Keeps env (Shows-IsQuiet _) in
          (
            ack,
            (
              sym is,
              ap (λ x. x.led_status) (sym e)
                  ∙ kept_led _ d2 d3 u quiet run3
                  ∙ subst (λ l. d2.led_status ≡ led_after ack s l) same
                      (move_lock-led args ip d1 d2 ack run2),
            ),
          )

request_unlock_door-answer :
    (env : Env) (cmd ip : Bytes) (d d' : Device) (r : Option Bytes)
    → request_unlock_door env cmd ip d ≡ (ok r, d')
    → (ack : Bool) × ((r ≡ some (ack_if ack))
        × (d'.led_status ≡ led_after ack led_unlocked d.led_status))
unfolding request_unlock_door
request_unlock_door-answer env = request_move-answer env _ led_unlocked (unlock_lock-Sets env)

request_lock_door-answer :
    (env : Env) (cmd ip : Bytes) (d d' : Device) (r : Option Bytes)
    → request_lock_door env cmd ip d ≡ (ok r, d')
    → (ack : Bool) × ((r ≡ some (ack_if ack))
        × (d'.led_status ≡ led_after ack led_locked d.led_status))
unfolding request_lock_door
request_lock_door-answer env = request_move-answer env _ led_locked (lock_lock-Sets env)

-- The two commands that move the door, and what the LED shows of them.
abbrev pub request_door : Bool → Env → Bytes → Bytes → Exec (Option Bytes)
request_door true = request_unlock_door
request_door false = request_lock_door

abbrev pub led_of_door : Bool → LedStatus
led_of_door true = led_unlocked
led_of_door false = led_locked

-- Wherever RUD answers, the answer is ACK and the LED shows an unlocked door, or it is NAK and the LED
-- shows what it showed; wherever RLD answers, the same with a locked door.
pub request_door-answer :
    (unlocks_it : Bool) (env : Env) (cmd ip : Bytes) (d d' : Device) (r : Option Bytes)
    → request_door unlocks_it env cmd ip d ≡ (ok r, d')
    → (ack : Bool) × ((r ≡ some (ack_if ack))
        × (d'.led_status ≡ led_after ack (led_of_door unlocks_it) d.led_status))
request_door-answer true = request_unlock_door-answer
request_door-answer false = request_lock_door-answer
