-- ===== src/LockCommands/Total.antt =====
-- Functions that always return, and the move of a door that is granted.
use smart_door_lock_io_t.Common.{Bytes, Bool, true, false, List, ◌≡◌, refl, ◌∙◌, if◌then◌else◌}
use smart_door_lock_io_t.Types.{LockState, locked, unlocked, LedStatus, led_locked, led_unlocked}
use smart_door_lock_io_t.Platform.{Env, Event, Trace, esp_ok}
use smart_door_lock_io_t.Device.{Device, ok, Exec, pure, call, emit, gets, modify, ◌>>=◌}
use smart_door_lock_io_t.Device.Runs.{bind-run}
use smart_door_lock_io_t.Nvs.{init_nvs, open_nvs, with_nvs, write_and_commit, set_lock_state}
use smart_door_lock_io_t.LockStatus.{
  configure_led, change_led_color, update_led_color, set_led_status, lock_lock, unlock_lock,
}
use smart_door_lock_io_t.Access.{verify_timestamps_and_nonce, can_use_lock}
use smart_door_lock_io_t.LockCommands.{move_lock}
use smart_door_lock_io_t.LockCommands.Answers.{move_lock-led, unlock_lock-Sets}

pub record Returns {A : Type 0} (m : Exec A) : Type 0 where
  pub at : (d : Device) → (a : A) × ((d' : Device) × (m d ≡ (ok a, d')))

Returns-pure : {A : Type 0} (a : A) → Returns (pure a)
unfolding pure
Returns-pure a = record { at = λ d. (a, (d, refl)) }

Returns-call : {A : Type 0} (e : Event) (answer : Trace → A) → Returns (call e answer)
unfolding call
Returns-call e answer = record { at = λ d. (_, (_, refl)) }

Returns-emit : (e : Event) → Returns (emit e)
unfolding emit
Returns-emit e = record { at = λ d. (_, (_, refl)) }

Returns-gets : {A : Type 0} (f : Device → A) → Returns (gets f)
unfolding gets
Returns-gets f = record { at = λ d. (_, (_, refl)) }

Returns-modify : (f : Device → Device) → Returns (modify f)
unfolding modify
Returns-modify f = record { at = λ d. (_, (_, refl)) }

Returns-if :
    {A : Type 0} (b : Bool) (m n : Exec A) → Returns m → Returns n → Returns (if b then m else n)
Returns-if true m n rm rn = rm
Returns-if false m n rm rn = rn

Returns-bind :
    {A B : Type 0} (m : Exec A) (f : A → Exec B)
    → Returns m
    → ((a : A) → Returns (f a))
    → Returns (m >>= f)
Returns-bind m f rm rf = record {
  at = λ d.
      let (a, (d1, run)) = rm.at d in
      let (b, (d2, run')) = (rf a).at d1 in (b, (d2, bind-run m f d d1 a run ∙ run'));
}

ruleset returns_rules = (
  Returns-pure, Returns-call, Returns-emit, Returns-gets, Returns-modify, Returns-if, Returns-bind,
)

module _ (env : Env) (healthy : (t : Trace) → env.flash_init_err t ≡ esp_ok) where
  init_nvs-Returns : Returns (init_nvs env)
  unfolding init_nvs call pure ◌>>=◌
  init_nvs-Returns = record { at = λ d. rw (healthy d.trace) (_, (_, refl)) }

  open_nvs-Returns : Returns (open_nvs env)
  unfolding open_nvs
  open_nvs-Returns = search returns_rules

  set_lock_state-Returns : (s : LockState) → Returns (set_lock_state env s)
  unfolding set_lock_state write_and_commit with_nvs
  set_lock_state-Returns s = search (returns_rules, init_nvs-Returns, open_nvs-Returns) depth 14

  set_led_status-Returns : (s : LedStatus) → Returns (set_led_status s)
  unfolding set_led_status update_led_color configure_led change_led_color
  set_led_status-Returns s = search returns_rules depth 14

  pub unlock_lock-Returns : Returns (unlock_lock env)
  unfolding unlock_lock
  unlock_lock-Returns =
      Returns-bind _ _ (set_lock_state-Returns unlocked) (λ _. set_led_status-Returns led_unlocked)

  pub lock_lock-Returns : Returns (lock_lock env)
  unfolding lock_lock
  lock_lock-Returns =
      Returns-bind _ _ (set_lock_state-Returns locked) (λ _. set_led_status-Returns led_locked)

-- A fresh message of a sender who may use the lock does open it: with a flash whose initialisation
-- succeeds, and whatever the later calls of the flash answer, the move returns, its answer will be ACK,
-- and the LED shows an unlocked door.
pub move_lock-opens :
    (env : Env) (args : List Bytes) (ip : Bytes) (d d1 d2 : Device)
    → ((t : Trace) → env.flash_init_err t ≡ esp_ok)
    → verify_timestamps_and_nonce env args 0 d ≡ (ok true, d1)
    → can_use_lock env ip d1 ≡ (ok true, d2)
    → (d' : Device) × ((move_lock env (unlock_lock env) args ip d ≡ (ok true, d'))
        × (d'.led_status ≡ led_unlocked))
move_lock-opens env args ip d d1 d2 healthy fresh allowed =
    let (u, (d', run)) = (unlock_lock-Returns env healthy).at d2 in
    let moved = steps d' run in
    (
      d',
      (
        moved,
        move_lock-led env (unlock_lock env) led_unlocked (unlock_lock-Sets env) args ip d d' true
            moved,
      ),
    )
  where
    steps :
        (d' : Device)
        → unlock_lock env d2 ≡ (ok tt, d')
        → move_lock env (unlock_lock env) args ip d ≡ (ok true, d')
    steps d' run =
        unfold move_lock in
        (bind-run (verify_timestamps_and_nonce env args 0) _ d d1 true fresh
          ∙ bind-run (can_use_lock env ip) _ d1 d2 true allowed
          ∙ bind-run (unlock_lock env) (λ _. pure true) d2 d' tt run
          ∙ (unfold pure in refl))
