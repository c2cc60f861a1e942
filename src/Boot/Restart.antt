-- ===== src/Boot/Restart.antt =====
-- main/main.c: init_led_lock_state on the lock state that an earlier move left in flash.
use smart_door_lock_io_t.Common.{ℤ, Option, none, some, ◌≡◌, ap, sym, subst, ◌∙◌}
use smart_door_lock_io_t.Types.{
  LockState, locked, unlocked, LedStatus, lock_state_of, lock_state_value, led_locked, led_unlocked,
}
use smart_door_lock_io_t.Platform.{Env, EspErr, Trace}
use smart_door_lock_io_t.Device.{Device, Result, ok, pure}
use smart_door_lock_io_t.Device.Runs.{bind-run}
use smart_door_lock_io_t.Nvs.Flash.{IsHealthy}
use smart_door_lock_io_t.LockStatus.{lock_lock, unlock_lock, get_lock_state}
use smart_door_lock_io_t.LockStatus.Cell.{
  IsLockStore, Holds, asked, unlock_lock-Holds, lock_lock-Holds, get_lock_state-found,
  get_lock_state-missing,
}
use smart_door_lock_io_t.LockCommands.Total.{lock_lock-Returns, unlock_lock-Returns}
use smart_door_lock_io_t.Boot.{show_state, init_led_lock_state}

module _ (env : Env) (number : EspErr → ℤ) (content : Trace → Option ℤ) (healthy : IsHealthy env)
    (store : IsLockStore env content) (d : Device) where
  abbrev boot : Result (Unit {0}) × Device
  boot = init_led_lock_state env number d

  unlocked_boot :
      content d.trace ≡ some (lock_state_value unlocked)
      → (boot.0 ≡ ok tt) × Holds env content unlocked led_unlocked boot.1
  unfolding init_led_lock_state show_state lock_state_of
  unlocked_boot h =
      let e : Device = asked d in
      let (_, (f, run)) = (unlock_lock-Returns env healthy.init).at e in
      let whole : boot ≡ unlock_lock env e =
        bind-run (get_lock_state env number) (show_state env number) d e unlocked
          (get_lock_state-found env content healthy store number d (lock_state_value unlocked) h) in
      (
        ap (λ r. r.0) (whole ∙ run),
        subst (λ r. Holds env content unlocked led_unlocked r.1) (sym whole)
            (unlock_lock-Holds env content healthy store e),
      )

  locked_boot :
      content d.trace ≡ some (lock_state_value locked)
      → (boot.0 ≡ ok tt) × Holds env content locked led_locked boot.1
  unfolding init_led_lock_state show_state lock_state_of
  locked_boot h =
      let e : Device = asked d in
      let (_, (f, run)) = (lock_lock-Returns env healthy.init).at e in
      let whole : boot ≡ lock_lock env e =
        bind-run (get_lock_state env number) (show_state env number) d e locked
          (get_lock_state-found env content healthy store number d (lock_state_value locked) h) in
      (
        ap (λ r. r.0) (whole ∙ run),
        subst (λ r. Holds env content locked led_locked r.1) (sym whole)
            (lock_lock-Holds env content healthy store e),
      )

  empty_boot :
      content d.trace ≡ none → (boot.0 ≡ ok tt) × Holds env content locked led_locked boot.1
  unfolding init_led_lock_state show_state pure
  empty_boot h =
      let e : Device = asked d in
      let (_, (f, run)) = (lock_lock-Returns env healthy.init).at e in
      let (_, (g, run')) = (lock_lock-Returns env healthy.init).at f in
      let whole : boot ≡ lock_lock env f =
        bind-run (get_lock_state env number) (show_state env number) d f locked (
          get_lock_state-missing env content healthy store number d h
          ∙ bind-run (lock_lock env) (λ _. pure locked) e f tt run) in
      (
        ap (λ r. r.0) (whole ∙ run'),
        subst (λ r. Holds env content locked led_locked r.1) (sym whole)
            (lock_lock-Holds env content healthy store f),
      )

-- The last move of the lock that the flash has seen.
pub data LastMove : Type 0 where
  never by_unlock by_lock : LastMove

-- What it has left in flash, the state it has left the door in, and the LED that shows that state.
abbrev pub left_by : Env → (Trace → Option ℤ) → Device → LastMove → Option ℤ
left_by env content before never = none
left_by env content before by_unlock = content (unlock_lock env before).1.trace
left_by env content before by_lock = content (lock_lock env before).1.trace

abbrev pub state_after : LastMove → LockState
state_after by_unlock = unlocked
state_after _ = locked

abbrev pub led_after : LastMove → LedStatus
led_after by_unlock = led_unlocked
led_after _ = led_locked

-- init_led_lock_state brings back the state of the door. With a flash that works, call it where the
-- flash holds what it held behind some unlock_lock or lock_lock, or nothing: it returns, and then the
-- flash holds and the LED shows an unlocked door behind unlock_lock, and a locked one behind lock_lock
-- and for an empty flash.
pub init_led_lock_state-Holds :
    (env : Env) (number : EspErr → ℤ) (content : Trace → Option ℤ) (before after : Device)
    (move : LastMove)
    → IsHealthy env
    → IsLockStore env content
    → content after.trace ≡ left_by env content before move
    → ((init_led_lock_state env number after).0 ≡ ok tt)
      × Holds env content
          (state_after move)
          (led_after move)
          (init_led_lock_state env number after).1
init_led_lock_state-Holds env number content before after never healthy store same =
    empty_boot env number content healthy store after same
init_led_lock_state-Holds env number content before after by_unlock healthy store same =
    unlocked_boot env number content healthy store after
      (same ∙ (unlock_lock-Holds env content healthy store before).0)
init_led_lock_state-Holds env number content before after by_lock healthy store same =
    locked_boot env number content healthy store after
      (same ∙ (lock_lock-Holds env content healthy store before).0)
