-- ===== src/Quiet.antt =====
-- What the functions that do not move the lock leave alone. A predicate of the globals is quiet if it
-- looks at no event but those of the lock, and at no field that the other components write.
pub mod Platform
pub mod Storage
pub mod Messages
pub mod Decisions
pub mod Commands
use smart_door_lock_io_t.Common.{ℤ, Bytes, Bool, true, false, List, ◌≡◌, refl, ◌∷◌, zero, suc, ℕ}
use smart_door_lock_io_t.Types.{UserInfo, Nonce, RegistrationStatus}
use smart_door_lock_io_t.Platform.{
  Env, Event, write_lock_state, led_init, led_clear, led_refresh, led_pixel,
}
use smart_door_lock_io_t.Device.{Device, Exec}
use smart_door_lock_io_t.Device.Keeps.{Ignores}

-- An event of the lock or of its LED.
abbrev pub is_lock_event : Event → Bool
is_lock_event (write_lock_state s) = true
is_lock_event led_init = true
is_lock_event led_clear = true
is_lock_event led_refresh = true
is_lock_event (led_pixel r g b) = true
is_lock_event _ = false

pub record IsQuiet (P : Device → Type 0) : Type 0 where
  pub events : (e : Event) → is_lock_event e ≡ false → Ignores P e
  pub nonces : (d : Device) (l : List Nonce) → P d → P (record d { nonces = l })
  pub users : (d : Device) (l : List UserInfo) → P d → P (record d { users_info = l })
  pub status :
      (d : Device) (s : RegistrationStatus) → P d → P (record d { registration_status = s })
