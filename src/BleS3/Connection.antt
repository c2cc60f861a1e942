-- ===== src/BleS3/Connection.antt =====
-- Any run of the Bluetooth callbacks.
use smart_door_lock_io_t.Common.{ℕ, ℤ, refl, ◌⊎◌, inl, inr}
use smart_door_lock_io_t.Platform.{Env, EspErr}
use smart_door_lock_io_t.Device.{Device}
use smart_door_lock_io_t.Handler.Safety.{unlocks}
use smart_door_lock_io_t.Tcp.Kept.{StaysClosed, StaysClosed-trans}
use smart_door_lock_io_t.BleS3.Events.{GattsEvent, GapEvent, gatts_event_handler, gap_event_handler}
use smart_door_lock_io_t.BleS3.Callbacks.{IsUnlockEvent, callback-Judged, gap-Keeps}

module _ (env : Env) (number : EspErr → ℤ) where
  -- The devices that callbacks lead to, in any order. A callback that ends in a fault is taken as far
  -- as it got.
  pub data Run (d : Device) : Device → Type 0 where
    here : Run d d
    gatts :
        {e : Device}
        → Run d e
        → (event : GattsEvent) (gatts_if : ℕ)
        → Run d (gatts_event_handler env number event gatts_if e).1
    gap : {e : Device} → Run d e → (event : GapEvent) → Run d (gap_event_handler env event e).1

  -- One of the events of the run was, in the state in which it came in, a write of an unlock command.
  abbrev pub Opens : {d e : Device} → Run d e → Type 0
  Opens here = ⊥
  Opens (gatts {e = before} run event gatts_if) = Opens run ⊎ IsUnlockEvent env event before
  Opens (gap run event) = Opens run

  -- Whatever Bluetooth events come in, in whatever order: the flash is not told that the lock is open,
  -- and the LED shows what it showed, a locked door or an idle one, unless one of the events was a
  -- write to the data attribute of a value that, with the memory behind it and up to its first NUL, was
  -- taken up then, decrypted under the AES key of the peer's session to an RUD command, and passed its
  -- checks in the states that followed.
  pub Run-unlocks :
      (d e : Device) (run : Run d e) → StaysClosed (unlocks d.trace) d.led_status e ⊎ Opens run
  Run-unlocks d e here = inl (refl, inl refl)
  Run-unlocks d e (gatts {e = before} run event gatts_if) = elim (Run-unlocks d before run) [
    | inr o ↦ inr (inl o)
    | inl shut ↦ elim (callback-Judged env number event gatts_if before).judged [
      | inl shut' ↦ inl (
          StaysClosed-trans (unlocks d.trace) d.led_status before
            (gatts_event_handler env number event gatts_if before).1 shut shut')
      | inr w ↦ inr (inr w)
    ]
  ]
  Run-unlocks d e (gap {e = before} run event) = elim (Run-unlocks d before run) [
    | inr o ↦ inr o
    | inl shut ↦ inl ((gap-Keeps env number event).at before shut)
  ]
