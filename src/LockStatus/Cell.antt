-- ===== src/LockStatus/Cell.antt =====
-- The lock state in flash: what was stored last is what is read.
use smart_door_lock_io_t.Common.{
  ℤ, Bool, true, false, Option, none, some, ◌∷◌, ◌≡◌, refl, sym, subst, ◌∙◌,
}
use smart_door_lock_io_t.Types.{
  LockState, locked, unlocked, lock_state_of, lock_state_value, LedStatus, led_locked, led_unlocked,
}
use smart_door_lock_io_t.Platform.{
  Env, EspErr, esp_ok, not_found, Event, Trace, flash_init, flash_erase, nvs_open, nvs_commit,
  nvs_close, write_lock_state, read_lock_state,
}
use smart_door_lock_io_t.Device.{Device, ok, call, modify, pure, ◌>>=◌}
use smart_door_lock_io_t.Device.Runs.{bind-run}
use smart_door_lock_io_t.Nvs.{init_nvs, open_nvs, set_lock_state}
use smart_door_lock_io_t.Nvs.Flash.{IsHealthy, behind_write, write_and_commit_lem}
use smart_door_lock_io_t.LockStatus.{set_led_status, lock_lock, unlock_lock, get_lock_state}
use smart_door_lock_io_t.LockStatus.Led.{is_led_event, update_led_color-Keeps}

abbrev pub is_lock_write : Event → Bool
is_lock_write (write_lock_state s) = true
is_lock_write flash_erase = true
is_lock_write _ = false

-- nvs_set_i32, nvs_get_i32 and nvs_flash_erase, as documented, on the key "lock_state".
pub record IsLockStore (env : Env) (content : Trace → Option ℤ) : Type 0 where
  pub written :
      (t : Trace) (s : LockState) → content (write_lock_state s ∷ t) ≡ some (lock_state_value s)
  pub wiped : (t : Trace) → content (flash_erase ∷ t) ≡ none
  pub kept : (t : Trace) (e : Event) → is_lock_write e ≡ false → content (e ∷ t) ≡ content t
  pub found : (t : Trace) (v : ℤ) → content t ≡ some v → env.stored_lock_state t ≡ (esp_ok, v)
  pub missing :
      (t : Trace) → content t ≡ none → (v : ℤ) × (env.stored_lock_state t ≡ (not_found, v))

led-is_lock_write : (e : Event) → is_led_event e ≡ true → is_lock_write e ≡ false
led-is_lock_write (write_lock_state s) h = sym h
led-is_lock_write flash_erase h = sym h
led-is_lock_write _ h = refl

-- The device behind a write, behind the opening of the flash, and behind a read.
abbrev stored : LockState → Device → Device
stored s d = record d { trace = behind_write (write_lock_state s) d.trace }

abbrev opened : Device → Device
opened d = record d { trace = nvs_open ∷ flash_init ∷ d.trace }

abbrev pub asked : Device → Device
asked d = record d { trace = read_lock_state ∷ nvs_open ∷ flash_init ∷ d.trace }

module _ (env : Env) (content : Trace → Option ℤ) where
  -- The flash holds the state, and the LED shows it.
  abbrev pub Holds : LockState → LedStatus → Device → Type 0
  Holds s led d = (content d.trace ≡ some (lock_state_value s)) × (d.led_status ≡ led)

  module _ (healthy : IsHealthy env) (store : IsLockStore env content) where
    stored-content :
        (s : LockState) (d : Device) → content (stored s d).trace ≡ some (lock_state_value s)
    stored-content s d =
        let t : Trace = nvs_open ∷ flash_init ∷ d.trace in
        store.kept (nvs_commit ∷ write_lock_state s ∷ t) nvs_close refl
        ∙ store.kept (write_lock_state s ∷ t) nvs_commit refl
        ∙ store.written t s

    set_led_status-Holds :
        (s : LockState) (led : LedStatus) (d : Device)
        → content d.trace ≡ some (lock_state_value s)
        → Holds s led (set_led_status led d).1
    unfolding set_led_status modify ◌>>=◌
    set_led_status-Holds s led d h =
        (update_led_color-Keeps {P = Holds s led}
            (λ e quiet. record {
              ignore = λ x p. (store.kept x.trace e (led-is_lock_write e quiet) ∙ p.0, p.1);
            })
            (λ x p. p)).at
          (record d { led_status = led }) (h, refl)

    pub unlock_lock-Holds : (d : Device) → Holds unlocked led_unlocked (unlock_lock env d).1
    unfolding unlock_lock set_lock_state
    unlock_lock-Holds d =
        subst (λ r. Holds unlocked led_unlocked r.1)
          (sym (
            bind-run (set_lock_state env unlocked) (λ _. set_led_status led_unlocked) d
              (stored unlocked d) esp_ok
              (write_and_commit_lem env healthy _ env.write_err d (healthy.writes _))))
          (set_led_status-Holds unlocked led_unlocked (stored unlocked d)
            (stored-content unlocked d))

    pub lock_lock-Holds : (d : Device) → Holds locked led_locked (lock_lock env d).1
    unfolding lock_lock set_lock_state
    lock_lock-Holds d =
        subst (λ r. Holds locked led_locked r.1)
          (sym (
            bind-run (set_lock_state env locked) (λ _. set_led_status led_locked) d
              (stored locked d) esp_ok
              (write_and_commit_lem env healthy _ env.write_err d (healthy.writes _))))
          (set_led_status-Holds locked led_locked (stored locked d) (stored-content locked d))

    opened-content : (d : Device) → content (opened d).trace ≡ content d.trace
    opened-content d =
        store.kept (flash_init ∷ d.trace) nvs_open refl ∙ store.kept d.trace flash_init refl

    pub get_lock_state-found :
        (number : EspErr → ℤ) (d : Device) (v : ℤ)
        → content d.trace ≡ some v
        → get_lock_state env number d ≡ (ok (lock_state_of v), asked d)
    unfolding get_lock_state init_nvs open_nvs call pure ◌>>=◌
    get_lock_state-found number d v h =
        rw
          (
            healthy.init d.trace,
            healthy.opens (flash_init ∷ d.trace),
            store.found (nvs_open ∷ flash_init ∷ d.trace) v (opened-content d ∙ h),
          )
          refl

    -- An empty flash is locked by the read.
    pub get_lock_state-missing :
        (number : EspErr → ℤ) (d : Device)
        → content d.trace ≡ none
        → get_lock_state env number d ≡ (lock_lock env >>= λ _. pure locked) (asked d)
    unfolding get_lock_state init_nvs open_nvs call pure ◌>>=◌
    get_lock_state-missing number d h =
        let (v, absent) = store.missing (nvs_open ∷ flash_init ∷ d.trace) (opened-content d ∙ h) in
        rw (healthy.init d.trace, healthy.opens (flash_init ∷ d.trace), absent) refl
