-- ===== src/Examples/Storage.antt =====
-- A flash that works, and the lock state that is read back from it.
use smart_door_lock_io_t.Common.{
  ℕ, ℤ, pos, Bytes, false, [], ◌∷◌, Option, none, some, codes, str_eq, ◌≡◌, ◌≢◌, refl, ap, arith,
  if◌then◌else◌,
}
use smart_door_lock_io_t.Types.{Authorization, unlocked, lock_state_value, led_unlocked}
use smart_door_lock_io_t.Platform.{
  Env, EspErr, esp_ok, not_found, Event, Trace, flash_erase, write_auth, erase_auth,
  write_lock_state,
}
use smart_door_lock_io_t.Device.{Device, ok}
use smart_door_lock_io_t.Nvs.{get_authorization, set_authorization, delete_authorization}
use smart_door_lock_io_t.Nvs.Flash.{
  IsHealthy, IsKey, IsAuthStore, erase_result, is_auth_write, lookup_result,
  authorizations_form_map,
}
use smart_door_lock_io_t.LockStatus.{unlock_lock}
use smart_door_lock_io_t.LockStatus.Cell.{IsLockStore, is_lock_write, Holds}
use smart_door_lock_io_t.Boot.{init_led_lock_state, come_online}
use smart_door_lock_io_t.Boot.Restart.{by_unlock, init_led_lock_state-Holds}
use smart_door_lock_io_t.Boot.Announce.{come_online-Connected}
use smart_door_lock_io_t.Examples.World.{world, home, owner_authorization}

abbrev auth_content : Trace → Bytes → Option Authorization
auth_content [] k = none
auth_content (write_auth auth ∷ t) k =
    let rest = auth_content t k in if str_eq auth.phone_id k then some auth else rest
auth_content (erase_auth j ∷ t) k = let rest = auth_content t k in if str_eq j k then none else rest
auth_content (flash_erase ∷ t) k = none
auth_content (_ ∷ t) k = auth_content t k

abbrev lock_content : Trace → Option ℤ
lock_content [] = none
lock_content (write_lock_state s ∷ t) = some (lock_state_value s)
lock_content (flash_erase ∷ t) = none
lock_content (_ ∷ t) = lock_content t

abbrev size_of : Option Authorization → EspErr × ℕ
size_of none = (not_found, 0)
size_of (some auth) = (esp_ok, 40)

abbrev blob_of : Option Authorization → EspErr × Authorization
blob_of none = (not_found, owner_authorization)
blob_of (some auth) = (esp_ok, auth)

abbrev state_of : Option ℤ → EspErr × ℤ
state_of none = (not_found, pos 0)
state_of (some v) = (esp_ok, v)

abbrev flashed : Env
flashed = record world {
  auth_erase_err = λ t k. erase_result (auth_content t k);
  auth_size = λ t k. size_of (auth_content t k);
  auth_blob = λ t k. blob_of (auth_content t k);
  stored_lock_state = λ t. state_of (lock_content t);
}

flashed-IsHealthy : IsHealthy flashed
flashed-IsHealthy = record {
  init = λ t. refl;
  opens = λ t. refl;
  writes = λ t. refl;
  commits = λ t. refl;
}

auth-kept :
    (t : Trace) (e : Event) (k : Bytes)
    → is_auth_write e ≡ false
    → auth_content (e ∷ t) k ≡ auth_content t k
auth-kept t (write_auth auth) k h = ground arith
auth-kept t (erase_auth j) k h = ground arith
auth-kept t flash_erase k h = ground arith
auth-kept t _ k h = refl

flashed-IsAuthStore : IsAuthStore flashed auth_content
flashed-IsAuthStore = record {
  written = λ t auth k key. refl;
  erased = λ t j k. refl;
  wiped = λ t k. refl;
  accepts = λ t k key. refl;
  erases = λ t k key. refl;
  kept = auth-kept;
  size_found = λ t k auth h. (40, (ap size_of h, omega arith));
  blob_found = λ t k auth h. ap blob_of h;
  size_missing = λ t k key h. ap size_of h;
}

lock-kept :
    (t : Trace) (e : Event) → is_lock_write e ≡ false → lock_content (e ∷ t) ≡ lock_content t
lock-kept t (write_lock_state s) h = ground arith
lock-kept t flash_erase h = ground arith
lock-kept t _ h = refl

flashed-IsLockStore : IsLockStore flashed lock_content
flashed-IsLockStore = record {
  written = λ t s. refl;
  wiped = λ t. refl;
  kept = lock-kept;
  found = λ t v h. ap state_of h;
  missing = λ t h. (pos 0, ap state_of h);
}

abbrev guest : Bytes
guest = codes "P2"

authorizations_form_map_example :
    ((set_authorization flashed owner_authorization home).0 ≡ ok esp_ok)
    × ((delete_authorization flashed guest home).0 ≡ ok not_found)
    × ((j : Bytes)
        → IsKey j
        → ((get_authorization flashed j (set_authorization flashed owner_authorization home).1).0
            ≡ ok (
                lookup_result (
                  if str_eq owner_authorization.phone_id j
                  then some owner_authorization
                  else auth_content home.trace j)))
          × ((get_authorization flashed j (delete_authorization flashed guest home).1).0
              ≡ ok (lookup_result (if str_eq guest j then none else auth_content home.trace j)))
          × ((get_authorization flashed j home).0 ≡ ok (lookup_result (auth_content home.trace j))))
authorizations_form_map_example =
    authorizations_form_map flashed auth_content owner_authorization guest home flashed-IsHealthy
      flashed-IsAuthStore ((λ h. ground arith), omega arith) ((λ h. ground arith), omega arith)

abbrev number : EspErr → ℤ
number e = pos 1

-- The lock is opened at home, and then its LED is set up anew.
abbrev reborn : Device
reborn = record home { trace = (unlock_lock flashed home).1.trace; led_configured = false }

init_led_lock_state-Holds_example :
    ((init_led_lock_state flashed number reborn).0 ≡ ok tt)
    × Holds flashed lock_content unlocked led_unlocked (init_led_lock_state flashed number reborn).1
init_led_lock_state-Holds_example =
    init_led_lock_state-Holds flashed number lock_content home reborn by_unlock flashed-IsHealthy
      flashed-IsLockStore refl

come_online-Connected_example : come_online world number false home ≢ (ok tt, home)
come_online-Connected_example = come_online-Connected world number home home refl
