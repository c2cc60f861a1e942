-- ===== src/Users.antt =====
-- main/utils/user_info.c: the sessions, by address. `users_info` holds the structures that `malloc`
-- gave, in the order of their addition; a lookup is the platform's HASH_FIND over their keys.
pub mod Sessions
pub mod Setters
use smart_door_lock_io_t.Common.{
  ℕ, zero, suc, Bytes, Bool, true, false, List, [], ◌∷◌, ◌++◌, map, Option, none, some, length,
  get_elem?, take, str_eq, leb, if◌then◌else◌,
}
use smart_door_lock_io_t.Types.{UserInfo, UserState, connecting}
use smart_door_lock_io_t.Platform.{Env, fill_random}
use smart_door_lock_io_t.Device.{
  Device, Exec, null_pointer, uninitialised, buffer_overflow, pure, raise, require, call, gets,
  modify, ◌>>=◌, ◌>>◌,
}

-- HASH_FIND_INT and HASH_ADD_INT take sizeof(int) bytes at the key: the first four characters of the
-- address, its terminator included.
unfoldable pub key : Bytes → Bytes
key user_ip = take 4 (user_ip ++ 0 ∷ [])

abbrev pub keys : List UserInfo → List Bytes
keys = map (λ u. key u.user_ip)

-- What `malloc` and the copy of the address leave.
abbrev pub new_user : Bytes → UserInfo
new_user user_ip = record {
  user_ip = user_ip;
  phone_id = none;
  state = none;
  seed = none;
  aes_ctx = none;
}

-- A write through the pointer to the i-th structure.
unfoldable pub write_at : ℕ → (UserInfo → UserInfo) → List UserInfo → List UserInfo
write_at i f [] = []
write_at zero f (u ∷ us) = f u ∷ us
write_at (suc i) f (u ∷ us) = u ∷ write_at i f us

abbrev pub write_user : ℕ → (UserInfo → UserInfo) → Device → Device
write_user i f d = record d { users_info = write_at i f d.users_info }

unfoldable pub remove_at : ℕ → List UserInfo → List UserInfo
remove_at i [] = []
remove_at zero (u ∷ us) = us
remove_at (suc i) (u ∷ us) = u ∷ remove_at i us

-- HASH_DEL takes the structure out of the table; nothing frees it.
unfoldable pub delete_user : ℕ → Exec (Unit {0})
delete_user i = modify (λ d. record d { users_info = remove_at i d.users_info })

-- The structure that a lookup points at.
abbrev pub at_index : List UserInfo → Option ℕ → Option UserInfo
at_index us none = none
at_index us (some i) = get_elem? us i

module _ (env : Env) where
  unfoldable pub find_user : Bytes → Exec (Option ℕ)
  find_user user_ip = gets (λ d. env.hash_find (keys d.users_info) (key user_ip))

  unfoldable pub get_user_info : Bytes → Exec (Option UserInfo)
  get_user_info user_ip = do found ← find_user user_ip; gets (λ d. at_index d.users_info found)

  -- user_ip has room for 45 bytes.
  unfoldable pub add_user : Bytes → Exec ℕ
  add_user user_ip = if leb 45 (length user_ip) then raise buffer_overflow else do
    i ← gets (λ d. length d.users_info)
    modify (λ d. record d { users_info = d.users_info ++ new_user user_ip ∷ [] })
    pure i

  unfoldable pub found_or_added : Bytes → Option ℕ → Exec ℕ
  found_or_added user_ip none = add_user user_ip
  found_or_added user_ip (some i) = pure i

  unfoldable pub find_or_add : Bytes → Exec ℕ
  find_or_add user_ip = do found ← find_user user_ip; found_or_added user_ip found

  -- phone_id has room for 16 bytes.
  unfoldable pub set_user_state : Bytes → UserState → Bytes → Exec (Unit {0})
  set_user_state user_ip state phone_id = do
    i ← find_or_add user_ip
    modify (write_user i (λ u. record u { state = some state }))
    if leb 16 (length phone_id)
        then raise buffer_overflow
        else modify (write_user i (λ u. record u { phone_id = some phone_id }))

  unfoldable pub generate_random_seed : Bytes → Exec Bytes
  generate_random_seed user_ip = do
    i ← find_or_add user_ip
    seed ← call (fill_random 10) (λ t. env.random_bytes t 10)
    modify (write_user i (λ u. record u { seed = some seed }))
    pure seed

  unfoldable pub set_aes_ctx : Bytes → Bytes → Exec (Unit {0})
  set_aes_ctx user_ip ctx = do
    i ← find_or_add user_ip
    modify (write_user i (λ u. record u { aes_ctx = some ctx }))

  unfoldable pub get_user : Bytes → Exec UserInfo
  get_user user_ip = do user ← get_user_info user_ip; require null_pointer user

  unfoldable pub get_user_state : Bytes → Exec UserState
  get_user_state user_ip = do user ← get_user user_ip; require uninitialised user.state

  -- An empty phone id is NULL.
  unfoldable pub get_phone_id : Bytes → Exec (Option Bytes)
  get_phone_id user_ip = do
    user ← get_user user_ip
    phone_id ← require uninitialised user.phone_id
    pure (if str_eq phone_id [] then none else some phone_id)

  unfoldable pub get_user_seed : Bytes → Exec (Option Bytes)
  get_user_seed user_ip = do user ← get_user user_ip; pure user.seed

  unfoldable pub get_user_aes_ctx : Bytes → Exec (Option Bytes)
  get_user_aes_ctx user_ip = do user ← get_user user_ip; pure user.aes_ctx

  abbrev is_some : Option UserInfo → Bool
  is_some none = false
  is_some (some u) = true

  -- The comparison of a pointer with DISCONNECTED is one with NULL.
  unfoldable pub set_ble_user_state_to_connecting : Exec (Unit {0})
  set_ble_user_state_to_connecting = do
    addr ← gets (λ d. d.current_ble_addr)
    if str_eq addr [] then pure tt else do
      user ← get_user_info addr
      if is_some user then set_user_state addr connecting [] else pure tt

unfoldable pub set_current_ble_addr : Bytes → Exec (Unit {0})
set_current_ble_addr addr = modify (λ d. record d { current_ble_addr = addr })
