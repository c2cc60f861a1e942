-- ===== src/Quiet/Platform.antt =====
-- The clock, the nonces and the sessions keep every quiet predicate.
use smart_door_lock_io_t.Common.{ℤ, Bytes, Option, none, some, zero, suc, ℕ}
use smart_door_lock_io_t.Types.{UserState}
use smart_door_lock_io_t.Platform.{Env}
use smart_door_lock_io_t.Device.{Device}
use smart_door_lock_io_t.Device.Keeps.{Keeps, Keeps-bind, Keeps-if, Keeps-modify, keeps_rules}
use smart_door_lock_io_t.Quiet.{IsQuiet}
use smart_door_lock_io_t.Time.{
  read_clock, is_time_valid, wait_for_sync, obtain_time, get_now_timestamp, get_today_timestamp,
  get_today_weekday,
}
use smart_door_lock_io_t.Nonces.{add_nonce, check_nonce}
use smart_door_lock_io_t.Users.{
  find_user, get_user_info, add_user, found_or_added, find_or_add, set_user_state, set_aes_ctx,
  get_user, get_user_state, get_phone_id, get_user_seed, set_ble_user_state_to_connecting,
}

module _ (env : Env) {P : Device → Type 0} (quiet : IsQuiet P) where
  pub read_clock-Keeps : Keeps P (read_clock env)
  unfolding read_clock
  read_clock-Keeps = search (keeps_rules, quiet.events)

  pub is_time_valid-Keeps : Keeps P (is_time_valid env)
  unfolding is_time_valid
  is_time_valid-Keeps = search (keeps_rules, read_clock-Keeps)

  wait_for_sync-Keeps : (rounds : ℕ) → Keeps P (wait_for_sync env rounds)
  unfolding wait_for_sync
  wait_for_sync-Keeps zero = search (keeps_rules, quiet.events)
  wait_for_sync-Keeps (suc rounds) =
      let rest = wait_for_sync-Keeps rounds in
      Keeps-bind _ _ (search (keeps_rules, quiet.events)) (λ reset.
        Keeps-if reset _ _ (Keeps-bind _ _ (search (keeps_rules, quiet.events)) (λ _. rest))
          (search keeps_rules))

  pub obtain_time-Keeps : Keeps P (obtain_time env)
  unfolding obtain_time
  obtain_time-Keeps =
      search (keeps_rules, quiet.events, read_clock-Keeps, is_time_valid-Keeps, wait_for_sync-Keeps)
        depth 8

  pub get_now_timestamp-Keeps : Keeps P (get_now_timestamp env)
  unfolding get_now_timestamp
  get_now_timestamp-Keeps =
      search (keeps_rules, read_clock-Keeps, is_time_valid-Keeps, obtain_time-Keeps)

  pub get_today_timestamp-Keeps : Keeps P (get_today_timestamp env)
  unfolding get_today_timestamp
  get_today_timestamp-Keeps = search (keeps_rules, get_now_timestamp-Keeps)

  pub get_today_weekday-Keeps : Keeps P (get_today_weekday env)
  unfolding get_today_weekday
  get_today_weekday-Keeps = search (keeps_rules, get_today_timestamp-Keeps)

  pub add_nonce-Keeps : (nonce expires : ℤ) → Keeps P (add_nonce nonce expires)
  unfolding add_nonce
  add_nonce-Keeps nonce expires = Keeps-modify _ (λ d h. quiet.nonces d _ h)

  pub check_nonce-Keeps : (nonce : ℤ) → Keeps P (check_nonce env nonce)
  unfolding check_nonce
  check_nonce-Keeps nonce =
      search (keeps_rules, Keeps-modify, get_now_timestamp-Keeps, quiet.nonces) depth 8

  found_or_added-Keeps : (ip : Bytes) (o : Option ℕ) → Keeps P (found_or_added env ip o)
  unfolding found_or_added add_user
  found_or_added-Keeps ip none = search (keeps_rules, Keeps-modify, quiet.users) depth 8
  found_or_added-Keeps ip (some i) = search keeps_rules

  pub find_or_add-Keeps : (ip : Bytes) → Keeps P (find_or_add env ip)
  unfolding find_or_add find_user
  find_or_add-Keeps ip = search (keeps_rules, found_or_added-Keeps)

  pub set_user_state-Keeps :
      (ip : Bytes) (state : UserState) (phone_id : Bytes)
      → Keeps P (set_user_state env ip state phone_id)
  unfolding set_user_state
  set_user_state-Keeps ip state phone_id =
      search (keeps_rules, Keeps-modify, find_or_add-Keeps, quiet.users) depth 8

  pub set_aes_ctx-Keeps : (ip ctx : Bytes) → Keeps P (set_aes_ctx env ip ctx)
  unfolding set_aes_ctx
  set_aes_ctx-Keeps ip ctx =
      search (keeps_rules, Keeps-modify, find_or_add-Keeps, quiet.users) depth 8

  get_user_info-Keeps : (ip : Bytes) → Keeps P (get_user_info env ip)
  unfolding get_user_info find_user
  get_user_info-Keeps ip = search keeps_rules

  pub get_user-Keeps : (ip : Bytes) → Keeps P (get_user env ip)
  unfolding get_user
  get_user-Keeps ip = search (keeps_rules, get_user_info-Keeps)

  pub get_user_state-Keeps : (ip : Bytes) → Keeps P (get_user_state env ip)
  unfolding get_user_state
  get_user_state-Keeps ip = search (keeps_rules, get_user-Keeps)

  pub get_phone_id-Keeps : (ip : Bytes) → Keeps P (get_phone_id env ip)
  unfolding get_phone_id
  get_phone_id-Keeps ip = search (keeps_rules, get_user-Keeps)

  pub get_user_seed-Keeps : (ip : Bytes) → Keeps P (get_user_seed env ip)
  unfolding get_user_seed
  get_user_seed-Keeps ip = search (keeps_rules, get_user-Keeps)

  pub set_ble_user_state_to_connecting-Keeps : Keeps P (set_ble_user_state_to_connecting env)
  unfolding set_ble_user_state_to_connecting
  set_ble_user_state_to_connecting-Keeps =
      search (keeps_rules, get_user_info-Keeps, set_user_state-Keeps) depth 8
