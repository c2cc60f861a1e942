-- ===== src/Access.antt =====
-- main/utils/authorization.c, and the access decisions of main/tcp_server_handler.c: the freshness of
-- a message, who may use the lock, and who may invite.
pub mod Allowed
pub mod Sound
pub mod Decisions
use smart_door_lock_io_t.Common.{
  ℕ, ◌+◌, ℤ, pos, ◌+ℤ◌, wrap32, leb_ℤ, ltb_ℤ, eqb_ℤ, Bytes, Bool, true, false, not, ◌&&◌, ◌||◌,
  List, [], ◌∷◌, Option, none, some, get_elem?, str_eq, ltb, if◌then◌else◌,
}
use smart_door_lock_io_t.Types.{
  UserType, admin, owner, tenant, periodic_user, one_time_user, no_role, user_type_code,
  Authorization, UserState, authorized, user_state_code,
}
use smart_door_lock_io_t.Platform.{Env, EspErr, is_ok}
use smart_door_lock_io_t.Device.{
  Exec, null_pointer, use_after_free, uninitialised, out_of_bounds, pure, raise, require, call,
  gets, if_some, ◌>>=◌, ◌>>◌,
}
use smart_door_lock_io_t.Text.{strtol}
use smart_door_lock_io_t.Time.{get_now_timestamp, get_today_timestamp, get_today_weekday}
use smart_door_lock_io_t.Nonces.{add_nonce, check_nonce}
use smart_door_lock_io_t.Users.{get_user_state, get_phone_id}
use smart_door_lock_io_t.Base64.{base64_encode}
use smart_door_lock_io_t.Crypto.{gen_hmac_32}
use smart_door_lock_io_t.Nvs.{Buffer, freed, contents, get_authorization}
use smart_door_lock_io_t.Database.{get_authorization_db}

abbrev pub is_authorized : UserState → Bool
is_authorized authorized = true
is_authorized _ = false

abbrev pub is_freed : Buffer → Bool
is_freed freed = true
is_freed _ = false

-- args[i]
unfoldable pub arg : List Bytes → ℕ → Exec Bytes
arg args i = require out_of_bounds (get_elem? args i)

module _ (env : Env) where
  unfoldable pub record_nonce : Bool → ℤ → ℤ → Exec Bool
  record_nonce true nonce ts2 = do add_nonce nonce (wrap32 (ts2 +ℤ pos 10)); pure true
  record_nonce false nonce ts2 = pure false

  -- Both timestamps and the nonce stand from `first` on. `ts2 + 10` is taken to wrap.
  unfoldable pub verify_timestamps_and_nonce : List Bytes → ℕ → Exec Bool
  verify_timestamps_and_nonce args first = do
    a ← arg args first
    b ← arg args (first + 1)
    c ← arg args (first + 2)
    let ts1 = strtol a
    let ts2 = strtol b
    let nonce = strtol c
    now ← get_now_timestamp env
    let in_window = leb_ℤ ts1 now && leb_ℤ now ts2
    unused ← if in_window then check_nonce env nonce else pure false
    record_nonce unused nonce ts2

  -- The `switch` of `canUseLock`: the tests on the validity are those of the source.
  unfoldable pub tenant_may_use : Authorization → Exec Bool
  tenant_may_use auth = do
    today ← get_today_timestamp env
    pure (not (ltb_ℤ auth.valid_from_ts today) && not (ltb_ℤ today auth.valid_until_ts))

  unfoldable pub may_use : Authorization → UserType → Exec Bool
  may_use auth admin = pure true
  may_use auth owner = pure true
  may_use auth periodic_user = do
    weekday ← get_today_weekday env
    allowed ← require out_of_bounds (get_elem? auth.weekdays weekday)
    if allowed then tenant_may_use auth else pure false
  may_use auth tenant = tenant_may_use auth
  may_use auth one_time_user = do
    today ← get_today_timestamp env
    pure (eqb_ℤ auth.one_day_ts today)
  may_use auth (no_role n) = pure false

  -- The authorization of an authorized session, if all is found.
  unfoldable pub session_authorization : Bytes → Exec (Option Authorization)
  session_authorization user_ip = do
    state ← get_user_state env user_ip
    if is_authorized state
        then (do
          phone_id ← get_phone_id env user_ip
          if_some phone_id
              (λ phone_id. do
                (err, buffer) ← get_authorization env phone_id
                if is_ok err then (do auth ← contents buffer; pure (some auth)) else pure none)
              (pure none))
        else pure none

  unfoldable pub can_use_lock : Bytes → Exec Bool
  can_use_lock user_ip = do
    found ← session_authorization user_ip
    if_some found (λ auth. may_use auth auth.user_type) (pure false)

  abbrev within : Authorization → ℤ → Bool
  within auth ts = leb_ℤ auth.valid_from_ts ts && leb_ℤ ts auth.valid_until_ts

  -- The `switch` of `canCreateInvite`.
  unfoldable pub role_may_invite : Authorization → UserType → ℤ → ℤ → ℤ → Bool
  role_may_invite auth admin valid_from valid_until one_day = true
  role_may_invite auth owner valid_from valid_until one_day = true
  role_may_invite auth tenant valid_from valid_until one_day =
      within auth valid_from && within auth valid_until && within auth one_day
  role_may_invite auth periodic_user valid_from valid_until one_day = false
  role_may_invite auth one_time_user valid_from valid_until one_day = false
  role_may_invite auth (no_role n) valid_from valid_until one_day = false

  unfoldable pub may_invite : Authorization → UserType → ℤ → ℤ → ℤ → Bool
  may_invite auth kind valid_from valid_until one_day =
      if ltb (user_type_code kind) (user_type_code auth.user_type)
      then false
      else role_may_invite auth auth.user_type valid_from valid_until one_day

  unfoldable pub can_create_invite : Bytes → UserType → ℤ → ℤ → ℤ → Exec Bool
  can_create_invite user_ip kind valid_from valid_until one_day = do
    found ← session_authorization user_ip
    pure (if_some found (λ auth. may_invite auth kind valid_from valid_until one_day) false)

  -- The digest of the seed under the master key, in base64, compared with the code.
  unfoldable pub compare_code : Authorization → Bytes → Option Bytes → Exec Bool
  compare_code auth auth_code_base64 pointer = do
    seed ← require uninitialised pointer
    (err, hmac) ← gen_hmac_32 env auth.master_key seed
    if is_ok err
        then (do
          hmac_base64 ← require null_pointer (base64_encode hmac)
          pure (str_eq hmac_base64 auth_code_base64))
        else pure false

  -- A buffer that `get_authorization` freed is written and read again.
  unfoldable pub from_server : Bytes → Buffer → Exec (EspErr × Buffer)
  from_server phone_id buffer = do
    memory ← gets (λ d. env.fresh_authorization d.trace)
    answer ← get_authorization_db env phone_id memory
    if is_freed buffer then raise use_after_free else pure answer

  unfoldable pub check_authorization_code : Bytes → Bytes → Option Bytes → Exec Bool
  check_authorization_code phone_id auth_code_base64 seed = do
    (err, buffer) ← get_authorization env phone_id
    (err', buffer') ← if is_ok err then pure (err, buffer) else from_server phone_id buffer
    if is_ok err'
        then (do auth ← contents buffer'; compare_code auth auth_code_base64 seed)
        else pure false

  -- INVALID_USER is INT_MAX.
  unfoldable pub get_user_type : Bytes → Exec UserType
  get_user_type phone_id = do
    (err, buffer) ← get_authorization env phone_id
    if is_ok err
        then (do auth ← contents buffer; pure auth.user_type)
        else pure (no_role 2147483647)
