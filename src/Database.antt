-- ===== src/Database.antt =====
-- main/utils/database_util.c: the requests to the server. The JSON texts are records of their
-- members; the HTTP client and cJSON are the platform's. cJSON
-- leaves out a signature that is NULL.
use smart_door_lock_io_t.Common.{
  zero, suc, ℤ, pos, negsuc, Bytes, Bool, true, false, List, [], ◌∷◌, Option, none, some, length,
  drop, ◌++◌, set, replicate, leb, ltb, eqb_ℤ, unsigned32, if◌then◌else◌,
}
use smart_door_lock_io_t.Types.{
  UserType, admin, owner, tenant, periodic_user, one_time_user, no_role, user_type_of,
  Authorization, RegistrationStatus, unknown_status, registration_status_of,
}
use smart_door_lock_io_t.Platform.{
  Env, EspErr, err_arg, is_ok, InviteRequest, InviteReply, AuthorizationReply, StatusReply,
  read_mac, post_invite, post_authorization, post_registration, get_status,
}
use smart_door_lock_io_t.Device.{
  Exec, null_pointer, buffer_overflow, out_of_bounds, pure, raise, require, call, emit, ◌>>=◌,
}
use smart_door_lock_io_t.Text.{show_mac}
use smart_door_lock_io_t.Base64.{base64_decode}
use smart_door_lock_io_t.Crypto.{sign_rsa, decrypt_base64_rsa}
use smart_door_lock_io_t.Nvs.{Buffer, unwritten, filled, set_authorization}

-- A member that is left out where the value is -1.
abbrev pub unless_missing : ℤ → ℤ → Option ℤ
unless_missing test value = if eqb_ℤ test (negsuc 0) then none else some value

-- `valid_until` is left out by the test on `valid_from`, as in the source.
unfoldable pub invite_request :
    Bytes → ℤ → UserType → ℤ → ℤ → Option Bytes → ℤ → Option Bytes → InviteRequest
invite_request mac expiration user_type valid_from valid_until weekdays_str one_day email_locked =
    record {
      smart_lock_mac = mac;
      expiration = expiration;
      email_locked = email_locked;
      kind = user_type;
      valid_from = unless_missing valid_from valid_from;
      valid_until = unless_missing valid_from valid_until;
      weekdays_str = weekdays_str;
      one_day = unless_missing one_day one_day;
    }

-- auth->weekdays[day - 1] = true, for each day of the answer.
unfoldable pub mark_weekdays : List ℤ → List Bool → Exec (List Bool)
mark_weekdays [] weekdays = pure weekdays
mark_weekdays (pos zero ∷ days) weekdays = raise out_of_bounds
mark_weekdays (pos (suc day) ∷ days) weekdays =
    let rest = mark_weekdays days (set weekdays day true) in
    if ltb day 7 then rest else raise out_of_bounds
mark_weekdays (negsuc day ∷ days) weekdays = raise out_of_bounds

-- The `switch` on the role: the fields that it writes; the others keep what was in the memory.
unfoldable pub fill_role : AuthorizationReply → Authorization → UserType → Exec Authorization
fill_role reply auth admin = pure auth
fill_role reply auth owner = pure auth
fill_role reply auth periodic_user = do
  weekdays ← mark_weekdays reply.weekdays (replicate 7 false)
  pure (record auth {
    weekdays = weekdays;
    valid_from_ts = reply.valid_from;
    valid_until_ts = reply.valid_until;
  })
fill_role reply auth tenant =
    pure (record auth { valid_from_ts = reply.valid_from; valid_until_ts = reply.valid_until })
fill_role reply auth one_time_user = pure (record auth { one_day_ts = reply.one_day })
fill_role reply auth (no_role n) = pure auth

module _ (env : Env) where
  unfoldable pub mac_text : Exec Bytes
  mac_text = call read_mac (λ _. show_mac env.mac)

  unfoldable pub invite_answer : EspErr × InviteReply → Option Bytes
  invite_answer (err, reply) =
      if is_ok err then (if reply.success then reply.invite_id else none) else none

  -- `none` is NULL.
  unfoldable pub create_invite :
      ℤ → UserType → ℤ → ℤ → Option Bytes → ℤ → Option Bytes → Exec (Option Bytes)
  create_invite expiration user_type valid_from valid_until weekdays_str one_day email_locked = do
    mac ← mac_text
    let request =
        invite_request mac expiration user_type valid_from valid_until weekdays_str one_day
          email_locked
    signature ← sign_rsa env (env.print_invite request)
    answer ← call (post_invite request signature) (λ t. env.invite_reply t request)
    pure (invite_answer answer)

  -- `memory` is what `malloc` left in the structure; phone_id has room for 16 bytes, and master_key
  -- for 32.
  unfoldable pub store_reply : AuthorizationReply → Authorization → Exec (EspErr × Buffer)
  store_reply reply memory = do
    phone_id ← require null_pointer reply.phone_id
    if leb 16 (length phone_id) then raise buffer_overflow else do
      let user_type = user_type_of (unsigned32 reply.kind)
      encrypted ← require null_pointer reply.master_key_encrypted_lock
      master_key_base64 ← decrypt_base64_rsa env encrypted
      master_key ← require null_pointer (base64_decode master_key_base64)
      if ltb 32 (length master_key) then raise buffer_overflow else do
        auth ←
            fill_role reply
              (record memory {
                phone_id = phone_id;
                user_type = user_type;
                master_key = master_key ++ drop (length master_key) memory.master_key;
              })
              user_type
        err ← set_authorization env auth
        pure (err, filled auth)

  unfoldable pub get_authorization_db : Bytes → Authorization → Exec (EspErr × Buffer)
  get_authorization_db phone_id memory = do
    mac ← mac_text
    signature ← sign_rsa env (env.print_authorization mac phone_id)
    (err, reply) ←
        call (post_authorization mac phone_id signature) (λ t. env.authorization_reply t phone_id)
    if is_ok err
        then (if reply.success then store_reply reply memory else pure (err_arg, unwritten))
        else pure (err, unwritten)

  unfoldable pub status_answer : EspErr × StatusReply → RegistrationStatus
  status_answer (err, reply) =
      if is_ok err
      then (if reply.success then registration_status_of reply.status else unknown_status)
      else unknown_status

  unfoldable pub get_registration_status_server : Exec RegistrationStatus
  get_registration_status_server = do
    mac ← mac_text
    answer ← call (get_status mac) env.status_reply
    pure (status_answer answer)

  -- The answer is only written to the log; the certificate is freed.
  unfoldable pub register_lock : Bytes → Bytes → Exec (Unit {0})
  register_lock certificate ble_mac = do
    mac ← mac_text
    emit (post_registration mac ble_mac certificate)
