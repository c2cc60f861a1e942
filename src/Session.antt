-- ===== src/Session.antt =====
-- main/utils/utils.c: the session key, the registration status and the expiry of invites.
use smart_door_lock_io_t.Common.{
  ℤ, pos, ◌+ℤ◌, wrap32, Bytes, Bool, true, false, List, [], ◌∷◌, Option, none, some, length, take,
  codes, str_eq, ltb, if◌then◌else◌,
}
use smart_door_lock_io_t.Types.{RegistrationStatus, unknown_status, connected}
use smart_door_lock_io_t.Platform.{Env}
use smart_door_lock_io_t.Device.{
  Exec, null_pointer, out_of_bounds, uninitialised, pure, raise, require, gets, modify, ◌>>=◌, ◌>>◌,
}
use smart_door_lock_io_t.Text.{tokens}
use smart_door_lock_io_t.Base64.{base64_decode}
use smart_door_lock_io_t.Crypto.{decrypt_base64_rsa}
use smart_door_lock_io_t.Database.{get_registration_status_server}
use smart_door_lock_io_t.Users.{set_aes_ctx, set_user_state, get_user_aes_ctx}
use smart_door_lock_io_t.Time.{get_now_timestamp}

abbrev pub head_token : List Bytes → Option Bytes
head_token [] = none
head_token (w ∷ ws) = some w

abbrev pub second_token : List Bytes → Option Bytes
second_token [] = none
second_token (w ∷ ws) = head_token ws

abbrev pub is_unknown : RegistrationStatus → Bool
is_unknown unknown_status = true
is_unknown _ = false

module _ (env : Env) where
  -- init_AES reads 32 bytes of key.
  unfoldable pub install_key : Bytes → Bytes → Exec Bool
  install_key key_256 user_addr = if ltb (length key_256) 32 then raise out_of_bounds else do
    set_aes_ctx env user_addr (take 32 key_256)
    set_user_state env user_addr connected []
    pure true

  unfoldable pub retrieve_session_credentials : Bytes → Bytes → Exec Bool
  retrieve_session_credentials cred_enc user_addr = do
    cred ← decrypt_base64_rsa env cred_enc
    word ← require null_pointer (head_token (tokens cred))
    if str_eq word (codes "SSC")
        then (do
          key_base64 ← require null_pointer (second_token (tokens cred))
          key_256 ← require null_pointer (base64_decode key_base64)
          install_key key_256 user_addr)
        else pure false

  -- The key of a session, where one was set.
  unfoldable pub session_aes : Bytes → Exec Bytes
  session_aes addr = do ctx ← get_user_aes_ctx env addr; require uninitialised ctx

  unfoldable pub get_registration_status : Exec RegistrationStatus
  get_registration_status = do
    known ← gets (λ d. d.registration_status)
    if is_unknown known
        then (do
          status ← get_registration_status_server env
          modify (λ d. record d { registration_status = status })
          pure status)
        else pure known

  unfoldable pub force_get_registration_status : Exec RegistrationStatus
  force_get_registration_status = do
    modify (λ d. record d { registration_status = unknown_status })
    get_registration_status

  unfoldable pub get_default_expiration_timestamp : Exec ℤ
  get_default_expiration_timestamp = do now ← get_now_timestamp env; pure (wrap32 (now +ℤ pos 3600))
