-- ===== src/Quiet/Storage.antt =====
-- The reads of the flash, the server and the session key keep every quiet predicate.
use smart_door_lock_io_t.Common.{ℤ, Bytes, Bool, List, [], ◌∷◌, Option, pos, negsuc, zero, suc}
use smart_door_lock_io_t.Types.{UserType, periodic_user, Authorization}
use smart_door_lock_io_t.Platform.{Env, EspErr, is_ok, esp_ok, AuthorizationReply}
use smart_door_lock_io_t.Device.{Device, Exec}
use smart_door_lock_io_t.Device.Keeps.{
  Keeps, Keeps-bind, Keeps-if, Keeps-modify, Keeps-pure, Keeps-raise, keeps_rules,
}
use smart_door_lock_io_t.Quiet.{IsQuiet}
use smart_door_lock_io_t.Quiet.Platform.{
  get_now_timestamp-Keeps, set_user_state-Keeps, set_aes_ctx-Keeps,
}
use smart_door_lock_io_t.Nvs.{
  error_check, Buffer, unwritten, freed, filled, contents, init_nvs, open_nvs, with_nvs,
  write_and_commit, read_authorization, get_authorization, set_authorization,
}
use smart_door_lock_io_t.Crypto.{
  hmac_call, gen_hmac_32, sha256_call, hash_sha256, sign_rsa, decrypt_rsa, decrypt_base64_rsa,
}
use smart_door_lock_io_t.Database.{
  mark_weekdays, fill_role, mac_text, create_invite, store_reply, get_authorization_db,
  get_registration_status_server,
}
use smart_door_lock_io_t.Session.{
  install_key, retrieve_session_credentials, get_registration_status, force_get_registration_status,
  get_default_expiration_timestamp,
}

module _ {P : Device → Type 0} where
  pub error_check-Keeps : (e : EspErr) → Keeps P (error_check e)
  error_check-Keeps esp_ok = Keeps-pure tt
  error_check-Keeps _ = Keeps-raise _

  pub contents-Keeps : (b : Buffer) → Keeps P (contents b)
  unfolding contents
  contents-Keeps unwritten = Keeps-raise _
  contents-Keeps freed = Keeps-raise _
  contents-Keeps (filled auth) = Keeps-pure auth

  mark_weekdays-Keeps :
      (days : List ℤ) (weekdays : List Bool) → Keeps P (mark_weekdays days weekdays)
  unfolding mark_weekdays
  mark_weekdays-Keeps [] weekdays = Keeps-pure weekdays
  mark_weekdays-Keeps (pos zero ∷ days) weekdays = Keeps-raise _
  mark_weekdays-Keeps (pos (suc day) ∷ days) weekdays =
      Keeps-if _ _ _ (mark_weekdays-Keeps days _) (Keeps-raise _)
  mark_weekdays-Keeps (negsuc day ∷ days) weekdays = Keeps-raise _

  fill_role-Keeps :
      (reply : AuthorizationReply) (auth : Authorization) (kind : UserType)
      → Keeps P (fill_role reply auth kind)
  unfolding fill_role
  fill_role-Keeps reply auth periodic_user = search (keeps_rules, mark_weekdays-Keeps)
  fill_role-Keeps reply auth _ = Keeps-pure _

module _ (env : Env) {P : Device → Type 0} (quiet : IsQuiet P) where
  pub init_nvs-Keeps : Keeps P (init_nvs env)
  unfolding init_nvs
  init_nvs-Keeps = search (keeps_rules, quiet.events, error_check-Keeps) depth 9

  pub open_nvs-Keeps : Keeps P (open_nvs env)
  unfolding open_nvs
  open_nvs-Keeps = search (keeps_rules, quiet.events)

  read_authorization-Keeps : (phone_id : Bytes) → Keeps P (read_authorization env phone_id)
  unfolding read_authorization
  read_authorization-Keeps phone_id = search (keeps_rules, quiet.events) depth 9

  pub get_authorization-Keeps : (phone_id : Bytes) → Keeps P (get_authorization env phone_id)
  unfolding get_authorization
  get_authorization-Keeps phone_id =
      search (keeps_rules, init_nvs-Keeps, open_nvs-Keeps, read_authorization-Keeps) depth 9

  with_nvs-Keeps : (body : Exec EspErr) → Keeps P body → Keeps P (with_nvs env body)
  unfolding with_nvs
  with_nvs-Keeps body kept = Keeps-bind _ _ init_nvs-Keeps (λ err.
      Keeps-if (is_ok err) _ _
        (Keeps-bind _ _ open_nvs-Keeps (λ opened. Keeps-if (is_ok opened) _ _ kept (Keeps-pure _)))
        (Keeps-pure _))

  -- A write keeps what its own event, the commit and the close keep.
  pub write_and_commit-Keeps :
      (write : Exec EspErr) → Keeps P write → Keeps P (write_and_commit env write)
  unfolding write_and_commit
  write_and_commit-Keeps write kept = with_nvs-Keeps _ (
      Keeps-bind _ _ kept (λ written.
        Keeps-if (is_ok written) _ _ (search (keeps_rules, quiet.events) depth 8) (Keeps-pure _)))

  set_authorization-Keeps : (auth : Authorization) → Keeps P (set_authorization env auth)
  unfolding set_authorization
  set_authorization-Keeps auth = search (keeps_rules, quiet.events, write_and_commit-Keeps)

  pub gen_hmac_32-Keeps : (key message : Bytes) → Keeps P (gen_hmac_32 env key message)
  unfolding gen_hmac_32 hmac_call
  gen_hmac_32-Keeps key message = search (keeps_rules, quiet.events) depth 10

  decrypt_base64_rsa-Keeps : (text : Bytes) → Keeps P (decrypt_base64_rsa env text)
  unfolding decrypt_base64_rsa decrypt_rsa
  decrypt_base64_rsa-Keeps text = search (keeps_rules, quiet.events) depth 10

  hash_sha256-Keeps : (message : Bytes) → Keeps P (hash_sha256 env message)
  unfolding hash_sha256 sha256_call
  hash_sha256-Keeps message = search (keeps_rules, quiet.events) depth 10

  sign_rsa-Keeps : (to_sign : Bytes) → Keeps P (sign_rsa env to_sign)
  unfolding sign_rsa
  sign_rsa-Keeps to_sign = search (keeps_rules, quiet.events, hash_sha256-Keeps) depth 10

  pub create_invite-Keeps :
      (expiration : ℤ) (kind : UserType) (valid_from valid_until : ℤ) (weekdays : Option Bytes)
      (one_day : ℤ) (email : Option Bytes)
      → Keeps P (create_invite env expiration kind valid_from valid_until weekdays one_day email)
  unfolding create_invite mac_text
  create_invite-Keeps expiration kind valid_from valid_until weekdays one_day email =
      search (keeps_rules, quiet.events, sign_rsa-Keeps) depth 8

  store_reply-Keeps :
      (reply : AuthorizationReply) (memory : Authorization) → Keeps P (store_reply env reply memory)
  unfolding store_reply
  store_reply-Keeps reply memory =
      search (keeps_rules, decrypt_base64_rsa-Keeps, fill_role-Keeps, set_authorization-Keeps) depth
        12

  pub get_authorization_db-Keeps :
      (phone_id : Bytes) (memory : Authorization)
      → Keeps P (get_authorization_db env phone_id memory)
  unfolding get_authorization_db mac_text
  get_authorization_db-Keeps phone_id memory =
      search (keeps_rules, quiet.events, sign_rsa-Keeps, store_reply-Keeps) depth 9

  get_registration_status_server-Keeps : Keeps P (get_registration_status_server env)
  unfolding get_registration_status_server mac_text
  get_registration_status_server-Keeps = search (keeps_rules, quiet.events)

  pub get_registration_status-Keeps : Keeps P (get_registration_status env)
  unfolding get_registration_status
  get_registration_status-Keeps =
      search (keeps_rules, Keeps-modify, quiet.status, get_registration_status_server-Keeps) depth 9

  pub force_get_registration_status-Keeps : Keeps P (force_get_registration_status env)
  unfolding force_get_registration_status
  force_get_registration_status-Keeps =
      search (keeps_rules, Keeps-modify, quiet.status, get_registration_status-Keeps) depth 8

  pub get_default_expiration_timestamp-Keeps : Keeps P (get_default_expiration_timestamp env)
  unfolding get_default_expiration_timestamp
  get_default_expiration_timestamp-Keeps = search (keeps_rules, get_now_timestamp-Keeps env quiet)

  pub retrieve_session_credentials-Keeps :
      (cred addr : Bytes) → Keeps P (retrieve_session_credentials env cred addr)
  unfolding retrieve_session_credentials install_key
  retrieve_session_credentials-Keeps cred addr =
      search
        (
          keeps_rules,
          decrypt_base64_rsa-Keeps,
          set_aes_ctx-Keeps env quiet,
          set_user_state-Keeps env quiet,
        )
        depth 12
