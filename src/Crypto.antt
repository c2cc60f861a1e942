-- ===== src/Crypto.antt =====
-- main/utils/hmac_util.c, main/utils/sha256_util.c and main/utils/rsa_util.c, over mbedtls. Each digest
-- and each result has its value only where the calls before it gave no error.
use smart_door_lock_io_t.Common.{Bytes, List, Option, none, some, if◌then◌else◌}
use smart_door_lock_io_t.Platform.{
  Env, EspErr, is_ok, hmac_step, parse_key, sha256_step, sign, rsa_decrypt,
}
use smart_door_lock_io_t.Device.{Exec, null_pointer, uninitialised, pure, require, call, ◌>>=◌}
use smart_door_lock_io_t.Text.{c_string}
use smart_door_lock_io_t.Base64.{base64_encode, base64_decode}

abbrev pub bind_signature : Option Bytes → Option Bytes
bind_signature none = none
bind_signature (some signature) = base64_encode signature

module _ (env : Env) where
  unfoldable pub hmac_call : Exec EspErr
  hmac_call = call hmac_step env.hmac_status

  -- mbedtls_md_setup, _hmac_starts, _hmac_update and _hmac_finish, each with an early return. The
  -- digest has its value where the error is ESP_OK.
  unfoldable pub gen_hmac_32 : Bytes → Bytes → Exec (EspErr × Bytes)
  gen_hmac_32 key message = do
    setup ← hmac_call
    if is_ok setup
        then (do
          starts ← hmac_call
          if is_ok starts
              then (do
                update ← hmac_call
                if is_ok update
                    then (do finish ← hmac_call; pure (finish, env.hmac_digest key message))
                    else pure (update, List.[]))
              else pure (starts, List.[]))
        else pure (setup, List.[])

  unfoldable pub sha256_call : Exec EspErr
  sha256_call = call sha256_step env.sha256_status

  -- mbedtls_sha256_starts_ret, _update_ret and _finish_ret; `none` where the hash is not written.
  unfoldable pub hash_sha256 : Bytes → Exec (EspErr × Option Bytes)
  hash_sha256 message = do
    starts ← sha256_call
    if is_ok starts
        then (do
          update ← sha256_call
          if is_ok update
              then (do
                finish ← sha256_call
                pure (finish, if is_ok finish then some (env.sha256_digest message) else none))
              else pure (update, none))
        else pure (starts, none)

  -- The error of `hash_sha256` is not looked at. `none` is NULL.
  unfoldable pub sign_rsa : Bytes → Exec (Option Bytes)
  sign_rsa to_sign = do
    key ← call parse_key env.key_status
    if is_ok key
        then (do
          (err, written) ← hash_sha256 to_sign
          hash ← require uninitialised written
          signature ← call (sign hash) (λ t. env.pss_signature t hash)
          pure (bind_signature signature))
        else pure none

  unfoldable pub decrypt_rsa : Bytes → Exec (Option Bytes)
  decrypt_rsa ciphertext = do
    key ← call parse_key env.key_status
    if is_ok key then call (rsa_decrypt ciphertext) (λ t. env.rsa_plain t ciphertext) else pure none

  -- A failure of `decrypt_RSA` is NULL, which is read through.
  unfoldable pub decrypt_base64_rsa : Bytes → Exec Bytes
  decrypt_base64_rsa text = do
    ciphertext ← require null_pointer (base64_decode text)
    plain ← decrypt_rsa ciphertext
    decrypted ← require null_pointer plain
    pure (c_string decrypted)
