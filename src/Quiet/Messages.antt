-- ===== src/Quiet/Messages.antt =====
-- The encryption of messages and the keys of sessions keep every quiet predicate.
use smart_door_lock_io_t.Common.{Bytes, refl}
use smart_door_lock_io_t.Platform.{Env, random_word}
use smart_door_lock_io_t.Device.{Device, Result}
use smart_door_lock_io_t.Device.Keeps.{
  Keeps, Keeps-bind, Keeps-call, Keeps-modify, Keeps-pure, keeps_rules,
}
use smart_door_lock_io_t.Quiet.{IsQuiet}
use smart_door_lock_io_t.Quiet.Platform.{get_now_timestamp-Keeps, find_or_add-Keeps, get_user-Keeps}
use smart_door_lock_io_t.Users.{generate_random_seed, get_user_aes_ctx}
use smart_door_lock_io_t.Session.{session_aes}
use smart_door_lock_io_t.Aes.{
  lift, get_random_iv, encrypt_aes, decrypt_aes, encrypt_str_aes, decrypt_base64_aes,
}
use smart_door_lock_io_t.Messages.{add_timestamps_and_nonce_to_msg}

module _ {P : Device → Type 0} where
  lift-Keeps : {A : Type 0} (r : Result A) → Keeps P (lift r)
  unfolding lift
  lift-Keeps r = record { at = λ d h. h }

module _ (env : Env) {P : Device → Type 0} (quiet : IsQuiet P) where
  pub add_timestamps_and_nonce_to_msg-Keeps :
      (msg : Bytes) → Keeps P (add_timestamps_and_nonce_to_msg env msg)
  unfolding add_timestamps_and_nonce_to_msg
  add_timestamps_and_nonce_to_msg-Keeps msg =
      Keeps-bind _ _ (get_now_timestamp-Keeps env quiet) (λ now.
        Keeps-bind _ _ (Keeps-call _ _ (quiet.events random_word refl)) (λ word. Keeps-pure _))

  encrypt_aes-Keeps : (ctx text : Bytes) → Keeps P (encrypt_aes env ctx text)
  unfolding encrypt_aes get_random_iv
  encrypt_aes-Keeps ctx text = search (keeps_rules, quiet.events, lift-Keeps) depth 8

  pub encrypt_str_aes-Keeps : (ctx text : Bytes) → Keeps P (encrypt_str_aes env ctx text)
  unfolding encrypt_str_aes
  encrypt_str_aes-Keeps ctx text = search (keeps_rules, encrypt_aes-Keeps) depth 8

  decrypt_aes-Keeps : (ctx text iv : Bytes) → Keeps P (decrypt_aes env ctx text iv)
  unfolding decrypt_aes
  decrypt_aes-Keeps ctx text iv = search (keeps_rules, quiet.events, lift-Keeps) depth 8

  pub decrypt_base64_aes-Keeps : (ctx text : Bytes) → Keeps P (decrypt_base64_aes env ctx text)
  unfolding decrypt_base64_aes
  decrypt_base64_aes-Keeps ctx text = search (keeps_rules, decrypt_aes-Keeps) depth 10

  pub generate_random_seed-Keeps : (addr : Bytes) → Keeps P (generate_random_seed env addr)
  unfolding generate_random_seed
  generate_random_seed-Keeps addr =
      search (keeps_rules, Keeps-modify, quiet.events, quiet.users, find_or_add-Keeps env quiet)
        depth 8

  pub session_aes-Keeps : (addr : Bytes) → Keeps P (session_aes env addr)
  unfolding session_aes get_user_aes_ctx
  session_aes-Keeps addr = search (keeps_rules, get_user-Keeps env quiet) depth 8
