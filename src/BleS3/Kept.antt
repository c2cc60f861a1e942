-- ===== src/BleS3/Kept.antt =====
-- Answering over Bluetooth keeps every quiet predicate.
use smart_door_lock_io_t.Common.{ℕ, zero, suc, Bytes, refl}
use smart_door_lock_io_t.Platform.{Env, indicate, delay, gap_disconnect}
use smart_door_lock_io_t.Device.{Device}
use smart_door_lock_io_t.Device.Keeps.{
  Keeps, Keeps-bind, Keeps-if, Keeps-emit, Keeps-modify, Keeps-pure, Keeps-raise, keeps_rules,
}
use smart_door_lock_io_t.Platform.{Event}
use smart_door_lock_io_t.Device.Keeps.{Ignores}
use smart_door_lock_io_t.Types.{RegistrationStatus}
use smart_door_lock_io_t.Users.{
  get_user_aes_ctx, get_user_state, get_user, get_user_info, find_user,
}
use smart_door_lock_io_t.Database.{get_registration_status_server, mac_text}
use smart_door_lock_io_t.Session.{get_registration_status, force_get_registration_status}
use smart_door_lock_io_t.BleS3.Process.{awaits_first_invite}
use smart_door_lock_io_t.Quiet.{IsQuiet}
use smart_door_lock_io_t.Quiet.Messages.{
  add_timestamps_and_nonce_to_msg-Keeps, encrypt_str_aes-Keeps,
}
use smart_door_lock_io_t.BleS3.{frame, send_frames, send_text, send_data_ble_s3, disconnect_ble_s3}
use smart_door_lock_io_t.BleS3.Process.{send_response}

module _ {P : Device → Type 0} where
  frame-Keeps : (n : ℕ) (text : Bytes) (total current : ℕ) → Keeps P (frame n text total current)
  unfolding frame
  frame-Keeps n text total zero = Keeps-raise _
  frame-Keeps n text total (suc c) = search keeps_rules

module _ (env : Env) {P : Device → Type 0} (quiet : IsQuiet P) where
  send_frames-Keeps :
      (n : ℕ) (text : Bytes) (total fuel current : ℕ)
      → Keeps P (send_frames n text total fuel current)
  unfolding send_frames
  send_frames-Keeps n text total zero current = Keeps-pure _
  send_frames-Keeps n text total (suc fuel) current =
      Keeps-if _ _ _
        (Keeps-bind _ _ (frame-Keeps n text total current) (λ f.
          Keeps-bind _ _ (Keeps-emit _ (quiet.events (indicate f) refl)) (λ _.
            Keeps-bind _ _ (Keeps-emit _ (quiet.events delay refl))
              (λ _. send_frames-Keeps n text total fuel _))))
        (Keeps-pure _)

  send_text-Keeps : (mtu : ℕ) (text : Bytes) → Keeps P (send_text mtu text)
  unfolding send_text
  send_text-Keeps mtu text =
      Keeps-if _ _ _ (Keeps-emit _ (quiet.events (indicate text) refl))
        (Keeps-if _ _ _ (Keeps-raise _) (send_frames-Keeps _ text _ _ _))

  pub send_data_ble_s3-Keeps : (data' : Bytes) → Keeps P (send_data_ble_s3 data')
  unfolding send_data_ble_s3
  send_data_ble_s3-Keeps data' = search (keeps_rules, send_text-Keeps)

  pub disconnect_ble_s3-Keeps : Keeps P disconnect_ble_s3
  unfolding disconnect_ble_s3
  disconnect_ble_s3-Keeps = Keeps-emit _ (quiet.events gap_disconnect refl)

  pub send_response-Keeps : (aes response : Bytes) → Keeps P (send_response env aes response)
  unfolding send_response
  send_response-Keeps aes response =
      search
        (
          keeps_rules,
          add_timestamps_and_nonce_to_msg-Keeps env quiet,
          encrypt_str_aes-Keeps env quiet,
          send_data_ble_s3-Keeps,
        )
        depth 8

-- What looks at no event and at no registration status is kept in front of the first command.
module _ (env : Env) {P : Device → Type 0} (events : (e : Event) → Ignores P e)
    (status : (d : Device) (r : RegistrationStatus)
      → P d
      → P (record d { registration_status = r })) where
  server_status-Keeps : Keeps P (get_registration_status_server env)
  unfolding get_registration_status_server mac_text
  server_status-Keeps = search (keeps_rules, events)

  pub known_status-Keeps : Keeps P (get_registration_status env)
  unfolding get_registration_status
  known_status-Keeps = search (keeps_rules, Keeps-modify, status, server_status-Keeps) depth 9

  forced_status-Keeps : Keeps P (force_get_registration_status env)
  unfolding force_get_registration_status
  forced_status-Keeps = search (keeps_rules, Keeps-modify, status, known_status-Keeps) depth 8

  pub awaits_first_invite-Keeps : Keeps P (awaits_first_invite env)
  unfolding awaits_first_invite
  awaits_first_invite-Keeps = Keeps-bind _ _ known_status-Keeps (λ known.
      Keeps-if _ _ _ (Keeps-bind _ _ forced_status-Keeps (λ again. Keeps-pure _)) (Keeps-pure _))

pub user_state-Keeps :
    (env : Env) {P : Device → Type 0} (addr : Bytes) → Keeps P (get_user_state env addr)
unfolding get_user_state get_user get_user_info find_user
user_state-Keeps env addr = search keeps_rules depth 10

pub looks_up-Keeps :
    (env : Env) {P : Device → Type 0} (addr : Bytes) → Keeps P (get_user_aes_ctx env addr)
unfolding get_user_aes_ctx get_user get_user_info find_user
looks_up-Keeps env addr = search keeps_rules depth 10
