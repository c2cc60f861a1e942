-- ===== src/Quiet/Commands.antt =====
-- The commands that do not move the lock keep every quiet predicate.
use smart_door_lock_io_t.Common.{ℕ, Bytes, List, Option, none, some}
use smart_door_lock_io_t.Platform.{Env}
use smart_door_lock_io_t.Device.{Device}
use smart_door_lock_io_t.Device.Keeps.{
  Keeps, Keeps-bind, Keeps-if, Keeps-if_some, Keeps-pure, Keeps-require, keeps_rules,
}
use smart_door_lock_io_t.Quiet.{IsQuiet}
use smart_door_lock_io_t.Quiet.Platform.{
  set_user_state-Keeps, get_user_state-Keeps, get_user_seed-Keeps,
  set_ble_user_state_to_connecting-Keeps,
}
use smart_door_lock_io_t.Quiet.Storage.{
  create_invite-Keeps, get_registration_status-Keeps, get_default_expiration_timestamp-Keeps,
}
use smart_door_lock_io_t.LockCommands.{
  authorize_session, send_auth_credentials, notify_if_authorized, send_notification_command,
}
use smart_door_lock_io_t.InviteCommands.{
  Terms, invite_response, checked_invite, request_new_invite, request_first_invite,
  request_user_invite,
}
use smart_door_lock_io_t.Quiet.Decisions.{
  arg-Keeps, terms_of_args-Keeps, terms_of_authorization-Keeps, get_args-Keeps,
  verify_timestamps_and_nonce-Keeps, session_authorization-Keeps, can_use_lock-Keeps,
  can_create_invite-Keeps, check_authorization_code-Keeps,
}

module _ (env : Env) {P : Device → Type 0} (quiet : IsQuiet P) where
  authorize_session-Keeps :
      (phone_id code ip : Bytes) → Keeps P (authorize_session env phone_id code ip)
  unfolding authorize_session
  authorize_session-Keeps phone_id code ip =
      search
        (
          keeps_rules,
          get_user_seed-Keeps env quiet,
          check_authorization_code-Keeps env quiet,
          set_user_state-Keeps env quiet,
        )
        depth 8

  pub send_auth_credentials-Keeps : (cmd ip : Bytes) → Keeps P (send_auth_credentials env cmd ip)
  unfolding send_auth_credentials
  send_auth_credentials-Keeps cmd ip =
      search
        (
          keeps_rules,
          get_args-Keeps env,
          arg-Keeps,
          verify_timestamps_and_nonce-Keeps env quiet,
          authorize_session-Keeps,
        )
        depth 10

  notify_if_authorized-Keeps : (devid ip : Bytes) → Keeps P (notify_if_authorized env devid ip)
  unfolding notify_if_authorized
  notify_if_authorized-Keeps devid ip =
      search (keeps_rules, quiet.events, get_user_state-Keeps env quiet) depth 8

  pub send_notification_command-Keeps :
      (cmd ip : Bytes) → Keeps P (send_notification_command env cmd ip)
  unfolding send_notification_command
  send_notification_command-Keeps cmd ip =
      search
        (
          keeps_rules,
          get_args-Keeps env,
          arg-Keeps,
          verify_timestamps_and_nonce-Keeps env quiet,
          notify_if_authorized-Keeps,
        )
        depth 10

  invite_response-Keeps :
      (word : Bytes) (terms : Terms) (email : Option Bytes)
      → Keeps P (invite_response env word terms email)
  unfolding invite_response
  invite_response-Keeps word terms email =
      Keeps-bind _ _ (get_default_expiration_timestamp-Keeps env quiet) (λ expiration.
        Keeps-bind _ _ (create_invite-Keeps env quiet _ _ _ _ _ _ _)
          (λ created. Keeps-bind _ _ (Keeps-require _ _) (λ id. Keeps-pure _)))

  checked_invite-Keeps :
      (args : List Bytes) (first : ℕ) (ip word : Bytes) (terms : Terms) (email : Option Bytes)
      → Keeps P (checked_invite env args first ip word terms email)
  unfolding checked_invite
  checked_invite-Keeps args first ip word terms email =
      search
        (
          keeps_rules,
          verify_timestamps_and_nonce-Keeps env quiet,
          can_use_lock-Keeps env quiet,
          can_create_invite-Keeps env quiet,
          invite_response-Keeps,
        )
        depth 10

  pub request_new_invite-Keeps : (cmd ip : Bytes) → Keeps P (request_new_invite env cmd ip)
  unfolding request_new_invite
  request_new_invite-Keeps cmd ip = Keeps-bind _ _ (get_args-Keeps env _ _) (λ words.
      Keeps-if_some words _ _
        (λ args. Keeps-bind _ _ (arg-Keeps args 0) (λ role.
          Keeps-bind _ _ (terms_of_args-Keeps args _) (λ terms.
            Keeps-bind _ _ (checked_invite-Keeps args _ ip _ terms none) (λ response.
              Keeps-bind _ _ (set_ble_user_state_to_connecting-Keeps env quiet)
                (λ _. Keeps-pure _)))))
        (Keeps-pure _))

  pub request_first_invite-Keeps : (cmd : Bytes) → Keeps P (request_first_invite env cmd)
  unfolding request_first_invite
  request_first_invite-Keeps cmd =
      Keeps-bind _ _ (get_registration_status-Keeps env quiet) (λ status.
        Keeps-if _ _ _
          (Keeps-bind _ _ (get_args-Keeps env _ _) (λ words.
            Keeps-if_some words _ _
              (λ args. Keeps-bind _ _ (verify_timestamps_and_nonce-Keeps env quiet args 1) (λ fresh.
                Keeps-bind _ _ (Keeps-if fresh _ _ (invite_response-Keeps _ _ _) (Keeps-pure _))
                  (λ response. Keeps-pure _)))
              (Keeps-pure _)))
          (Keeps-pure _))

  pub request_user_invite-Keeps : (cmd ip : Bytes) → Keeps P (request_user_invite env cmd ip)
  unfolding request_user_invite
  request_user_invite-Keeps cmd ip = Keeps-bind _ _ (get_args-Keeps env _ _) (λ words.
      Keeps-if_some words _ _
        (λ args. Keeps-bind _ _ (session_authorization-Keeps env quiet ip) (λ found.
          Keeps-if_some found _ _
            (λ auth. Keeps-bind _ _ (arg-Keeps args 0) (λ email.
              Keeps-bind _ _ (terms_of_authorization-Keeps auth _) (λ terms.
                Keeps-bind _ _ (checked_invite-Keeps args 1 ip _ terms (some email)) (λ response.
                  Keeps-bind _ _ (set_ble_user_state_to_connecting-Keeps env quiet)
                    (λ _. Keeps-pure _)))))
            (Keeps-pure _)))
        (Keeps-pure _))
