-- ===== src/InviteCommands.antt =====
-- The branches RNI, RFI and RUI of `checkCommand` in main/tcp_server_handler.c.
pub mod Tenants
use smart_door_lock_io_t.Common.{
  ℕ, ◌-◌, ℤ, negsuc, unsigned32, Bytes, Bool, true, false, List, [], ◌∷◌, ◌++◌, Option, none, some,
  codes, has_prefix, ◌||◌, if◌then◌else◌,
}
use smart_door_lock_io_t.Types.{
  UserType, admin, owner, tenant, periodic_user, one_time_user, no_role, user_type_of,
  Authorization, RegistrationStatus, registered,
}
use smart_door_lock_io_t.Platform.{Env}
use smart_door_lock_io_t.Device.{
  Exec, null_pointer, uninitialised, pure, raise, require, if_some, ◌>>=◌, ◌>>◌,
}
use smart_door_lock_io_t.Text.{strtol}
use smart_door_lock_io_t.Users.{set_ble_user_state_to_connecting}
use smart_door_lock_io_t.Access.{
  arg, verify_timestamps_and_nonce, can_use_lock, can_create_invite, session_authorization,
}
use smart_door_lock_io_t.Database.{create_invite}
use smart_door_lock_io_t.Session.{get_registration_status, get_default_expiration_timestamp}
use smart_door_lock_io_t.Args.{get_args}
use smart_door_lock_io_t.LockCommands.{nak_message, nak}

-- The terms of an invite; -1 and NULL stand for what the role does not use.
pub record Terms : Type 0 where
  pub kind : UserType
  pub valid_from : ℤ
  pub valid_until : ℤ
  pub weekdays_str : Option Bytes
  pub one_day : ℤ

abbrev pub unlimited : UserType → Terms
unlimited kind = record {
  kind = kind;
  valid_from = negsuc 0;
  valid_until = negsuc 0;
  weekdays_str = none;
  one_day = negsuc 0;
}

-- How many words the role of the invite takes.
unfoldable pub invite_arg_count : Bytes → ℕ
invite_arg_count cmd =
    if has_prefix (codes "RNI 0") cmd || has_prefix (codes "RNI 1") cmd
    then 4
    else if has_prefix (codes "RNI 2") cmd
    then 6
    else if has_prefix (codes "RNI 3") cmd
    then 7
    else if has_prefix (codes "RNI 4") cmd
    then 5
    else 0

unfoldable pub number_arg : List Bytes → ℕ → Exec ℤ
number_arg args i = do word ← arg args i; pure (strtol word)

-- The `switch` on the role that the words ask for.
unfoldable pub terms_of_args : List Bytes → UserType → Exec Terms
terms_of_args args admin = pure (unlimited admin)
terms_of_args args owner = pure (unlimited owner)
terms_of_args args tenant = do
  valid_from ← number_arg args 1
  valid_until ← number_arg args 2
  pure (record (unlimited tenant) { valid_from = valid_from; valid_until = valid_until })
terms_of_args args periodic_user = do
  valid_from ← number_arg args 1
  valid_until ← number_arg args 2
  weekdays ← arg args 3
  pure (record (unlimited periodic_user) {
    valid_from = valid_from;
    valid_until = valid_until;
    weekdays_str = some weekdays;
  })
terms_of_args args one_time_user = do
  one_day ← number_arg args 1
  pure (record (unlimited one_time_user) { one_day = one_day })
terms_of_args args (no_role n) = pure (unlimited (no_role n))

abbrev pub any_true : List Bool → Bool
any_true [] = false
any_true (b ∷ bs) = let rest = any_true bs in b || rest

-- The `switch` on the role of the sender. For a periodic user `strcat` appends the days to memory
-- that `malloc` left without a value.
unfoldable pub terms_of_authorization : Authorization → UserType → Exec Terms
terms_of_authorization auth admin = pure (unlimited admin)
terms_of_authorization auth owner = pure (unlimited owner)
terms_of_authorization auth periodic_user =
    if any_true auth.weekdays
    then raise uninitialised
    else pure (record (unlimited periodic_user) {
      valid_from = auth.valid_from_ts;
      valid_until = auth.valid_until_ts;
    })
terms_of_authorization auth tenant = pure (record (unlimited tenant) {
  valid_from = auth.valid_from_ts;
  valid_until = auth.valid_until_ts;
})
terms_of_authorization auth one_time_user =
    pure (record (unlimited one_time_user) { one_day = auth.one_day_ts })
terms_of_authorization auth (no_role n) = pure (unlimited (no_role n))

module _ (env : Env) where
  -- The length of the invite id is taken before it is compared with NULL.
  unfoldable pub invite_response : Bytes → Terms → Option Bytes → Exec Bytes
  invite_response word terms email_locked = do
    expiration ← get_default_expiration_timestamp env
    created ←
        create_invite env expiration terms.kind terms.valid_from terms.valid_until
          terms.weekdays_str terms.one_day email_locked
    invite_id ← require null_pointer created
    pure (word ++ b' ' ∷ invite_id)

  -- The checks that RNI and RUI share.
  unfoldable pub checked_invite : List Bytes → ℕ → Bytes → Bytes → Terms → Option Bytes → Exec Bytes
  checked_invite args first user_ip word terms email_locked = do
    fresh ← verify_timestamps_and_nonce env args first
    if fresh
        then (do
          allowed ← can_use_lock env user_ip
          if allowed
              then (do
                granted ←
                    can_create_invite env user_ip terms.kind terms.valid_from terms.valid_until
                      terms.one_day
                if granted then invite_response word terms email_locked else pure nak_message)
              else pure nak_message)
        else pure nak_message

  -- Request New Invite
  unfoldable pub request_new_invite : Bytes → Bytes → Exec (Option Bytes)
  request_new_invite cmd user_ip = do
    let n_args = invite_arg_count cmd
    words ← get_args env cmd n_args
    if_some words
        (λ args. do
          role ← arg args 0
          terms ← terms_of_args args (user_type_of (unsigned32 (strtol role)))
          response ← checked_invite args (n_args - 3) user_ip (codes "SNI") terms none
          set_ble_user_state_to_connecting env
          pure (some response))
        nak

  abbrev pub is_registered : RegistrationStatus → Bool
  is_registered registered = true
  is_registered _ = false

  -- Request First Invite
  unfoldable pub request_first_invite : Bytes → Exec (Option Bytes)
  request_first_invite cmd = do
    status ← get_registration_status env
    if is_registered status
        then (do
          words ← get_args env cmd 4
          if_some words
              (λ args. do
                fresh ← verify_timestamps_and_nonce env args 1
                response ←
                    if fresh
                    then invite_response (codes "SFI") (unlimited admin) none
                    else pure nak_message
                pure (some response))
              nak)
        else nak

  -- Request User Invite: without an authorization the response is NULL.
  unfoldable pub request_user_invite : Bytes → Bytes → Exec (Option Bytes)
  request_user_invite cmd user_ip = do
    words ← get_args env cmd 4
    if_some words
        (λ args. do
          found ← session_authorization env user_ip
          if_some found
              (λ auth. do
                email ← arg args 0
                terms ← terms_of_authorization auth auth.user_type
                response ← checked_invite args 1 user_ip (codes "SUI") terms (some email)
                set_ble_user_state_to_connecting env
                pure (some response))
              (pure none))
        nak
