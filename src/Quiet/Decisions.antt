-- ===== src/Quiet/Decisions.antt =====
-- Freshness, access decisions and the commands that do not move the lock keep every quiet predicate.
use smart_door_lock_io_t.Common.{ℕ, zero, suc, ℤ, Bytes, Bool, true, false, List, Option}
use smart_door_lock_io_t.Types.{
  UserType, admin, owner, tenant, periodic_user, one_time_user, no_role, Authorization,
}
use smart_door_lock_io_t.Platform.{Env}
use smart_door_lock_io_t.Device.{Device}
use smart_door_lock_io_t.Device.Keeps.{
  Keeps, Keeps-bind, Keeps-if, Keeps-pure, Keeps-raise, Keeps-require, keeps_rules,
}
use smart_door_lock_io_t.Quiet.{IsQuiet}
use smart_door_lock_io_t.Quiet.Platform.{
  get_now_timestamp-Keeps, get_today_timestamp-Keeps, get_today_weekday-Keeps, add_nonce-Keeps,
  check_nonce-Keeps, get_user_state-Keeps, get_phone_id-Keeps,
}
use smart_door_lock_io_t.Quiet.Storage.{
  contents-Keeps, get_authorization-Keeps, gen_hmac_32-Keeps, get_authorization_db-Keeps,
}
use smart_door_lock_io_t.Nvs.{Buffer}
use smart_door_lock_io_t.Access.{
  arg, record_nonce, verify_timestamps_and_nonce, tenant_may_use, may_use, session_authorization,
  can_use_lock, can_create_invite, compare_code, from_server, check_authorization_code,
}
use smart_door_lock_io_t.Args.{release, get_args}
use smart_door_lock_io_t.InviteCommands.{number_arg, terms_of_args, terms_of_authorization}

module _ {P : Device → Type 0} where
  pub arg-Keeps : (args : List Bytes) (i : ℕ) → Keeps P (arg args i)
  unfolding arg
  arg-Keeps args i = search keeps_rules

  pub release-Keeps : (i : ℕ) → Keeps P (release i)
  unfolding release
  release-Keeps zero = Keeps-pure tt
  release-Keeps (suc i) = Keeps-if _ _ _ (Keeps-raise _) (release-Keeps i)

  pub terms_of_args-Keeps :
      (args : List Bytes) (kind : UserType) → Keeps P (terms_of_args args kind)
  unfolding terms_of_args number_arg
  terms_of_args-Keeps args admin = search keeps_rules
  terms_of_args-Keeps args owner = search keeps_rules
  terms_of_args-Keeps args tenant = search (keeps_rules, arg-Keeps) depth 9
  terms_of_args-Keeps args periodic_user = search (keeps_rules, arg-Keeps) depth 9
  terms_of_args-Keeps args one_time_user = search (keeps_rules, arg-Keeps) depth 9
  terms_of_args-Keeps args (no_role n) = search keeps_rules

  pub terms_of_authorization-Keeps :
      (auth : Authorization) (kind : UserType) → Keeps P (terms_of_authorization auth kind)
  unfolding terms_of_authorization
  terms_of_authorization-Keeps auth admin = search keeps_rules
  terms_of_authorization-Keeps auth _ = search keeps_rules

module _ (env : Env) {P : Device → Type 0} where
  pub get_args-Keeps : (str : Bytes) (n : ℕ) → Keeps P (get_args env str n)
  unfolding get_args
  get_args-Keeps str n = search (keeps_rules, release-Keeps)

module _ (env : Env) {P : Device → Type 0} (quiet : IsQuiet P) where
  pub record_nonce-Keeps : (b : Bool) (nonce ts2 : ℤ) → Keeps P (record_nonce env b nonce ts2)
  unfolding record_nonce
  record_nonce-Keeps true nonce ts2 = search (keeps_rules, add_nonce-Keeps env quiet)
  record_nonce-Keeps false nonce ts2 = search keeps_rules

  pub verify_timestamps_and_nonce-Keeps :
      (args : List Bytes) (first : ℕ) → Keeps P (verify_timestamps_and_nonce env args first)
  unfolding verify_timestamps_and_nonce
  verify_timestamps_and_nonce-Keeps args first = Keeps-bind _ _ (arg-Keeps args first) (λ a.
      Keeps-bind _ _ (arg-Keeps args _) (λ b. Keeps-bind _ _ (arg-Keeps args _) (λ c.
        Keeps-bind _ _ (get_now_timestamp-Keeps env quiet) (λ now.
          Keeps-bind _ _ (Keeps-if _ _ _ (check_nonce-Keeps env quiet _) (Keeps-pure _))
            (λ unused. record_nonce-Keeps unused _ _)))))

  pub tenant_may_use-Keeps : (auth : Authorization) → Keeps P (tenant_may_use env auth)
  unfolding tenant_may_use
  tenant_may_use-Keeps auth = search (keeps_rules, get_today_timestamp-Keeps env quiet)

  pub may_use-Keeps : (auth : Authorization) (kind : UserType) → Keeps P (may_use env auth kind)
  unfolding may_use
  may_use-Keeps auth admin = Keeps-pure _
  may_use-Keeps auth owner = Keeps-pure _
  may_use-Keeps auth periodic_user = Keeps-bind _ _ (get_today_weekday-Keeps env quiet) (λ weekday.
      Keeps-bind _ _ (Keeps-require _ _)
        (λ allowed. Keeps-if allowed _ _ (tenant_may_use-Keeps auth) (Keeps-pure _)))
  may_use-Keeps auth tenant = tenant_may_use-Keeps auth
  may_use-Keeps auth one_time_user =
      Keeps-bind _ _ (get_today_timestamp-Keeps env quiet) (λ today. Keeps-pure _)
  may_use-Keeps auth (no_role n) = Keeps-pure _

  pub session_authorization-Keeps : (ip : Bytes) → Keeps P (session_authorization env ip)
  unfolding session_authorization
  session_authorization-Keeps ip =
      search
        (
          keeps_rules,
          get_user_state-Keeps env quiet,
          get_phone_id-Keeps env quiet,
          get_authorization-Keeps env quiet,
          contents-Keeps,
        )
        depth 14

  pub can_use_lock-Keeps : (ip : Bytes) → Keeps P (can_use_lock env ip)
  unfolding can_use_lock
  can_use_lock-Keeps ip = search (keeps_rules, session_authorization-Keeps, may_use-Keeps)

  pub can_create_invite-Keeps :
      (ip : Bytes) (kind : UserType) (a b c : ℤ) → Keeps P (can_create_invite env ip kind a b c)
  unfolding can_create_invite
  can_create_invite-Keeps ip kind a b c = search (keeps_rules, session_authorization-Keeps)

  pub compare_code-Keeps :
      (auth : Authorization) (code : Bytes) (seed : Option Bytes)
      → Keeps P (compare_code env auth code seed)
  unfolding compare_code
  compare_code-Keeps auth code seed = search (keeps_rules, gen_hmac_32-Keeps env quiet) depth 9

  pub from_server-Keeps :
      (phone_id : Bytes) (buffer : Buffer) → Keeps P (from_server env phone_id buffer)
  unfolding from_server
  from_server-Keeps phone_id buffer =
      search (keeps_rules, get_authorization_db-Keeps env quiet) depth 8

  pub check_authorization_code-Keeps :
      (phone_id code : Bytes) (seed : Option Bytes)
      → Keeps P (check_authorization_code env phone_id code seed)
  unfolding check_authorization_code
  check_authorization_code-Keeps phone_id code seed =
      search
        (
          keeps_rules,
          get_authorization-Keeps env quiet,
          from_server-Keeps,
          contents-Keeps,
          compare_code-Keeps,
        )
        depth 10
