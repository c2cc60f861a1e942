-- ===== src/Handler.antt =====
-- `checkCommand` of main/tcp_server_handler.c: the command word chooses the branch. The second test
-- for "RLD" is never reached.
pub mod Safety
pub mod Unlock
use smart_door_lock_io_t.Common.{ℤ, Bytes, Bool, Option, some, codes, str_eq, if◌then◌else◌}
use smart_door_lock_io_t.Platform.{Env, EspErr}
use smart_door_lock_io_t.Device.{Exec, null_pointer, pure, require, ◌>>=◌, ◌>>◌}
use smart_door_lock_io_t.Users.{set_ble_user_state_to_connecting}
use smart_door_lock_io_t.Args.{get_command}
use smart_door_lock_io_t.LockCommands.{
  nak_message, send_auth_credentials, request_unlock_door, request_lock_door,
  send_notification_command, request_door_state,
}
use smart_door_lock_io_t.InviteCommands.{
  request_new_invite, request_first_invite, request_user_invite,
}

module _ (env : Env) (number : EspErr → ℤ) where
  unfoldable pub dispatch : Bytes → Bytes → Bytes → Exec (Option Bytes)
  dispatch c cmd user_ip =
      if str_eq c (codes "SAC")
      then send_auth_credentials env cmd user_ip
      else if str_eq c (codes "RUD")
      then request_unlock_door env cmd user_ip
      else if str_eq c (codes "RLD")
      then request_lock_door env cmd user_ip
      else if str_eq c (codes "RNI")
      then request_new_invite env cmd user_ip
      else if str_eq c (codes "RFI")
      then request_first_invite env cmd
      else if str_eq c (codes "RUI")
      then request_user_invite env cmd user_ip
      else if str_eq c (codes "SNT")
      then send_notification_command env cmd user_ip
      else if str_eq c (codes "RDS")
      then request_door_state env number cmd user_ip
      else (do set_ble_user_state_to_connecting env; pure (some nak_message))

  -- Without a command word, strcmp reads NULL.
  unfoldable pub check_command : Bytes → Bytes → Exec (Option Bytes)
  check_command cmd user_ip = do c ← require null_pointer (get_command cmd); dispatch c cmd user_ip
