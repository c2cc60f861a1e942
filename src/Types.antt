-- ===== src/Types.antt =====
-- The enumerations and structures that the headers declare: main/utils/authorization.h,
-- lock_status.h, user_info.h and utils.h.
use smart_door_lock_io_t.Common.{
  ℕ, ℤ, pos, negsuc, Bytes, Bool, List, Option, if◌then◌else◌, ◌==◌, eqb_ℤ,
}

-- enum userType; an `unsigned int` that names no role is `no_role`.
pub data UserType : Type 0 where
  admin owner tenant periodic_user one_time_user : UserType
  no_role : ℕ → UserType

abbrev pub user_type_code : UserType → ℕ
user_type_code admin = 0
user_type_code owner = 1
user_type_code tenant = 2
user_type_code periodic_user = 3
user_type_code one_time_user = 4
user_type_code (no_role n) = n

-- The conversion `(enum userType) n`.
unfoldable pub user_type_of : ℕ → UserType
user_type_of n =
    if n == 0
    then admin
    else if n == 1
    then owner
    else if n == 2
    then tenant
    else if n == 3
    then periodic_user
    else if n == 4
    then one_time_user
    else no_role n

-- `authorization`
pub record Authorization : Type 0 where
  pub phone_id : Bytes
  pub user_type : UserType
  pub master_key : Bytes
  pub weekdays : List Bool
  pub valid_from_ts : ℤ
  pub valid_until_ts : ℤ
  pub one_day_ts : ℤ

-- lock_state_t; `lock_code` is any other value that `get_lock_state` hands on.
pub data LockState : Type 0 where
  locked unlocked : LockState
  lock_code : ℤ → LockState

abbrev pub lock_state_value : LockState → ℤ
lock_state_value locked = pos 0
lock_state_value unlocked = pos 1
lock_state_value (lock_code n) = n

unfoldable pub lock_state_of : ℤ → LockState
lock_state_of n =
    if eqb_ℤ n (pos 0) then locked else if eqb_ℤ n (pos 1) then unlocked else lock_code n

-- led_status_t
pub data LedStatus : Type 0 where
  led_idle led_locked led_unlocked led_sleep : LedStatus

-- user_state_t
pub data UserState : Type 0 where
  disconnected connecting connected authorized : UserState

abbrev pub user_state_code : UserState → ℕ
user_state_code disconnected = 0
user_state_code connecting = 1
user_state_code connected = 2
user_state_code authorized = 3

-- user_info_hash_t. `none` is a field that `malloc` left without a value.
pub record UserInfo : Type 0 where
  pub user_ip : Bytes
  pub phone_id : Option Bytes
  pub state : Option UserState
  pub seed : Option Bytes
  pub aes_ctx : Option Bytes

-- nonce_t; the list's `next` pointers are the list.
pub record Nonce : Type 0 where
  pub nonce : ℤ
  pub expires : ℤ

-- lock_registration_status_t; the server's number may be none of the enumerators.
pub data RegistrationStatus : Type 0 where
  unknown_status not_registered registered complete : RegistrationStatus
  status_code : ℤ → RegistrationStatus

unfoldable pub registration_status_of : ℤ → RegistrationStatus
registration_status_of n =
    if eqb_ℤ n (negsuc 0)
    then unknown_status
    else if eqb_ℤ n (pos 0)
    then not_registered
    else if eqb_ℤ n (pos 1)
    then registered
    else if eqb_ℤ n (pos 2)
    then complete
    else status_code n
