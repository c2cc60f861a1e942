-- ===== src/Examples/Lock.antt =====
-- The theorems on the firmware's functions at work.
use smart_door_lock_io_t.Common.{
  ℤ, pos, Bytes, Bool, true, false, List, [], ◌∷◌, none, some, codes, drop, take, length, ◌≤◌, ◌<◌,
  ◌≡◌, refl, ◌⊎◌, inl, All, ◌≤ℤ◌, arith,
}
use smart_door_lock_io_t.Types.{owner, tenant, one_time_user, admin, Authorization}
use smart_door_lock_io_t.Platform.{EspErr}
use smart_door_lock_io_t.Device.{Device, ok, fault, bad_free}
use smart_door_lock_io_t.Examples.World.{world, home, sender, owner_authorization}
use smart_door_lock_io_t.Users.{key, set_user_state, get_user_state}
use smart_door_lock_io_t.Text.{tokens, strtol, show_u}
use smart_door_lock_io_t.Args.{get_command, get_args}
use smart_door_lock_io_t.Args.Words.{get_args-cases}
use smart_door_lock_io_t.Access.{verify_timestamps_and_nonce, can_use_lock, may_use, may_invite}
use smart_door_lock_io_t.Access.Sound.{IsFresh, verify_timestamps_and_nonce-IsFresh}
use smart_door_lock_io_t.Access.Allowed.{IsTrusted, can_use_lock-IsTrusted}
use smart_door_lock_io_t.Access.Decisions.{grants, may_use-refuses, may_invite-bounds}
use smart_door_lock_io_t.LockCommands.{ack_if, request_unlock_door, request_lock_door}
use smart_door_lock_io_t.LockCommands.Answers.{
  led_after, request_door, led_of_door, request_door-answer,
}
use smart_door_lock_io_t.Time.{get_now_timestamp}
use smart_door_lock_io_t.Handler.{check_command}
use smart_door_lock_io_t.Handler.Safety.{unlocks, StaysShut}
use smart_door_lock_io_t.Handler.Unlock.{IsGranted, check_command-unlocks}

abbrev number : EspErr → ℤ
number e = pos 7

abbrev rud : Bytes
rud = codes "RUD 900 1100 42"

check_command-unlocks_example :
    StaysShut (unlocks home.trace) home.led_status (check_command world number rud sender home).1
    ⊎ ((get_command rud ≡ some (codes "RUD")) × IsGranted world rud sender home)
check_command-unlocks_example = check_command-unlocks world number rud sender home

abbrev words : List Bytes
words = codes "900" ∷ codes "1100" ∷ codes "42" ∷ []

fresh_message :
    verify_timestamps_and_nonce world words 0 home
    ≡ (ok true, (verify_timestamps_and_nonce world words 0 home).1)
unfolding verify_timestamps_and_nonce smart_door_lock_io_t.Device.◌>>=◌
    smart_door_lock_io_t.Access.arg smart_door_lock_io_t.Time.get_now_timestamp
    smart_door_lock_io_t.Time.read_clock smart_door_lock_io_t.Time.is_time_valid
    smart_door_lock_io_t.Text.strtol smart_door_lock_io_t.Nonces.check_nonce
    smart_door_lock_io_t.Access.record_nonce smart_door_lock_io_t.Nonces.check_nonce_at
    smart_door_lock_io_t.Nonces.add_nonce
fresh_message = refl

verify_timestamps_and_nonce-IsFresh_example :
    IsFresh world words 0 home (verify_timestamps_and_nonce world words 0 home).1
verify_timestamps_and_nonce-IsFresh_example =
    verify_timestamps_and_nonce-IsFresh world words 0 home _ fresh_message

owner_may_use : can_use_lock world sender home ≡ (ok true, (can_use_lock world sender home).1)
unfolding can_use_lock smart_door_lock_io_t.Device.◌>>=◌
    smart_door_lock_io_t.Access.session_authorization get_user_state
    smart_door_lock_io_t.Users.get_user smart_door_lock_io_t.Users.get_user_info
    smart_door_lock_io_t.Users.find_user key smart_door_lock_io_t.Users.get_phone_id
    smart_door_lock_io_t.Nvs.get_authorization smart_door_lock_io_t.Nvs.init_nvs
    smart_door_lock_io_t.Nvs.open_nvs smart_door_lock_io_t.Nvs.read_authorization
    smart_door_lock_io_t.Nvs.contents may_use
owner_may_use = refl

can_use_lock-IsTrusted_example :
    (auth : Authorization) × ((d1 : Device) × (IsTrusted world sender home d1 auth
        × (may_use world auth auth.user_type d1 ≡ (ok true, (can_use_lock world sender home).1))))
can_use_lock-IsTrusted_example = can_use_lock-IsTrusted world sender home _ owner_may_use

unlocked_door :
    request_unlock_door world rud sender home
    ≡ (ok (some (codes "ACK")), (request_unlock_door world rud sender home).1)
unfolding request_unlock_door smart_door_lock_io_t.LockStatus.unlock_lock
    smart_door_lock_io_t.LockCommands.request_move smart_door_lock_io_t.Device.◌>>=◌ get_args tokens
    smart_door_lock_io_t.LockCommands.move_lock verify_timestamps_and_nonce
    smart_door_lock_io_t.Access.arg smart_door_lock_io_t.Time.get_now_timestamp
    smart_door_lock_io_t.Time.read_clock smart_door_lock_io_t.Time.is_time_valid
    smart_door_lock_io_t.Text.strtol smart_door_lock_io_t.Nonces.check_nonce
    smart_door_lock_io_t.Access.record_nonce smart_door_lock_io_t.Nonces.check_nonce_at
    smart_door_lock_io_t.Nonces.add_nonce can_use_lock may_use
    smart_door_lock_io_t.Access.session_authorization smart_door_lock_io_t.Nvs.init_nvs
    smart_door_lock_io_t.Nvs.open_nvs smart_door_lock_io_t.Nvs.get_authorization
    smart_door_lock_io_t.Nvs.read_authorization smart_door_lock_io_t.Nvs.contents
    smart_door_lock_io_t.Nvs.with_nvs smart_door_lock_io_t.Nvs.write_and_commit
    smart_door_lock_io_t.Nvs.set_lock_state smart_door_lock_io_t.LockStatus.set_led_status
    smart_door_lock_io_t.LockStatus.update_led_color smart_door_lock_io_t.LockStatus.configure_led
    smart_door_lock_io_t.LockStatus.change_led_color
    smart_door_lock_io_t.Users.set_ble_user_state_to_connecting get_user_state
    smart_door_lock_io_t.Users.get_phone_id smart_door_lock_io_t.Users.get_user
    smart_door_lock_io_t.Users.get_user_info smart_door_lock_io_t.Users.find_user key
    smart_door_lock_io_t.Text.tokens_from
unlocked_door = refl

request_door-answer_example :
    (ack : Bool) × ((some (codes "ACK") ≡ some (ack_if ack))
      × ((request_door true world rud sender home).1.led_status
          ≡ led_after ack (led_of_door true) home.led_status))
request_door-answer_example =
    request_door-answer true world rud sender home _ (some (codes "ACK")) unlocked_door

-- Today is 900, inside of the period.
abbrev tenancy : Authorization
tenancy = record owner_authorization {
  user_type = tenant;
  valid_from_ts = pos 100;
  valid_until_ts = pos 2000;
}

may_use-refuses_example : grants (may_use world tenancy tenant home).0 ≡ false
may_use-refuses_example = may_use-refuses world tenancy home tenant (inl refl) (omega arith)

one_day_invite : may_invite world tenancy one_time_user (pos 300) (pos 300) (pos 300) ≡ true
unfolding may_invite smart_door_lock_io_t.Access.role_may_invite
one_day_invite = refl

may_invite-bounds_example :
    (2 ≤ 4)
    × ((tenant ≡ admin)
        ⊎ ((tenant ≡ owner)
            ⊎ ((tenant ≡ tenant)
                × All
                    (λ ts. (pos 100 ≤ℤ ts) × (ts ≤ℤ pos 2000))
                    (pos 300 ∷ pos 300 ∷ pos 300 ∷ []))))
may_invite-bounds_example =
    may_invite-bounds world tenancy one_time_user (pos 300) (pos 300) (pos 300) one_day_invite

abbrev short_command : Bytes
short_command = codes "RUD 900 1100"

get_args-cases_example :
    let ws = drop 1 (tokens short_command) in
    (3 ≤ length ws → get_args world short_command 3 home ≡ (ok (some (take 3 ws)), home))
    × (length ws ≡ 0 → get_args world short_command 3 home ≡ (ok none, home))
    × (0 < length ws → length ws < 3 → get_args world short_command 3 home ≡ (fault bad_free, home))
get_args-cases_example = get_args-cases world short_command 3 home (omega arith)
