-- ===== src/BleS3/Closing.antt =====
-- What the end of a Bluetooth connection leaves, and the write that stops the firmware.
use smart_door_lock_io_t.Common.{
  ℕ, ◌-◌, ◌≤◌, ◌<◌, ℤ, Bytes, false, Option, none, some, [], ◌∷◌, length, ◌≡◌, refl, ap, sym, subst,
  ◌∙◌, ltb-false, ==-false, arith,
}
use smart_door_lock_io_t.Types.{UserInfo, UserState, disconnected, led_idle}
use smart_door_lock_io_t.Platform.{Env, EspErr, advertise}
use smart_door_lock_io_t.Device.{
  Device, Result, ok, fault, null_pointer, uninitialised, emit, gets, modify, require, raise, ◌>>=◌,
}
use smart_door_lock_io_t.Device.Runs.{bind-ok}
use smart_door_lock_io_t.Power.{start_deep_sleep_timer, default_sleep_time}
use smart_door_lock_io_t.Users.{
  find_user, get_user_info, get_user, get_user_state, set_user_state, set_current_ble_addr,
}
use smart_door_lock_io_t.Users.Sessions.{IsHash, session}
use smart_door_lock_io_t.Users.Setters.{get_user_state-set_user_state}
use smart_door_lock_io_t.LockStatus.{set_led_status, disconnect_lock}
use smart_door_lock_io_t.Quiet.{IsQuiet}
use smart_door_lock_io_t.Quiet.Platform.{set_user_state-Keeps}
use smart_door_lock_io_t.LockStatus.Led.{update_led_color-Keeps}
use smart_door_lock_io_t.Tcp.Kept.{start_deep_sleep_timer-Keeps}
use smart_door_lock_io_t.BleS3.Events.{
  write_evt, command_val, find_char_and_desr_index, gatts_disconnected, write_command, written,
  gatts_profile_event_handler,
}

abbrev state_of : Option UserInfo → Result UserState
state_of none = fault null_pointer
state_of (some user) = elim user.state [ none ↦ fault uninitialised | some s ↦ ok s ]

-- The state that is read is a function of the session.
get_user_state_lem :
    (env : Env) (ip : Bytes) (d : Device)
    → (get_user_state env ip d).0 ≡ state_of (session env d ip)
unfolding get_user_state get_user get_user_info find_user gets require ◌>>=◌
get_user_state_lem env ip d = by_session (session env d ip) refl
  where
    by_session :
        (o : Option UserInfo)
        → session env d ip ≡ o
        → ((require null_pointer (session env d ip) >>= λ user. require uninitialised user.state)
            d).0
          ≡ state_of (session env d ip)
    by_session none e = rw e refl
    by_session (some user) e = rw e (by_state user.state)
      where
        by_state :
            (s : Option UserState)
            → (require uninitialised s d).0 ≡ elim s [ none ↦ fault uninitialised | some x ↦ ok x ]
        by_state none = refl
        by_state (some x) = refl

-- The fields that the end of a connection sets, and those that it finds again.
abbrev pub Offline : Bytes → Device → Type 0
Offline addr d = (d.is_connected ≡ false) × ((d.enable_data_ntf ≡ false) × (d.ble_user_addr ≡ addr))

Offline-IsQuiet : (addr : Bytes) → IsQuiet (Offline addr)
Offline-IsQuiet addr = record {
  events = λ e h. record { ignore = λ d p. p };
  nonces = λ d l p. p;
  users = λ d l p. p;
  status = λ d s p. p;
}

abbrev pub Unnamed : Bytes → Device → Type 0
Unnamed addr d = (d.current_ble_addr ≡ []) × Offline addr d

Unnamed-IsQuiet : (addr : Bytes) → IsQuiet (Unnamed addr)
Unnamed-IsQuiet addr = record {
  events = λ e h. record { ignore = λ d p. p };
  nonces = λ d l p. p;
  users = λ d l p. p;
  status = λ d s p. p;
}

-- The lock is idle, and of the sessions nothing changes.
idle_leaves :
    (addr : Bytes) (d : Device)
    → Unnamed addr d
    → ((disconnect_lock d).1.led_status ≡ led_idle)
      × (((disconnect_lock d).1.users_info ≡ d.users_info) × Unnamed addr (disconnect_lock d).1)
unfolding disconnect_lock set_led_status modify ◌>>=◌
idle_leaves addr d h =
    (update_led_color-Keeps
        {P = λ e. (e.led_status ≡ led_idle) × ((e.users_info ≡ d.users_info) × Unnamed addr e)}
        (λ e quiet. record { ignore = λ x p. p }) (λ e p. p)).at
      (record d { led_status = led_idle }) (refl, (refl, h))

abbrev Closed : Env → Bytes → Device → Type 0
Closed env addr d =
    ((get_user_state env d.ble_user_addr d).0 ≡ ok disconnected)
    × ((d.led_status ≡ led_idle) × Unnamed addr d)

disconnect_lock-Closed :
    (env : Env) (addr : Bytes) (d : Device)
    → Unnamed addr d
    → (get_user_state env addr d).0 ≡ ok disconnected
    → Closed env addr (disconnect_lock d).1
disconnect_lock-Closed env addr d unnamed read =
    let (led, (users, end)) = idle_leaves addr d unnamed in
    (
      ap (λ a. (get_user_state env a (disconnect_lock d).1).0) end.1.1.1
          ∙ get_user_state_lem env addr (disconnect_lock d).1
          ∙ ap (λ us. state_of (session env (record d { users_info = us }) addr)) users
          ∙ sym (get_user_state_lem env addr d)
          ∙ read,
      (led, end),
    )

set_user_state-disconnects :
    (env : Env) (addr : Bytes) (d : Device)
    → IsHash env.hash_find
    → length addr < 45
    → Unnamed addr d
    → Unnamed addr (set_user_state env d.ble_user_addr disconnected [] d).1
      × ((get_user_state env addr (set_user_state env d.ble_user_addr disconnected [] d).1).0
          ≡ ok disconnected)
set_user_state-disconnects env addr d hash short unnamed = (
  (set_user_state-Keeps env (Unnamed-IsQuiet addr) d.ble_user_addr disconnected []).at d unnamed,
  subst
      (λ a.
        (get_user_state env addr (set_user_state env a disconnected [] d).1).0 ≡ ok disconnected)
      (sym unnamed.1.1.1)
      (get_user_state-set_user_state env addr addr [] disconnected d hash short (omega arith) refl),
)

-- If the callback for the end of a connection returns, then the peer's session, whatever it was, is
-- disconnected, and the lock has no peer, sends no notifications, and its LED is idle.
pub gatts_disconnected-closes :
    (env : Env) (d d' : Device)
    → IsHash env.hash_find
    → length d.ble_user_addr < 45
    → gatts_disconnected env d ≡ (ok tt, d')
    → ((get_user_state env d'.ble_user_addr d').0 ≡ ok disconnected)
      × ((d'.led_status ≡ led_idle) × Unnamed d.ble_user_addr d')
unfolding gatts_disconnected set_current_ble_addr emit gets modify ◌>>=◌
gatts_disconnected-closes env d d' hash short run =
    let start : Device = record d { is_connected = false; enable_data_ntf = false } in
    let (_, (d1, (timer, rest))) =
      bind-ok (start_deep_sleep_timer env default_sleep_time) _ start d' tt run in
    let off : Offline d.ble_user_addr d1 = subst (Offline d.ble_user_addr) (ap (λ r. r.1) timer) (
      (start_deep_sleep_timer-Keeps env (Offline-IsQuiet d.ble_user_addr) default_sleep_time
          (λ e p. p)).at
        start (refl, (refl, refl))) in
    let d2 : Device = record d1 { trace = advertise ∷ d1.trace; current_ble_addr = [] } in
    let (_, (d3, (set_state, rest'))) =
      bind-ok (set_user_state env d1.ble_user_addr disconnected []) (λ _. disconnect_lock) d2 d' tt
        rest in
    let (unnamed, read) =
      set_user_state-disconnects env d.ble_user_addr d2 hash short (refl, off) in
    let same : (set_user_state env d1.ble_user_addr disconnected [] d2).1 ≡ d3 =
      ap (λ r. r.1) set_state in
    subst (Closed env d.ble_user_addr) (ap (λ r. r.1) rest') (
      disconnect_lock-Closed env d.ble_user_addr d3 (subst (Unnamed d.ble_user_addr) same unnamed)
        (subst (λ e. (get_user_state env d.ble_user_addr e).0 ≡ ok disconnected) same read))

-- A peer that writes a command of at most one packet to the command attribute stops the firmware, as
-- long as the queue was not created.
pub write_command-null_pointer :
    (env : Env) (number : EspErr → ℤ) (handle gatts_if : ℕ) (value : Bytes) (d : Device)
    → d.has_cmd_queue ≡ false
    → find_char_and_desr_index d.spp_handle_table 0 handle ≡ command_val
    → 3 < d.spp_mtu_size
    → length value ≤ d.spp_mtu_size - 3
    → (gatts_profile_event_handler env number (write_evt handle false value) gatts_if d).0
      ≡ fault null_pointer
unfolding gatts_profile_event_handler written write_command gets raise ◌>>=◌
write_command-null_pointer env number handle gatts_if value d no_queue found room fits =
    rw
      (
        found,
        ltb-false d.spp_mtu_size 3 (omega arith),
        ==-false d.spp_mtu_size 3 (omega arith),
        ltb-false (d.spp_mtu_size - 3) (length value) fits,
        no_queue,
      )
      refl
