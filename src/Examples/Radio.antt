-- ===== src/Examples/Radio.antt =====
-- The Bluetooth callbacks at concrete inputs.
use smart_door_lock_io_t.Common.{ℤ, pos, Bytes, false, ◌∷◌, codes, some, ◌≡◌, refl, ◌⊎◌, arith}
use smart_door_lock_io_t.Types.{disconnected, led_idle}
use smart_door_lock_io_t.Platform.{EspErr, is_ok, read_mac, advertise_data}
use smart_door_lock_io_t.Device.{Device, ok, pure, emit, gets, modify, call, ◌>>=◌}
use smart_door_lock_io_t.Handler.Safety.{unlocks}
use smart_door_lock_io_t.Users.{
  key, get_user_state, set_user_state, find_or_add, find_user, found_or_added, write_at,
  set_current_ble_addr,
}
use smart_door_lock_io_t.Power.{start_deep_sleep_timer, timer_runs, asks_timer}
use smart_door_lock_io_t.LockStatus.{
  disconnect_lock, set_led_status, update_led_color, change_led_color,
}
use smart_door_lock_io_t.Tcp.Kept.{StaysClosed}
use smart_door_lock_io_t.BleS3.Events.{
  written, GattsEvent, write_evt, ext_adv_set_params_complete, gatts_disconnected,
  gatts_event_handler, gap_event_handler,
}
use smart_door_lock_io_t.BleS3.Connection.{Run, Opens, here, gatts, Run-unlocks}
use smart_door_lock_io_t.BleS3.Closing.{Unnamed, gatts_disconnected-closes}
use smart_door_lock_io_t.BleS3.Advert.{structures, promised, gap_event_handler-advertises}
use smart_door_lock_io_t.BleS3.Table.{gatt_db, is_writable, written-is_writable}
use smart_door_lock_io_t.Examples.World.{world, home, sender, index_of-IsHash}

abbrev number : EspErr → ℤ
number e = pos 1

-- The lock while a phone is connected over Bluetooth.
abbrev paired : Device
paired = record home { ble_user_addr = sender; current_ble_addr = sender }

abbrev write : GattsEvent
write = write_evt 42 false (codes "QUFB QUFB")

abbrev one_write : Run world number paired (gatts_event_handler world number write 3 paired).1
one_write = gatts here write 3

Run-unlocks_example :
    StaysClosed
      (unlocks paired.trace)
      paired.led_status
      (gatts_event_handler world number write 3 paired).1
    ⊎ Opens world number one_write
Run-unlocks_example =
    Run-unlocks world number paired (gatts_event_handler world number write 3 paired).1 one_write

abbrev alone : Device
alone = (gatts_disconnected world paired).1

runs : gatts_disconnected world paired ≡ (ok tt, alone)
unfolding gatts_disconnected start_deep_sleep_timer timer_runs asks_timer set_current_ble_addr
    set_user_state find_or_add find_user found_or_added write_at key disconnect_lock set_led_status
    update_led_color change_led_color pure emit gets modify call ◌>>=◌
runs = refl

gatts_disconnected-closes_example :
    ((get_user_state world alone.ble_user_addr alone).0 ≡ ok disconnected)
    × ((alone.led_status ≡ led_idle) × Unnamed paired.ble_user_addr alone)
gatts_disconnected-closes_example =
    gatts_disconnected-closes world paired alone index_of-IsHash (omega arith) runs

gap_event_handler-advertises_example :
    (raw : Bytes) × (gap_event_handler world ext_adv_set_params_complete home
      ≡ (ok tt, record home { trace = advertise_data raw ∷ read_mac ∷ home.trace }))
    × (structures 4 raw ≡ some (promised (is_ok (world.mac_err home.trace)) world.mac))
gap_event_handler-advertises_example =
    gap_event_handler-advertises world 16 16 16 16 16 16 home refl

read_only : is_writable gatt_db 4 ≡ false
unfolding gatt_db
read_only = refl

-- The value that is notified is not for the client to write.
written-is_writable_example : written world number 4 false (codes "ACK") home ≡ (ok tt, home)
written-is_writable_example = written-is_writable world number 4 false (codes "ACK") home read_only
