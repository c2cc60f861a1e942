-- ===== src/Examples/Links.antt =====
-- The connections at concrete inputs: TCP, the deep sleep timer and the network.
use smart_door_lock_io_t.Common.{
  ◌+◌, ◌≤◌, ℤ, pos, negsuc, Bytes, Bool, true, false, List, [], ◌∷◌, ◌++◌, length, codes, ◌≡◌, refl,
  ◌⊎◌, arith,
}
use smart_door_lock_io_t.Platform.{Env, EspErr, Trace, timer_start, timer_stop}
use smart_door_lock_io_t.Device.{Device, ok, fault, out_of_bounds}
use smart_door_lock_io_t.Handler.Safety.{unlocks}
use smart_door_lock_io_t.Power.{cancel_deep_sleep_timer, start_deep_sleep_timer}
use smart_door_lock_io_t.Power.Timer.{IsTimer, is_armed, naps, deep_sleep_timer-is_armed}
use smart_door_lock_io_t.Tcp.{
  received, closed, failed, Accept, accepted, refused, send_rest, listen_socket, tcp_server_task,
}
use smart_door_lock_io_t.Tcp.Kept.{StaysClosed}
use smart_door_lock_io_t.Tcp.Server.{IsServed, tcp_server_task-unlocks}
use smart_door_lock_io_t.Tcp.Send.{
  transmitted, Progresses, send_rest-transmits, send_rest-out_of_bounds,
}
use smart_door_lock_io_t.Wifi.{
  WifiEvent, sta_start, sta_disconnected, got_ip, still_waiting, joined, gave_up, wait_bits,
  event_handler, fresh_station,
}
use smart_door_lock_io_t.Wifi.Retries.{
  here, next, IsBounded, disconnections, Reach-IsBounded, wait_bits-verdicts,
}
use smart_door_lock_io_t.Examples.World.{world, home, sender}

abbrev number : EspErr → ℤ
number e = pos 1

-- Two peers one after the other, and then an error of `accept`.
abbrev peers : List Accept
peers =
    accepted sender (received (codes "QUFB QUFB") ∷ closed ∷ [])
    ∷ accepted (codes "10.0.0.9") (failed ∷ [])
    ∷ refused
    ∷ []

tcp_server_task-unlocks_example :
    StaysClosed (unlocks home.trace) home.led_status (tcp_server_task world number 400 peers home).1
    ⊎ (d1 : Device) × (listen_socket world number 400 home ≡ (ok true, d1))
      × IsServed world number 400 peers d1
tcp_server_task-unlocks_example = tcp_server_task-unlocks world number 400 peers home

world-Progresses : Progresses world
world-Progresses t [] h = absurd (omega arith)
world-Progresses t (b ∷ bytes) h = (length bytes, (refl, omega arith))

abbrev answer : Bytes
answer = codes "QUFB"

send_rest-transmits_example :
    ((send_rest world 4 answer (length answer) home).0 ≡ ok tt)
    × (transmitted world (send_rest world 4 answer (length answer) home).1.trace
        ≡ transmitted world home.trace ++ answer)
    × ((send_rest world 4 answer (length answer) home).1
        ≡ record home { trace = (send_rest world 4 answer (length answer) home).1.trace })
send_rest-transmits_example = send_rest-transmits world 4 answer home world-Progresses (omega arith)

-- Every `send` fails.
abbrev broken : Env
broken = record world { tcp_written = λ t bytes. negsuc 0 }

send_rest-out_of_bounds_example :
    (send_rest broken 9 answer (length answer) home).0 ≡ fault out_of_bounds
send_rest-out_of_bounds_example = send_rest-out_of_bounds broken 7 answer home (omega arith) refl

abbrev timer_is_on : Trace → Bool
timer_is_on [] = false
timer_is_on (timer_start ∷ t) = true
timer_is_on (timer_stop ∷ t) = false
timer_is_on (_ ∷ t) = timer_is_on t

-- A platform with a timer that works.
abbrev timed : Env
timed = record world { timer_is_active = timer_is_on }

timed-IsTimer : IsTimer timed
timed-IsTimer = record {
  starts = λ t. refl;
  stops = λ t. refl;
  asked = λ t. refl;
  succeeds = λ t. refl;
}

deep_sleep_timer-is_armed_example :
    ((e : Device) × ((cancel_deep_sleep_timer timed home ≡ (ok tt, e))
        × ((is_armed timed e ≡ false) × (naps e.trace ≤ naps home.trace + 3))))
    × ((e : Device) × ((start_deep_sleep_timer timed (pos 20) home ≡ (ok tt, e))
          × ((is_armed timed e ≡ true) × (naps e.trace ≤ naps home.trace + 0))))
deep_sleep_timer-is_armed_example = deep_sleep_timer-is_armed timed (pos 20) home timed-IsTimer

-- The driver starts, and the access point drops the station twice.
abbrev drops : List WifiEvent
drops = sta_disconnected ∷ sta_disconnected ∷ sta_start ∷ []

Reach-IsBounded_example : IsBounded 0 drops (
    event_handler sta_disconnected
      (event_handler sta_disconnected (event_handler sta_start (fresh_station 0))))
Reach-IsBounded_example =
    Reach-IsBounded 0 drops
      (event_handler sta_disconnected
        (event_handler sta_disconnected (event_handler sta_start (fresh_station 0))))
      (omega arith) (next sta_disconnected (next sta_disconnected (next sta_start here)))

wait_bits-verdicts_example :
    ((wait_bits drops (fresh_station 3)).0 ≡ still_waiting)
    × ((wait_bits (drops ++ got_ip ∷ []) (fresh_station 3)).0 ≡ joined)
    × (3 + disconnections drops ≡ 5
        → (wait_bits (drops ++ sta_disconnected ∷ []) (fresh_station 3)).0 ≡ gave_up)
wait_bits-verdicts_example = wait_bits-verdicts 3 drops [] refl (omega arith)
