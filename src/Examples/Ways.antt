-- ===== src/Examples/Ways.antt =====
-- A connection and then a serial line at one lock.
use smart_door_lock_io_t.Common.{ℤ, pos, Bytes, [], ◌∷◌, codes, ◌⊎◌}
use smart_door_lock_io_t.Platform.{EspErr}
use smart_door_lock_io_t.Device.{Device}
use smart_door_lock_io_t.Handler.Safety.{unlocks}
use smart_door_lock_io_t.Tcp.{received, serve_connection}
use smart_door_lock_io_t.Tcp.Kept.{StaysClosed}
use smart_door_lock_io_t.Uart.{echo_round}
use smart_door_lock_io_t.System.{over_tcp, over_serial, here, next, Reach, Opens, Reach-unlocks}
use smart_door_lock_io_t.Examples.World.{world, home, sender}

abbrev number : EspErr → ℤ
number e = pos 1

abbrev line : Bytes
line = codes "-UFB QUFB\r"

abbrev connected_once : Device
connected_once =
    (serve_connection world number 400 sender (received (codes "QUFB QUFB") ∷ []) home).1

abbrev two_steps : Reach world number 400 home (echo_round world number line connected_once).1
two_steps =
    next (next here (over_tcp sender (received (codes "QUFB QUFB") ∷ []))) (over_serial line)

Reach-unlocks_example :
    StaysClosed (unlocks home.trace) home.led_status (echo_round world number line connected_once).1
    ⊎ Opens world number 400 two_steps
Reach-unlocks_example =
    Reach-unlocks world number 400 home (echo_round world number line connected_once).1 two_steps
