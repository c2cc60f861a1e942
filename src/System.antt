-- ===== src/System.antt =====
-- The three ways in together: the TCP server of main/tcp_server.c, the Bluetooth callbacks of
-- main/ble_s3_server.c and the serial server of main/ble_server.c on one lock, between two starts. A
-- step is a whole connection, a run of callbacks or a round; steps that overlap are not covered.
use smart_door_lock_io_t.Common.{ℕ, ℤ, Bytes, List, ◌≡◌, refl, ◌⊎◌, inl, inr}
use smart_door_lock_io_t.Platform.{Env, EspErr}
use smart_door_lock_io_t.Device.{Device, ok}
use smart_door_lock_io_t.Text.{c_string}
use smart_door_lock_io_t.Handler.Safety.{unlocks}
use smart_door_lock_io_t.Unlocking.{IsUnlocking}
use smart_door_lock_io_t.Tcp.{Receive, begin_connection, serve_connection}
use smart_door_lock_io_t.Tcp.Kept.{StaysClosed, StaysClosed-trans}
use smart_door_lock_io_t.Tcp.Connection as TcpConnection
use smart_door_lock_io_t.BleS3.Connection as BleConnection
use smart_door_lock_io_t.Uart.{ble_user, unescape, echo_round}
use smart_door_lock_io_t.Uart.Safety.{IsTakenUp, echo_round-unlocks}

module _ (env : Env) (number : EspErr → ℤ) (fuel : ℕ) where
  -- A part that ends in a fault is taken as far as it got.
  pub data Step (d : Device) : Device → Type 0 where
    over_tcp :
        (addr : Bytes) (receives : List Receive)
        → Step d (serve_connection env number fuel addr receives d).1
    over_bluetooth : {e : Device} → BleConnection.Run env number d e → Step d e
    over_serial : (bytes : Bytes) → Step d (echo_round env number bytes d).1

  pub data Reach (d : Device) : Device → Type 0 where
    here : Reach d d
    next : {e f : Device} → Reach d e → Step e f → Reach d f

  -- What came in on the step was an unlock command that passed its checks: a receive of the connection,
  -- a write of the callbacks, or the line.
  abbrev pub StepOpens : {d e : Device} → Step d e → Type 0
  StepOpens {d} (over_tcp addr receives) =
      (begun : Device) × (begin_connection env number fuel addr d ≡ (ok tt, begun))
      × TcpConnection.IsOpened env number fuel receives begun
  StepOpens (over_bluetooth run) = BleConnection.Opens env number run
  StepOpens {d} (over_serial bytes) =
      IsUnlocking env (unescape (c_string bytes)) ble_user
        (IsTakenUp env (record d { uart_data = unescape (c_string bytes) }))

  abbrev pub Opens : {d e : Device} → Reach d e → Type 0
  Opens here = ⊥
  Opens (next run step) = Opens run ⊎ StepOpens step

  Step-unlocks :
      (d e : Device) (step : Step d e)
      → StaysClosed (unlocks d.trace) d.led_status e ⊎ StepOpens step
  Step-unlocks d e (over_tcp addr receives) =
      TcpConnection.serve_connection-unlocks env number fuel addr receives d
  Step-unlocks d e (over_bluetooth run) = BleConnection.Run-unlocks env number d e run
  Step-unlocks d e (over_serial bytes) = echo_round-unlocks env number bytes d

  -- Whatever connections, Bluetooth callbacks and serial rounds come one after the other: the flash is
  -- not told that the lock is open, and the LED shows what it showed, a locked door or an idle one,
  -- unless a receive of one of these connections, a value written in one of these callbacks or the line
  -- of one of these rounds, taken up when it came in, decrypted under the AES key of its session to an
  -- RUD command that passed its checks in the states that followed.
  pub Reach-unlocks :
      (d e : Device) (run : Reach d e) → StaysClosed (unlocks d.trace) d.led_status e ⊎ Opens run
  Reach-unlocks d e here = inl (refl, inl refl)
  Reach-unlocks d e (next {e = before} run step) = elim (Reach-unlocks d before run) [
    | inr o ↦ inr (inl o)
    | inl shut ↦ elim (Step-unlocks before e step) [
      | inl shut' ↦ inl (StaysClosed-trans (unlocks d.trace) d.led_status before e shut shut')
      | inr opens ↦ inr (inr opens)
    ]
  ]
