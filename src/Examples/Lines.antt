-- ===== src/Examples/Lines.antt =====
-- The serial line and the HTTP handler at concrete inputs.
use smart_door_lock_io_t.Common.{
  leb, if◌then◌else◌, ℤ, pos, Bytes, List, [], ◌∷◌, ◌++◌, ◌≡◌, refl, ◌⊎◌, ◌-◌, none, some, length,
  replicate, codes, arith,
}
use smart_door_lock_io_t.Platform.{EspErr}
use smart_door_lock_io_t.Device.{ok, fault, buffer_overflow}
use smart_door_lock_io_t.Text.{c_string}
use smart_door_lock_io_t.Handler.Safety.{unlocks}
use smart_door_lock_io_t.Unlocking.{IsUnlocking}
use smart_door_lock_io_t.Tcp.Kept.{StaysClosed}
use smart_door_lock_io_t.Uart.{ble_user, unescape, echo_round}
use smart_door_lock_io_t.Uart.Safety.{IsTakenUp, echo_round-unlocks}
use smart_door_lock_io_t.Http.{Receiver, on_finish, handle_events, request_buffer}
use smart_door_lock_io_t.Http.Chunks.{
  part, parts, joined, handle_events-joined, handle_events-response,
}
use smart_door_lock_io_t.Examples.World.{world, home}

abbrev number : EspErr → ℤ
number e = pos 1

abbrev line : Bytes
line = codes "-UFB QUFB\r"

echo_round-unlocks_example :
    StaysClosed (unlocks home.trace) home.led_status (echo_round world number line home).1
    ⊎ IsUnlocking world
        (unescape (c_string line))
        ble_user
        (IsTakenUp world (record home { uart_data = unescape (c_string line) }))
echo_round-unlocks_example = echo_round-unlocks world number line home

-- A buffer of 16 bytes, of which 2 are written.
abbrev buffer : Bytes
buffer = codes "{ " ++ replicate 14 0

abbrev chunks : List Bytes
chunks = codes "\"id\":" ∷ codes "7" ∷ [] ∷ codes " }" ∷ []

handle_events-joined_example :
    handle_events
      (parts chunks)
      (record { user_data = some buffer; output_buffer = none; output_len = 2 })
    ≡ handle_events
        (part (joined chunks) ∷ [])
        (record { user_data = some buffer; output_buffer = none; output_len = 2 })
handle_events-joined_example = handle_events-joined buffer 2 none chunks (omega arith)

abbrev idle : Receiver
idle = record { user_data = none; output_buffer = none; output_len = 0 }

handle_events-response_example :
    handle_events (parts chunks ++ on_finish ∷ []) (request_buffer 16 idle) ≡ (
      if leb (length (joined chunks)) 16
      then ok (record {
        user_data = some (joined chunks ++ replicate (16 - length (joined chunks)) 0);
        output_buffer = none;
        output_len = 0;
      })
      else fault buffer_overflow)
handle_events-response_example = handle_events-response 16 chunks idle refl
