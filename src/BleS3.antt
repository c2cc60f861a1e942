-- ===== src/BleS3.antt =====
-- main/ble_s3_server.c: sending over Bluetooth. The room behind the data, where the end mark goes, is
-- not modelled.
pub mod Blocks
pub mod Fragments
pub mod Process
pub mod Kept
pub mod Safety
pub mod Events
pub mod Table
pub mod Callbacks
pub mod Connection
pub mod Advert
pub mod Closing
use smart_door_lock_io_t.Common.{
  ℕ, zero, suc, ◌+◌, ◌-◌, ◌*◌, ◌/◌, ◌%◌, Bytes, ◌||◌, List, [], ◌∷◌, ◌++◌, length, take, drop, ltb,
  leb, ◌==◌, if◌then◌else◌,
}
use smart_door_lock_io_t.Platform.{indicate, delay, gap_disconnect}
use smart_door_lock_io_t.Device.{
  Exec, aborted, out_of_bounds, buffer_overflow, pure, raise, gets, emit, ◌>>=◌, ◌>>◌,
}

-- What the round `current` of the loop copies to the buffer of n bytes. The counter is a uint8_t:
-- after 255 it is 0, and the copy starts in front of the data.
unfoldable pub frame : ℕ → Bytes → ℕ → ℕ → Exec Bytes
frame n text total zero = raise out_of_bounds
frame n text total (suc c) =
    let rest = drop (c * n) text in
    if ltb (suc c) total
    then pure (take n rest)
    else if ltb n (length rest)
    then raise buffer_overflow
    else pure rest

-- The loop on fuel: 257 rounds reach the end, or the round with counter 0.
unfoldable pub send_frames : ℕ → Bytes → ℕ → ℕ → ℕ → Exec (Unit {0})
send_frames n text total zero current = pure tt
send_frames n text total (suc fuel) current =
    let rest = send_frames n text total fuel ((current + 1) % 256) in
    if leb current total
    then (do f ← frame n text total current; emit (indicate f); emit delay; rest)
    else pure tt

-- total_num is a uint8_t.
abbrev pub total_num : ℕ → ℕ → ℕ
total_num len n = (len / n + (if len % n == 0 then 0 else 1)) % 256

-- A bound below zero is compared as a large size_t.
unfoldable pub send_text : ℕ → Bytes → Exec (Unit {0})
send_text mtu text =
    if ltb mtu 3 || leb (length text) (mtu - 3)
    then emit (indicate text)
    else if mtu == 3
    then raise aborted
    else send_frames (mtu - 3) text (total_num (length text) (mtu - 3)) 257 1

unfoldable pub send_data_ble_s3 : Bytes → Exec (Unit {0})
send_data_ble_s3 data' = do
  connected ← gets (λ d. d.is_connected)
  if connected
      then (do mtu ← gets (λ d. d.spp_mtu_size); send_text mtu (data' ++ 4 ∷ []))
      else pure tt

unfoldable pub disconnect_ble_s3 : Exec (Unit {0})
disconnect_ble_s3 = emit gap_disconnect
