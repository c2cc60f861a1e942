-- ===== src/Examples/Sessions.antt =====
-- Sessions and messages at concrete inputs.
use smart_door_lock_io_t.Common.{
  ◌+ℤ◌, ◌-ℤ◌, ℤ, pos, Bytes, [], ◌∷◌, ◌++◌, some, codes, ◌≡◌, ◌≢◌, refl, ◌⊎◌, arith,
}
use smart_door_lock_io_t.Types.{connected}
use smart_door_lock_io_t.Platform.{EspErr}
use smart_door_lock_io_t.Device.{Device, ok, fault, bad_free}
use smart_door_lock_io_t.Examples.World.{
  world, world-IsCipher, index_of-IsHash, home, sender, phone,
}
use smart_door_lock_io_t.Users.{key, set_user_state, get_user_state}
use smart_door_lock_io_t.Users.Sessions.{session, user_or_new}
use smart_door_lock_io_t.Users.Setters.{
  with_state, session-set_user_state, get_user_state-set_user_state,
}
use smart_door_lock_io_t.Pkcs7.Padding.{finds_no_memory}
use smart_door_lock_io_t.Device.{aborted}
use smart_door_lock_io_t.Common.{if◌then◌else◌}
use smart_door_lock_io_t.Aes.{encrypt_str_aes, decrypt_base64_aes}
use smart_door_lock_io_t.Aes.Session.{decrypt-encrypt_str_aes}
use smart_door_lock_io_t.Text.{tokens, strtol, show_u}
use smart_door_lock_io_t.Time.{get_now_timestamp}
use smart_door_lock_io_t.Messages.{add_timestamps_and_nonce_to_msg}
use smart_door_lock_io_t.Messages.Window.{add_timestamps_and_nonce_to_msg-window}
use smart_door_lock_io_t.BleS3.Process.{process_normal_data}
use smart_door_lock_io_t.Unlocking.{IsUnlocking}
use smart_door_lock_io_t.BleS3.Safety.{IsTakenUp, process_normal_data-unlocks}
use smart_door_lock_io_t.Handler.Safety.{unlocks, StaysShut}

abbrev number : EspErr → ℤ
number e = pos 7

abbrev neighbour : Bytes
neighbour = codes "10.0.0.8"

session-set_user_state_example :
    (session world (set_user_state world neighbour connected phone home).1 neighbour
      ≡ some (with_state connected phone (user_or_new neighbour (session world home neighbour))))
    × ((jp : Bytes)
        → key neighbour ≢ key jp
        → session world (set_user_state world neighbour connected phone home).1 jp
          ≡ session world home jp)
session-set_user_state_example =
    session-set_user_state world neighbour phone connected home index_of-IsHash (omega arith)
      (omega arith)

same_key : key neighbour ≡ key sender
unfolding key
same_key = refl

get_user_state-set_user_state_example :
    (get_user_state world sender (set_user_state world neighbour connected phone home).1).0
    ≡ ok connected
get_user_state-set_user_state_example =
    get_user_state-set_user_state world neighbour sender phone connected home index_of-IsHash
      (omega arith) (omega arith) same_key

abbrev session_key : Bytes
session_key = 1 ∷ 2 ∷ 3 ∷ []

decrypt-encrypt_str_aes_example :
    (message : Bytes) × ((encrypt_str_aes world session_key (codes "ACK") home).0 ≡ ok message)
    × ((decrypt_base64_aes world session_key message home).0 ≡ (
        if finds_no_memory world.malloc_zero_is_null (codes "ACK")
        then fault aborted
        else ok (codes "ACK")))
decrypt-encrypt_str_aes_example =
    decrypt-encrypt_str_aes world session_key (codes "ACK") home home world-IsCipher (omega arith)
      (omega arith, (omega arith, (omega arith, tt))) (refl, (refl, (refl, tt)))

abbrev stamp_message : Bytes
stamp_message = codes "SUI 42"

clock_reads : get_now_timestamp world home ≡ (ok (pos 1000), (get_now_timestamp world home).1)
unfolding get_now_timestamp smart_door_lock_io_t.Device.◌>>=◌ smart_door_lock_io_t.Time.read_clock
    smart_door_lock_io_t.Time.is_time_valid
clock_reads = refl

add_timestamps_and_nonce_to_msg-window_example :
    (stamp : Bytes) × ((from : Bytes) × ((until : Bytes) × (((add_timestamps_and_nonce_to_msg world
              stamp_message home).0
            ≡ ok stamp)
          × ((tokens stamp ≡ tokens stamp_message ++ from ∷ until ∷ show_u 4 ∷ [])
              × ((strtol from ≡ pos 1000 -ℤ pos 30) × (strtol until ≡ pos 1000 +ℤ pos 30))))))
add_timestamps_and_nonce_to_msg-window_example =
    add_timestamps_and_nonce_to_msg-window world stamp_message home _ (pos 1000) clock_reads
      (omega arith) (omega arith)

-- A peer at the sender's address, whose message is no ping.
abbrev peer : Device
peer = record home { ble_user_addr = sender }

process_normal_data-unlocks_example :
    StaysShut
      (unlocks peer.trace)
      peer.led_status
      (process_normal_data world number (codes "QUFB QUFB") peer).1
    ⊎ IsUnlocking world (codes "QUFB QUFB") sender (IsTakenUp world peer)
process_normal_data-unlocks_example =
    process_normal_data-unlocks world number (codes "QUFB QUFB") peer
