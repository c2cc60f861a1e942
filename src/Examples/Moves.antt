-- ===== src/Examples/Moves.antt =====
-- A door that opens.
use smart_door_lock_io_t.Common.{
  Bytes, true, List, [], ◌∷◌, codes, some, replicate, pos, ℤ, ◌≡◌, refl,
}
use smart_door_lock_io_t.Types.{authorized, led_unlocked}
use smart_door_lock_io_t.Platform.{EspErr, aes_decrypt}
use smart_door_lock_io_t.Device.{Device, ok}
use smart_door_lock_io_t.Examples.World.{world, home, sender}
use smart_door_lock_io_t.Text.{c_string}
use smart_door_lock_io_t.Users.{get_user_state}
use smart_door_lock_io_t.Session.{session_aes}
use smart_door_lock_io_t.Aes.{decrypt_base64_aes}
use smart_door_lock_io_t.Args.{get_args, get_command}
use smart_door_lock_io_t.Access.{verify_timestamps_and_nonce, can_use_lock}
use smart_door_lock_io_t.Handler.Unlock.{IsGranted}
use smart_door_lock_io_t.Tcp.{retransmit_once}
use smart_door_lock_io_t.Tcp.Opens.{retransmit_once-opens}

abbrev number : EspErr → ℤ
number e = pos 1

-- The command in base64, with its padding, and the IV.
abbrev message : Bytes
message = codes "UlVEIDkwMCAxMTAwIDQyAQ== BwcHBwcHBwcHBwcHBwcHBw=="

abbrev cmd : Bytes
cmd = codes "RUD 900 1100 42"

abbrev words : List Bytes
words = codes "900" ∷ codes "1100" ∷ codes "42" ∷ []

abbrev decrypted : Device
decrypted = record home { trace = aes_decrypt ∷ [] }

authorized_session : get_user_state world sender home ≡ (ok authorized, home)
unfolding get_user_state smart_door_lock_io_t.Device.◌>>=◌ smart_door_lock_io_t.Users.get_user
    smart_door_lock_io_t.Users.get_user_info smart_door_lock_io_t.Users.find_user
    smart_door_lock_io_t.Users.key
authorized_session = refl

has_key : session_aes world sender home ≡ (ok (replicate 32 1), home)
unfolding session_aes smart_door_lock_io_t.Device.◌>>=◌ smart_door_lock_io_t.Users.get_user
    smart_door_lock_io_t.Users.get_user_info smart_door_lock_io_t.Users.find_user
    smart_door_lock_io_t.Users.key smart_door_lock_io_t.Users.get_user_aes_ctx
has_key = refl

is_command : decrypt_base64_aes world (replicate 32 1) (c_string message) home ≡ (ok cmd, decrypted)
unfolding decrypt_base64_aes c_string smart_door_lock_io_t.Device.◌>>=◌
    smart_door_lock_io_t.Text.tokens smart_door_lock_io_t.Text.tokens_from
    smart_door_lock_io_t.Base64.base64_decode smart_door_lock_io_t.Base64.base64_gen_decode
    smart_door_lock_io_t.Base64.count_valid smart_door_lock_io_t.Base64.decode_walk
    smart_door_lock_io_t.Base64.close_block smart_door_lock_io_t.Base64.dtable
    smart_door_lock_io_t.Base64.index_from smart_door_lock_io_t.Aes.decrypt_aes
    smart_door_lock_io_t.Aes.lift smart_door_lock_io_t.Pkcs7.remove_padding
is_command = refl

command_word : get_command cmd ≡ some (codes "RUD")
unfolding get_command smart_door_lock_io_t.Text.tokens smart_door_lock_io_t.Text.tokens_from
command_word = refl

has_words : get_args world cmd 3 decrypted ≡ (ok (some words), decrypted)
unfolding get_args smart_door_lock_io_t.Text.tokens smart_door_lock_io_t.Text.tokens_from
    smart_door_lock_io_t.Device.pure
has_words = refl

abbrev verified : Device
verified = (verify_timestamps_and_nonce world words 0 decrypted).1

fresh_words : verify_timestamps_and_nonce world words 0 decrypted ≡ (ok true, verified)
unfolding verify_timestamps_and_nonce smart_door_lock_io_t.Device.◌>>=◌
    smart_door_lock_io_t.Access.arg smart_door_lock_io_t.Time.get_now_timestamp
    smart_door_lock_io_t.Time.read_clock smart_door_lock_io_t.Time.is_time_valid
    smart_door_lock_io_t.Text.strtol smart_door_lock_io_t.Nonces.check_nonce
    smart_door_lock_io_t.Access.record_nonce smart_door_lock_io_t.Nonces.check_nonce_at
    smart_door_lock_io_t.Nonces.add_nonce
fresh_words = refl

sender_may_use :
    can_use_lock world sender verified ≡ (ok true, (can_use_lock world sender verified).1)
unfolding can_use_lock verify_timestamps_and_nonce smart_door_lock_io_t.Device.◌>>=◌
    smart_door_lock_io_t.Access.arg smart_door_lock_io_t.Time.get_now_timestamp
    smart_door_lock_io_t.Time.read_clock smart_door_lock_io_t.Time.is_time_valid
    smart_door_lock_io_t.Text.strtol smart_door_lock_io_t.Nonces.check_nonce
    smart_door_lock_io_t.Access.record_nonce smart_door_lock_io_t.Nonces.check_nonce_at
    smart_door_lock_io_t.Nonces.add_nonce smart_door_lock_io_t.Access.may_use
    smart_door_lock_io_t.Access.session_authorization smart_door_lock_io_t.Nvs.init_nvs
    smart_door_lock_io_t.Nvs.open_nvs smart_door_lock_io_t.Nvs.get_authorization
    smart_door_lock_io_t.Nvs.read_authorization smart_door_lock_io_t.Nvs.contents
    smart_door_lock_io_t.Users.get_user_state smart_door_lock_io_t.Users.get_phone_id
    smart_door_lock_io_t.Users.get_user smart_door_lock_io_t.Users.get_user_info
    smart_door_lock_io_t.Users.find_user smart_door_lock_io_t.Users.key
sender_may_use = refl

granted : IsGranted world cmd sender decrypted
granted = record {
  args = words;
  parsed = decrypted;
  verified = verified;
  allowed = (can_use_lock world sender verified).1;
  has_words = has_words;
  is_fresh = fresh_words;
  can_use = sender_may_use;
}

retransmit_once-opens_example :
    (retransmit_once world number 400 message home).1.led_status ≡ led_unlocked
retransmit_once-opens_example =
    retransmit_once-opens world number 400 message (replicate 32 1) cmd home home home decrypted
      (λ t. refl) authorized_session has_key is_command command_word granted
