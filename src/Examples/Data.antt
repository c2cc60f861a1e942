-- ===== src/Examples/Data.antt =====
-- The theorems on data at work: nonces, base64, padding, numbers and words.
use smart_door_lock_io_t.Common.{
  none, false, if◌then◌else◌, ◌++◌, ℕ, ◌<◌, pos, negsuc, ◌≤ℤ◌, Bytes, true, not, List, [], ◌∷◌,
  some, codes, ◌≡◌, ◌≢◌, ◌↔◌, refl, inl, inr, In, All, arith,
}
use mathlib.Core.List.{Perm}
use smart_door_lock_io_t.Types.{Nonce}
use smart_door_lock_io_t.Device.{ok, fault, aborted}
use smart_door_lock_io_t.Types.{tenant, Authorization}
use smart_door_lock_io_t.Access.{may_invite}
use smart_door_lock_io_t.InviteCommands.{Terms, terms_of_args}
use smart_door_lock_io_t.InviteCommands.Tenants.{tenant_may_not_invite}
use smart_door_lock_io_t.BleS3.{send_data_ble_s3}
use smart_door_lock_io_t.BleS3.Fragments.{sent, FramesFit, send_data_ble_s3-sent}
use smart_door_lock_io_t.Examples.World.{world, home, owner_authorization}
use smart_door_lock_io_t.Nonces.{add_nonce_sorted, check_nonce_at}
use smart_door_lock_io_t.Nonces.Insert.{
  IsSorted, add_nonce_sorted-perm, add_nonce_sorted-IsSorted-iff,
}
use smart_door_lock_io_t.Nonces.Replay.{used_before_last, check_nonce_at_iff, check_nonce_at-keeps}
use smart_door_lock_io_t.Nonces.Gap.{replay_accepted}
use smart_door_lock_io_t.Base64.{base64_encode, base64_decode, base64_url_encode, base64_url_decode}
use smart_door_lock_io_t.Base64.RoundTrip.{bind_decode, decode-encode}
use smart_door_lock_io_t.Pkcs7.{add_padding}
use smart_door_lock_io_t.Pkcs7.Padding.{
  bind_removal, finds_no_memory, unpadded, IsPadded, remove_padding-add_padding,
  add_padding-IsPadded,
}
use smart_door_lock_io_t.Text.{strtol, show_u, show_d, tokens}
use smart_door_lock_io_t.Text.Decimal.{strtol-show_u, strtol-show_d}
use smart_door_lock_io_t.Text.Words.{tokens_word}

abbrev node : ℕ → ℕ → Nonce
node n t = record { nonce = pos n; expires = pos t }

ne-nil : (c : ℕ) (s : Bytes) → c ∷ s ≢ []
ne-nil c s = λ h. ground arith

other_nonce : (m n : ℕ) → m < n → pos m ≢ pos n
other_nonce m n less = λ h. ground arith

abbrev two_nodes : List Nonce
two_nodes = node 1 100 ∷ node 2 200 ∷ []

two_nodes-IsSorted : IsSorted two_nodes
two_nodes-IsSorted = ((omega arith, tt), (tt, tt))

check_nonce_at_iff_example :
    (check_nonce_at (pos 1) (pos 50) two_nodes).0 ≡ not (used_before_last (pos 1) two_nodes)
check_nonce_at_iff_example = check_nonce_at_iff (pos 1) (pos 50) (node 1 100) (node 2 200) []

check_nonce_at-keeps_example : In (node 2 200) (check_nonce_at (pos 7) (pos 150) two_nodes).1
check_nonce_at-keeps_example =
    check_nonce_at-keeps (pos 7) (pos 150) two_nodes (node 2 200) two_nodes-IsSorted (omega arith)
      (inr (inl refl))

add_nonce_sorted-perm_example :
    Perm (add_nonce_sorted (node 3 150) two_nodes) (node 3 150 ∷ two_nodes)
add_nonce_sorted-perm_example = add_nonce_sorted-perm (node 3 150) two_nodes

add_nonce_sorted-IsSorted-iff_example :
    IsSorted (add_nonce_sorted (node 3 150) two_nodes) ↔ All (λ n. n.expires ≤ℤ pos 150) two_nodes
add_nonce_sorted-IsSorted-iff_example =
    add_nonce_sorted-IsSorted-iff (node 3 150) two_nodes two_nodes-IsSorted

replay_accepted_example :
    (check_nonce_at (pos 3) (pos 250) (add_nonce_sorted (node 3 300) two_nodes)).0 ≡ true
replay_accepted_example =
    replay_accepted (pos 3) (pos 300) (pos 250) (node 1 100) (node 2 200 ∷ [])
      (omega arith, (omega arith, tt))
      (other_nonce 1 3 (omega arith), (other_nonce 2 3 (omega arith), tt))

abbrev four : Bytes
four = 255 ∷ 0 ∷ 3 ∷ 17 ∷ []

decode-encode_example :
    (bind_decode base64_decode (base64_encode four) ≡ some four)
    × (bind_decode base64_url_decode (base64_url_encode four) ≡ some four)
decode-encode_example =
    decode-encode four (ne-nil _ _) (omega arith)
      (omega arith, (omega arith, (omega arith, (omega arith, tt))))

remove_padding-add_padding_example :
    bind_removal true (add_padding four 16)
    ≡ (if finds_no_memory true four then fault aborted else ok (unpadded four 12))
remove_padding-add_padding_example =
    remove_padding-add_padding true four 16 (omega arith) (omega arith)

add_padding-IsPadded_example : IsPadded 4 16 (add_padding four 16)
add_padding-IsPadded_example = add_padding-IsPadded four 16 (omega arith) (omega arith)

strtol-show_u_example : strtol (show_u 42) ≡ pos 42
strtol-show_u_example = strtol-show_u 42

strtol-show_d_example : strtol (show_d (negsuc 41)) ≡ negsuc 41
strtol-show_d_example = strtol-show_d (negsuc 41) (omega arith) (omega arith)

tokens_word_example : tokens (codes "RUD 1 2") ≡ codes "RUD" ∷ tokens (codes "1 2")
tokens_word_example =
    tokens_word (codes "RUD") (codes "1 2") (ne-nil _ _, (refl, (refl, (refl, tt))))

abbrev message : Bytes
message = codes "a message that takes two fragments"

send_data_ble_s3-sent_example :
    ((send_data_ble_s3 message home).0 ≡ ok tt)
    × ((sent (send_data_ble_s3 message home).1.trace ≡ message ++ 4 ∷ [])
        × FramesFit 20 (send_data_ble_s3 message home).1.trace)
send_data_ble_s3-sent_example =
    send_data_ble_s3-sent message home refl (omega arith) (omega arith) tt

abbrev tenancy : Authorization
tenancy = record owner_authorization {
  user_type = tenant;
  valid_from_ts = pos 100;
  valid_until_ts = pos 2000;
}

abbrev tenant_words : List Bytes
tenant_words = codes "2" ∷ codes "300" ∷ codes "400" ∷ []

abbrev tenant_terms : Terms
tenant_terms = record {
  kind = tenant;
  valid_from = pos 300;
  valid_until = pos 400;
  weekdays_str = none;
  one_day = negsuc 0;
}

asked_terms : terms_of_args tenant_words tenant home ≡ (ok tenant_terms, home)
unfolding terms_of_args smart_door_lock_io_t.Device.◌>>=◌
    smart_door_lock_io_t.InviteCommands.number_arg smart_door_lock_io_t.Access.arg strtol
asked_terms = refl

tenant_may_not_invite_example :
    may_invite world tenancy tenant (pos 300) (pos 400) (negsuc 0) ≡ false
tenant_may_not_invite_example =
    tenant_may_not_invite world tenancy tenant_words tenant home home tenant_terms refl
      (omega arith) asked_terms
