-- ===== src/Base64/RoundTrip.antt =====
-- Decoding what was encoded, for both alphabets, with and without the pad.
use smart_door_lock_io_t.Common.{
  ℕ, ◌-◌, ◌/◌, ◌^◌, ◌<◌, Bytes, true, false, Option, none, some, [], ◌≡◌, ◌≢◌, refl, length, leb,
  All, arith,
}
use smart_door_lock_io_t.Base64.{
  base64_table, base64_url_table, encode_blocks, base64_encode, base64_decode, base64_url_encode,
  base64_url_decode,
}
use smart_door_lock_io_t.Base64.Chars.{base64_table-IsAlphabet, base64_url_table-IsAlphabet}
use smart_door_lock_io_t.Base64.Walk.{IsByte, decode-encode_blocks}

abbrev pub bind_decode : (Bytes → Option Bytes) → Option Bytes → Option Bytes
bind_decode decode none = none
bind_decode decode (some text) = decode text

in_range : (n : ℕ) → n < 2 ^ 30 - 1 → leb ((2 ^ 32 - 1) / 4) n ≡ false
in_range n h = ground arith

base64_decode-base64_encode :
    (src : Bytes)
    → src ≢ []
    → length src < 2 ^ 30 - 1
    → All IsByte src
    → bind_decode base64_decode (base64_encode src) ≡ some src
unfolding base64_encode base64_decode
base64_decode-base64_encode src some_byte short h =
    rw (in_range (length src) short)
      (decode-encode_blocks base64_table base64_table-IsAlphabet true src some_byte h)

base64_url_decode-base64_url_encode :
    (src : Bytes)
    → src ≢ []
    → length src < 2 ^ 30 - 1
    → All IsByte src
    → bind_decode base64_url_decode (base64_url_encode src) ≡ some src
unfolding base64_url_encode base64_url_decode
base64_url_decode-base64_url_encode src some_byte short h =
    rw (in_range (length src) short)
      (decode-encode_blocks base64_url_table base64_url_table-IsAlphabet false src some_byte h)

-- `base64_encode` and `base64_url_encode`, which writes no pad, give a text, and `base64_decode` and
-- `base64_url_decode` give its bytes back, for every sequence of bytes that is not empty and is
-- shorter than SIZE_MAX / 4.
pub decode-encode :
    (src : Bytes)
    → src ≢ []
    → length src < 2 ^ 30 - 1
    → All IsByte src
    → (bind_decode base64_decode (base64_encode src) ≡ some src)
      × (bind_decode base64_url_decode (base64_url_encode src) ≡ some src)
decode-encode src some_byte short h = (
  base64_decode-base64_encode src some_byte short h,
  base64_url_decode-base64_url_encode src some_byte short h,
)

module _ (src : Bytes) (some_byte : src ≢ []) (short : length src < 2 ^ 30 - 1) where
  pub base64_encode_lem : base64_encode src ≡ some (encode_blocks base64_table true src)
  unfolding base64_encode
  base64_encode_lem = rw (in_range (length src) short) refl

  pub base64_decode_lem :
      All IsByte src → base64_decode (encode_blocks base64_table true src) ≡ some src
  unfolding base64_decode
  base64_decode_lem h =
      decode-encode_blocks base64_table base64_table-IsAlphabet true src some_byte h
