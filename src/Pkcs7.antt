-- ===== src/Pkcs7.antt =====
-- main/utils/PKCS7.c. `malloc` is taken to succeed for a length that is positive; malloc(0) may return
-- NULL, which the platform decides.
pub mod Padding
use smart_door_lock_io_t.Common.{
  ℕ, ◌+◌, ◌-◌, ◌%◌, Bytes, Bool, ◌||◌, ◌&&◌, Option, none, some, List, [], ◌∷◌, ◌++◌, length, take,
  replicate, ltb, ◌==◌, if◌then◌else◌,
}
use smart_door_lock_io_t.Device.{Result, ok, fault, aborted, out_of_bounds}

-- PKCS7_Padding
pub record Padded : Type 0 where
  pub data_with_padding : Bytes
  pub data_length_with_padding : ℕ
  pub value_of_byte_for_padding : ℕ

-- PKCS7_unPadding
pub record Unpadded : Type 0 where
  pub data_without_padding : Bytes
  pub data_length_without_padding : ℕ
  pub value_of_removed_byte : ℕ

-- BLOCK_SIZE is a uint8_t; with 0 the process exits.
unfoldable pub add_padding : Bytes → ℕ → Result Padded
add_padding bytes block_size =
    let amount = (block_size - length bytes % block_size) % 256 in
    if block_size == 0
    then fault aborted
    else ok (record {
      data_with_padding = bytes ++ replicate amount amount;
      data_length_with_padding = length bytes + amount;
      value_of_byte_for_padding = amount;
    })

abbrev pub last_byte : Bytes → Option ℕ
last_byte [] = none
last_byte (b ∷ []) = some b
last_byte (b ∷ c ∷ rest) = last_byte (c ∷ rest)

remove_amount : Bool → Bytes → Option ℕ → Result Unpadded
remove_amount malloc_zero_is_null bytes none = fault out_of_bounds
remove_amount malloc_zero_is_null bytes (some amount) =
    if ltb (length bytes) amount || (length bytes - amount == 0 && malloc_zero_is_null)
    then fault aborted
    else ok (record {
      data_without_padding = take (length bytes - amount) bytes;
      data_length_without_padding = length bytes - amount;
      value_of_removed_byte = amount;
    })

-- The last byte is the amount, and the bytes that are removed are not looked at. A length that would
-- be negative wraps to one that `malloc` refuses, and the process exits; so it does where nothing is left
-- and malloc(0) returns NULL.
unfoldable pub remove_padding : Bool → Bytes → Result Unpadded
unfolding remove_amount
remove_padding malloc_zero_is_null bytes = remove_amount malloc_zero_is_null bytes (last_byte bytes)
