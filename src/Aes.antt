-- ===== src/Aes.antt =====
-- main/utils/aes_util.c. A context is its key; the cipher is the platform's `esp_aes_crypt_cbc`.
-- The encrypted text is its base64, a space, and the base64 of the IV. `encrypt_str_AES` writes one
-- byte, the terminator, behind the buffer that it allocates; that write is not modelled.
pub mod Session
use smart_door_lock_io_t.Common.{
  ℕ, ◌+◌, Bytes, Option, none, some, List, [], ◌∷◌, ◌++◌, ◌==◌, length, if◌then◌else◌,
}
use smart_door_lock_io_t.Platform.{Env, fill_random, aes_encrypt, aes_decrypt}
use smart_door_lock_io_t.Device.{
  Exec, Result, null_pointer, uninitialised, pure, raise, require, call, emit, ◌>>=◌, ◌>>◌,
}
use smart_door_lock_io_t.Text.{c_string, tokens}
use smart_door_lock_io_t.Base64.{base64_encode, base64_decode}
use smart_door_lock_io_t.Pkcs7.{Padded, Unpadded, add_padding, remove_padding}

abbrev pub padding_block_size : ℕ
padding_block_size = 16

abbrev pub iv_size : ℕ
iv_size = 16

-- AES_Encrypted
pub record Encrypted : Type 0 where
  pub ciphertext : Bytes
  pub iv : Bytes

-- A pure function that may stop the firmware.
unfoldable pub lift {ℓ} : {A : Type ℓ} → Result A → Exec A
lift r d = (r, d)

-- The two words of the message, if it has them.
abbrev pub first_two : List Bytes → Option (Bytes × Bytes)
first_two [] = none
first_two (a ∷ []) = none
first_two (a ∷ b ∷ rest) = some (a, b)

module _ (env : Env) where
  unfoldable pub get_random_iv : Exec Bytes
  get_random_iv = call (fill_random iv_size) (λ t. env.random_bytes t iv_size)

  unfoldable pub encrypt_aes : Bytes → Bytes → Exec Encrypted
  unfolding lift get_random_iv
  encrypt_aes ctx plaintext = do
    padded ← lift (add_padding plaintext padding_block_size)
    iv ← get_random_iv
    ciphertext ← call aes_encrypt (λ _. env.aes_cbc_encrypt ctx iv padded.data_with_padding)
    pure (record { ciphertext = ciphertext; iv = iv })

  unfoldable pub decrypt_aes : Bytes → Bytes → Bytes → Exec Bytes
  unfolding lift
  decrypt_aes ctx ciphertext iv = do
    decrypted ← call aes_decrypt (λ _. env.aes_cbc_decrypt ctx iv ciphertext)
    unpadded ← lift (remove_padding env.malloc_zero_is_null decrypted)
    pure unpadded.data_without_padding

  unfoldable pub encrypt_str_aes : Bytes → Bytes → Exec Bytes
  unfolding encrypt_aes
  encrypt_str_aes ctx plaintext = do
    encrypted ← encrypt_aes ctx plaintext
    encrypted_base64 ← require null_pointer (base64_encode encrypted.ciphertext)
    iv_base64 ← require null_pointer (base64_encode encrypted.iv)
    pure (encrypted_base64 ++ b' ' ∷ iv_base64)

  -- A missing word, or one that decodes to NULL, is read through.
  unfoldable pub decrypt_base64_aes : Bytes → Bytes → Exec Bytes
  unfolding decrypt_aes
  decrypt_base64_aes ctx message = do
    (ciphertext_base64, iv_text) ← require null_pointer (first_two (tokens message))
    iv ← require null_pointer (base64_decode iv_text)
    ciphertext ← require null_pointer (base64_decode ciphertext_base64)
    decrypted ← decrypt_aes ctx ciphertext iv
    pure (c_string decrypted)
