-- ===== src/Aes/Session.antt =====
-- A message that the lock encrypts is the message that decryption gives.
use smart_door_lock_io_t.Common.{
  ℕ, zero, suc, ◌-◌, ◌%◌, ◌^◌, ◌<◌, Bytes, true, false, [], ◌∷◌, ◌++◌, some, ◌≡◌, ◌≢◌, refl, ap,
  ◌∙◌, length, replicate, if◌then◌else◌, Bool-cases, inl, inr, ◌==◌, All, arith,
}
use smart_door_lock_io_t.Platform.{Env, Trace}
use smart_door_lock_io_t.Device.{Device, ok, fault, aborted, ◌>>=◌, require}
use smart_door_lock_io_t.Text.{c_string}
use smart_door_lock_io_t.Text.Words.{IsWord, tokens_word, tokens_last}
use smart_door_lock_io_t.Base64.{base64_table, base64_decode, encode_blocks}
use smart_door_lock_io_t.Base64.Chars.{base64_table-IsAlphabet}
use smart_door_lock_io_t.Base64.Walk.{IsByte}
use smart_door_lock_io_t.Base64.RoundTrip.{base64_encode_lem, base64_decode_lem}
use smart_door_lock_io_t.Base64.Tokens.{encode_blocks-in_word, encode_blocks-ne-nil}
use smart_door_lock_io_t.Pkcs7.Padding.{
  amount_of, finds_no_memory, add_padding_lem, remove_padding-add_padding, add_padding-IsPadded,
}
use smart_door_lock_io_t.Aes.{encrypt_str_aes, decrypt_base64_aes}

-- What the platform promises of AES in CBC mode and of its random source: decryption undoes
-- encryption on whole blocks of bytes, the cipher keeps the length, and both give bytes.
pub record IsCipher (env : Env) : Type 0 where
  pub inverse :
      (ctx iv data' : Bytes)
      → length data' % 16 ≡ 0
      → All IsByte data'
      → env.aes_cbc_decrypt ctx iv (env.aes_cbc_encrypt ctx iv data') ≡ data'
  pub same_length :
      (ctx iv data' : Bytes) → length (env.aes_cbc_encrypt ctx iv data') ≡ length data'
  pub cipher_bytes :
      (ctx iv data' : Bytes) → All IsByte data' → All IsByte (env.aes_cbc_encrypt ctx iv data')
  pub random_length : (t : Trace) (n : ℕ) → length (env.random_bytes t n) ≡ n
  pub random_are_bytes : (t : Trace) (n : ℕ) → All IsByte (env.random_bytes t n)

All-append : (xs ys : Bytes) → All IsByte xs → All IsByte ys → All IsByte (xs ++ ys)
All-append [] ys hx hy = hy
All-append (x ∷ xs) ys hx hy = (hx.0, All-append xs ys hx.1 hy)

All-replicate : (n b : ℕ) → IsByte b → All IsByte (replicate n b)
All-replicate zero b h = tt
All-replicate (suc n) b h = (h, All-replicate n b h)

c_string_id : (s : Bytes) → All (λ c. (c == 0) ≡ false) s → c_string s ≡ s
unfolding c_string
c_string_id [] h = refl
c_string_id (c ∷ s) h = rw h.0 (ap (λ l. c ∷ l) (c_string_id s h.1))

ne-nil_of_length : (s : Bytes) → 0 < length s → s ≢ []
ne-nil_of_length [] h e = absurd (omega arith)
ne-nil_of_length (c ∷ s) h e = cc

enc : Bytes → Bytes
enc src = encode_blocks base64_table true src

enc-IsWord : (src : Bytes) → src ≢ [] → IsWord (enc src)
unfolding enc
enc-IsWord src h = (
  encode_blocks-ne-nil base64_table base64_table-IsAlphabet src h,
  encode_blocks-in_word base64_table base64_table-IsAlphabet src,
)

module _ (env : Env) (spec : IsCipher env) (ctx text : Bytes) (short : length text < 2 ^ 30 - 17)
    (text_bytes : All IsByte text) (t : Trace) where
  abbrev iv : Bytes
  iv = env.random_bytes t 16

  abbrev amount : ℕ
  amount = amount_of text 16

  abbrev padded : Bytes
  padded = text ++ replicate amount amount

  abbrev cipher : Bytes
  cipher = env.aes_cbc_encrypt ctx iv padded

  padded_facts : (length padded % 16 ≡ 0) × (0 < length padded) × (length padded < 2 ^ 30 - 1)
  padded_facts =
      let facts =
        rw (add_padding_lem text 16 (omega arith)) at
          (add_padding-IsPadded text 16 (omega arith) (omega arith)) in
      let same = facts.3 in (rw same facts.0, omega arith, omega arith)

  padded_bytes : All IsByte padded
  padded_bytes =
      All-append text (replicate amount amount) text_bytes
        (All-replicate amount amount (grind arith))

  iv-ne-nil : iv ≢ []
  iv-ne-nil = ne-nil_of_length iv (omega (arith, spec.random_length t 16))

  iv_short : length iv < 2 ^ 30 - 1
  iv_short = omega (arith, spec.random_length t 16)

  cipher-ne-nil : cipher ≢ []
  cipher-ne-nil =
      ne-nil_of_length cipher (omega (arith, spec.same_length ctx iv padded, padded_facts))

  cipher_short : length cipher < 2 ^ 30 - 1
  cipher_short = omega (arith, spec.same_length ctx iv padded, padded_facts)

  encrypt_lem :
      (d : Device)
      → d.trace ≡ t
      → (encrypt_str_aes env ctx text d).0 ≡ ok (enc cipher ++ b' ' ∷ enc iv)
  unfolding encrypt_str_aes ◌>>=◌ enc
  encrypt_lem d e =
      rw (e, add_padding_lem text 16 (omega arith))
        (rw (base64_encode_lem cipher cipher-ne-nil cipher_short)
          (rw (base64_encode_lem iv iv-ne-nil iv_short) refl))

  decrypt_lem :
      (d : Device)
      → All (λ c. (c == 0) ≡ false) text
      → (decrypt_base64_aes env ctx (enc cipher ++ b' ' ∷ enc iv) d).0
        ≡ (if finds_no_memory env.malloc_zero_is_null text then fault aborted else ok text)
  unfolding decrypt_base64_aes ◌>>=◌
  decrypt_lem d no_nul =
      let words =
        tokens_word (enc cipher) (enc iv) (enc-IsWord cipher cipher-ne-nil)
        ∙ ap (λ l. enc cipher ∷ l) (tokens_last (enc iv) (enc-IsWord iv iv-ne-nil)) in
      let removed =
        rw (add_padding_lem text 16 (omega arith)) at (
          remove_padding-add_padding env.malloc_zero_is_null text 16 (omega arith) (omega arith)) in
      let iv_read = decode iv iv-ne-nil iv_short (spec.random_are_bytes t 16) in
      let cipher_read =
        decode cipher cipher-ne-nil cipher_short (spec.cipher_bytes ctx iv padded padded_bytes) in
      let inverse = spec.inverse ctx iv padded padded_facts.0 padded_bytes in
      elim (Bool-cases (finds_no_memory env.malloc_zero_is_null text)) [
        | inl is ↦
            rw (words, require)
              (rw (iv_read, require) (rw (cipher_read, require) (rw (inverse, removed, is) refl)))
        | inr is ↦
            rw (words, require)
              (rw (iv_read, require)
                (rw (cipher_read, require)
                  (rw (inverse, removed, is, c_string_id text no_nul) refl)))
      ]
    where
      decode :
          (src : Bytes)
          → src ≢ []
          → length src < 2 ^ 30 - 1
          → All IsByte src
          → base64_decode (enc src) ≡ some src
      decode src some_byte small bytes = unfold enc in base64_decode_lem src some_byte small bytes

-- Decrypting what `encrypt_str_AES` returns gives the text, under the same key, for every C string
-- of bytes that is shorter than the bounds of base64; but for the empty text the process exits where
-- malloc(0) returns NULL.
pub decrypt-encrypt_str_aes :
    (env : Env) (ctx text : Bytes) (d e : Device)
    → IsCipher env
    → length text < 2 ^ 30 - 17
    → All IsByte text
    → All (λ c. (c == 0) ≡ false) text
    → (message : Bytes) × ((encrypt_str_aes env ctx text d).0 ≡ ok message)
      × ((decrypt_base64_aes env ctx message e).0
          ≡ (if finds_no_memory env.malloc_zero_is_null text then fault aborted else ok text))
decrypt-encrypt_str_aes env ctx text d e spec short bytes no_nul = (
  _,
  encrypt_lem env spec ctx text short bytes d.trace d refl,
  decrypt_lem env spec ctx text short bytes d.trace e no_nul,
)
