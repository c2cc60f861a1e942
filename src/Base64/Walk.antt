-- ===== src/Base64/Walk.antt =====
-- The decoder on the blocks that the encoder writes, for any alphabet.
use smart_door_lock_io_t.Common.{
  ℕ, ◌+◌, ◌-◌, ◌*◌, ◌/◌, ◌%◌, ◌<◌, Bytes, Bool, true, false, some, [], ◌∷◌, ◌++◌, ◌≡◌, ◌≢◌, refl,
  ap, ◌∙◌, replicate, ◌==◌, All, arith,
}
use smart_door_lock_io_t.Base64.{
  table_at, encode_blocks, dtable, count_valid, empty, close_block, decode_walk, base64_gen_decode,
}
use smart_door_lock_io_t.Base64.Chars.{IsAlphabet}

abbrev pub IsByte : ℕ → Type 0
IsByte b = b < 256

small : (i : ℕ) → i < 64 → (i == 0x80) ≡ false
small i lt = ground arith

pad_value : (table : Bytes) → dtable table b'=' ≡ 0
unfolding dtable
pad_value table = refl

module _ (table : Bytes) (alphabet : IsAlphabet table) where
  abbrev char : ℕ → ℕ
  char i = table_at table i

  block_of_four :
      (i j k l : ℕ) (s : Bytes)
      → i < 64
      → j < 64
      → k < 64
      → l < 64
      → decode_walk table empty 0 (char i ∷ char j ∷ char k ∷ char l ∷ s)
        ≡ close_block i j k l 0 (decode_walk table empty 0 s)
  unfolding decode_walk
  block_of_four i j k l s hi hj hk hl =
      rw (alphabet.dtable-table_at i hi, alphabet.not_pad i hi, small i hi)
        (rw (alphabet.dtable-table_at j hj, alphabet.not_pad j hj, small j hj)
          (rw (alphabet.dtable-table_at k hk, alphabet.not_pad k hk, small k hk)
            (rw (alphabet.dtable-table_at l hl, alphabet.not_pad l hl, small l hl) refl)))

  last_two :
      (i j k : ℕ)
      → i < 64
      → j < 64
      → k < 64
      → decode_walk table empty 0 (char i ∷ char j ∷ char k ∷ b'=' ∷ [])
        ≡ close_block i j k 0 1 (some [])
  unfolding decode_walk
  last_two i j k hi hj hk =
      rw (alphabet.dtable-table_at i hi, alphabet.not_pad i hi, small i hi)
        (rw (alphabet.dtable-table_at j hj, alphabet.not_pad j hj, small j hj)
          (rw (alphabet.dtable-table_at k hk, alphabet.not_pad k hk, small k hk)
            (rw (pad_value table) refl)))

  last_one :
      (i j : ℕ)
      → i < 64
      → j < 64
      → decode_walk table empty 0 (char i ∷ char j ∷ b'=' ∷ b'=' ∷ [])
        ≡ close_block i j 0 0 2 (some [])
  unfolding decode_walk
  last_one i j hi hj =
      rw (alphabet.dtable-table_at i hi, alphabet.not_pad i hi, small i hi)
        (rw (alphabet.dtable-table_at j hj, alphabet.not_pad j hj, small j hj)
          (rw (pad_value table) refl))

  bytes_back :
      (a b c : ℕ) (rest : Bytes)
      → a < 256
      → b < 256
      → c < 256
      → close_block
          (a / 4 % 64)
          ((a % 4 * 16 + b / 16) % 64)
          ((b % 16 * 4 + c / 64) % 64)
          (c % 64)
          0
          (some rest)
        ≡ some (a ∷ b ∷ c ∷ rest)
  unfolding close_block
  bytes_back a b c rest ha hb hc = ground arith

  -- The walk over a padded encoding gives the bytes back.
  walk-encode :
      (src : Bytes)
      → All IsByte src
      → decode_walk table empty 0 (encode_blocks table true src) ≡ some src
  unfolding encode_blocks
  walk-encode [] h = unfold decode_walk in refl
  walk-encode (a ∷ []) h =
      last_one (a / 4 % 64) (a % 4 * 16 % 64) (omega arith) (omega arith)
      ∙ (unfold close_block in ground arith)
  walk-encode (a ∷ b ∷ []) h =
      last_two (a / 4 % 64) ((a % 4 * 16 + b / 16) % 64) (b % 16 * 4 % 64) (omega arith)
        (omega arith) (omega arith)
      ∙ (unfold close_block in ground arith)
  walk-encode (a ∷ b ∷ c ∷ rest) h =
      block_of_four (a / 4 % 64) ((a % 4 * 16 + b / 16) % 64) ((b % 16 * 4 + c / 64) % 64) (c % 64)
        (encode_blocks table true rest) (omega arith) (omega arith) (omega arith) (omega arith)
      ∙ rw (walk-encode rest h.1.1.1) (bytes_back a b c rest h.0 h.1.0 h.1.1.0)

  char_valid : (i : ℕ) → i < 64 → (dtable table (char i) == 0x80) ≡ false
  char_valid i lt = rw (alphabet.dtable-table_at i lt) (small i lt)

  four_more : (n : ℕ) → (4 - (n + 1 + 1 + 1 + 1) % 4) % 4 ≡ (4 - n % 4) % 4
  four_more n = omega arith

  -- What the loop adds at the end of an encoding makes it the padded one.
  abbrev missing_pad : ℕ → ℕ
  missing_pad count = (4 - count % 4) % 4

  encode-padded :
      (add_pad : Bool) (src : Bytes)
      → encode_blocks table add_pad src
          ++ replicate (missing_pad (count_valid table (encode_blocks table add_pad src))) b'='
        ≡ encode_blocks table true src
  unfolding encode_blocks count_valid
  encode-padded add_pad [] = refl
  encode-padded false (a ∷ []) =
      rw (char_valid (a / 4 % 64) (omega arith), char_valid (a % 4 * 16 % 64) (omega arith)) refl
  encode-padded true (a ∷ []) =
      rw
        (
          char_valid (a / 4 % 64) (omega arith),
          char_valid (a % 4 * 16 % 64) (omega arith),
          pad_value table,
        )
        refl
  encode-padded false (a ∷ b ∷ []) =
      rw
        (
          char_valid (a / 4 % 64) (omega arith),
          char_valid ((a % 4 * 16 + b / 16) % 64) (omega arith),
          char_valid (b % 16 * 4 % 64) (omega arith),
        )
        refl
  encode-padded true (a ∷ b ∷ []) =
      rw
        (
          char_valid (a / 4 % 64) (omega arith),
          char_valid ((a % 4 * 16 + b / 16) % 64) (omega arith),
          char_valid (b % 16 * 4 % 64) (omega arith),
          pad_value table,
        )
        refl
  encode-padded add_pad (a ∷ b ∷ c ∷ rest) =
      rw
        (
          char_valid (a / 4 % 64) (omega arith),
          char_valid ((a % 4 * 16 + b / 16) % 64) (omega arith),
          char_valid ((b % 16 * 4 + c / 64) % 64) (omega arith),
          char_valid (c % 64) (omega arith),
          four_more (count_valid table (encode_blocks table add_pad rest)),
        )
        (ap
          (λ l.
            table_at table (a / 4 % 64)
            ∷ table_at table ((a % 4 * 16 + b / 16) % 64)
            ∷ table_at table ((b % 16 * 4 + c / 64) % 64)
            ∷ table_at table (c % 64)
            ∷ l)
          (encode-padded add_pad rest))

  valid-counts :
      (c : ℕ) (s : Bytes)
      → (dtable table c == 0x80) ≡ false
      → (count_valid table (c ∷ s) == 0) ≡ false
  unfolding count_valid
  valid-counts c s h = rw h (ground arith)

  encode-counts :
      (add_pad : Bool) (a : ℕ) (src : Bytes)
      → (count_valid table (encode_blocks table add_pad (a ∷ src)) == 0) ≡ false
  unfolding encode_blocks
  encode-counts add_pad a [] = valid-counts _ _ (char_valid (a / 4 % 64) (omega arith))
  encode-counts add_pad a (b ∷ []) = valid-counts _ _ (char_valid (a / 4 % 64) (omega arith))
  encode-counts add_pad a (b ∷ c ∷ rest) = valid-counts _ _ (char_valid (a / 4 % 64) (omega arith))

  -- A text that is not empty is decoded to the bytes that were encoded, padded or not.
  pub decode-encode_blocks :
      (add_pad : Bool) (src : Bytes)
      → src ≢ []
      → All IsByte src
      → base64_gen_decode table (encode_blocks table add_pad src) ≡ some src
  unfolding base64_gen_decode
  decode-encode_blocks add_pad [] some_byte h = absurd (some_byte refl)
  decode-encode_blocks add_pad (a ∷ src) some_byte h =
      rw (encode-counts add_pad a src)
        (ap (decode_walk table empty 0) (encode-padded add_pad (a ∷ src)) ∙ walk-encode (a ∷ src) h)
