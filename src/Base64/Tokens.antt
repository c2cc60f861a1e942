-- ===== src/Base64/Tokens.antt =====
-- What strtok sees of an encoding.

use smart_door_lock_io_t.Common.{
  ◌+◌, ◌*◌, ◌/◌, ◌%◌, Bytes, true, false, [], ◌∷◌, ◌≡◌, ◌≢◌, refl, ◌==◌, All, arith,
}
use smart_door_lock_io_t.Base64.{encode_blocks}
use smart_door_lock_io_t.Base64.Chars.{IsAlphabet}

-- An encoding is one token: it holds no space.
module _ (table : Bytes) (alphabet : IsAlphabet table) where
  pub encode_blocks-in_word :
      (src : Bytes) → All (λ c. (c == b' ') ≡ false) (encode_blocks table true src)
  unfolding encode_blocks
  encode_blocks-in_word [] = tt
  encode_blocks-in_word (a ∷ []) = (
    alphabet.not_space (a / 4 % 64) (omega arith),
    (alphabet.not_space (a % 4 * 16 % 64) (omega arith), (refl, (refl, tt))),
  )
  encode_blocks-in_word (a ∷ b ∷ []) = (
    alphabet.not_space (a / 4 % 64) (omega arith),
    (
      alphabet.not_space ((a % 4 * 16 + b / 16) % 64) (omega arith),
      (alphabet.not_space (b % 16 * 4 % 64) (omega arith), (refl, tt)),
    ),
  )
  encode_blocks-in_word (a ∷ b ∷ c ∷ rest) = (
    alphabet.not_space (a / 4 % 64) (omega arith),
    (
      alphabet.not_space ((a % 4 * 16 + b / 16) % 64) (omega arith),
      (
        alphabet.not_space ((b % 16 * 4 + c / 64) % 64) (omega arith),
        (alphabet.not_space (c % 64) (omega arith), encode_blocks-in_word rest),
      ),
    ),
  )

  pub encode_blocks-ne-nil : (src : Bytes) → src ≢ [] → encode_blocks table true src ≢ []
  unfolding encode_blocks
  encode_blocks-ne-nil [] h e = h refl
  encode_blocks-ne-nil (a ∷ []) h e = cc
  encode_blocks-ne-nil (a ∷ b ∷ []) h e = cc
  encode_blocks-ne-nil (a ∷ b ∷ c ∷ rest) h e = cc
