-- ===== src/Pkcs7/Padding.antt =====
-- Padding to whole blocks, and its removal.
use native.Mathlib.Nat.{div-add-mod', mod-lt, mul-mod_left}
use smart_door_lock_io_t.Common.{
  ℕ, zero, suc, ◌+◌, ◌-◌, ◌*◌, ◌/◌, ◌%◌, ◌≤◌, ◌<◌, Bytes, Bool, ◌&&◌, if◌then◌else◌, false, some,
  [], ◌∷◌, ◌++◌, ◌≡◌, refl, ◌∙◌, ap, length, replicate, length-append, length-replicate,
  take-append, ltb, ◌==◌, arith,
}
use smart_door_lock_io_t.Device.{Result, ok, fault, aborted}
use smart_door_lock_io_t.Pkcs7.{
  Padded, Unpadded, add_padding, last_byte, remove_amount, remove_padding,
}

last_byte-replicate : (n v : ℕ) → last_byte (replicate (suc n) v) ≡ some v
last_byte-replicate zero v = refl
last_byte-replicate (suc n) v = last_byte-replicate n v

last_byte-append : (xs ys : Bytes) (y : ℕ) → last_byte (xs ++ y ∷ ys) ≡ last_byte (y ∷ ys)
last_byte-append [] ys y = refl
last_byte-append (x ∷ []) ys y = refl
last_byte-append (x ∷ z ∷ xs) ys y = last_byte-append (z ∷ xs) ys y

abbrev pub amount_of : Bytes → ℕ → ℕ
amount_of bytes block_size = (block_size - length bytes % block_size) % 256

amount_bounds :
    (bytes : Bytes) (block_size : ℕ)
    → 0 < block_size
    → block_size < 256
    → (0 < amount_of bytes block_size) × (amount_of bytes block_size ≤ block_size)
amount_bounds bytes block_size lo hi = (grind arith, grind arith)

not_zero : (n : ℕ) → 0 < n → (n == 0) ≡ false
not_zero n h = ground arith

-- What the padded data is, and that its length is the data's and a whole number of blocks more.
pub add_padding_lem :
    (bytes : Bytes) (block_size : ℕ)
    → 0 < block_size
    → add_padding bytes block_size
      ≡ ok (record {
        data_with_padding =
            bytes ++ replicate (amount_of bytes block_size) (amount_of bytes block_size);
        data_length_with_padding = length bytes + amount_of bytes block_size;
        value_of_byte_for_padding = amount_of bytes block_size;
      })
unfolding add_padding
add_padding_lem bytes block_size lo = rw (not_zero block_size lo) refl

-- Nothing is left, and malloc(0) returns NULL.
abbrev pub finds_no_memory : Bool → Bytes → Bool
finds_no_memory malloc_zero_is_null bytes = length bytes == 0 && malloc_zero_is_null

-- The data without its padding.
abbrev pub unpadded : Bytes → ℕ → Unpadded
unpadded bytes amount = record {
  data_without_padding = bytes;
  data_length_without_padding = length bytes;
  value_of_removed_byte = amount;
}

removed :
    (null : Bool) (bytes : Bytes) (n : ℕ)
    → 0 < n
    → remove_padding null (bytes ++ replicate n n)
      ≡ (if finds_no_memory null bytes then fault aborted else ok (unpadded bytes n))
unfolding remove_padding
removed null bytes zero h = absurd (omega arith)
removed null bytes (suc n) h =
    let all = bytes ++ replicate (suc n) (suc n) in
    let final : last_byte all ≡ some (suc n) =
      last_byte-append bytes (replicate n (suc n)) (suc n) ∙ last_byte-replicate n (suc n) in
    let size : length all ≡ length bytes + suc n =
      length-append bytes (replicate (suc n) (suc n))
      ∙ ap (λ k. length bytes + k) (length-replicate (suc n) (suc n)) in
    let left : length bytes + suc n - suc n ≡ length bytes = omega arith in
    let enough : ltb (length bytes + suc n) (suc n) ≡ false = ground arith in
    rw (final, remove_amount, size, enough, left)
      (rw (take-append bytes (replicate (suc n) (suc n))) refl)

abbrev pub bind_removal : Bool → Result Padded → Result Unpadded
bind_removal null (ok padded) = remove_padding null padded.data_with_padding
bind_removal null (fault f) = fault f

-- Removing the padding gives the data back, for every block size that the header allows; or, where the
-- data is empty and malloc(0) returns NULL, the process exits.
pub remove_padding-add_padding :
    (null : Bool) (bytes : Bytes) (block_size : ℕ)
    → 0 < block_size
    → block_size < 256
    → bind_removal null (add_padding bytes block_size) ≡ (
        if finds_no_memory null bytes
        then fault aborted
        else ok (unpadded bytes (amount_of bytes block_size)))
remove_padding-add_padding null bytes block_size lo hi =
    rw (add_padding_lem bytes block_size lo)
      (removed null bytes (amount_of bytes block_size) (amount_bounds bytes block_size lo hi).0)

whole : (n b : ℕ) → 0 < b → b < 256 → (n + (b - n % b) % 256) % b ≡ 0
whole n b lo hi =
    let small : (b - n % b) % 256 ≡ b - n % b = grind arith in
    let split : n + (b - n % b) ≡ (n / b + 1) * b = grind (arith, div-add-mod' n b, mod-lt n lo) in
    rw small (rw split (mul-mod_left (n / b + 1) b))

abbrev pub IsPadded : ℕ → ℕ → Result Padded → Type 0
IsPadded size block_size (ok padded) =
    (padded.data_length_with_padding % block_size ≡ 0)
    × (size < padded.data_length_with_padding)
    × (padded.data_length_with_padding ≤ size + block_size)
    × (length padded.data_with_padding ≡ padded.data_length_with_padding)
IsPadded size block_size (fault f) = ⊥

-- The padded length is a whole number of blocks, more than the data's by one byte up to one block,
-- and is the length of what is written.
pub add_padding-IsPadded :
    (bytes : Bytes) (block_size : ℕ)
    → 0 < block_size
    → block_size < 256
    → IsPadded (length bytes) block_size (add_padding bytes block_size)
add_padding-IsPadded bytes block_size lo hi =
    let bounds = amount_bounds bytes block_size lo hi in
    let n = amount_of bytes block_size in
    rw (add_padding_lem bytes block_size lo) (
      whole (length bytes) block_size lo hi,
      omega arith,
      omega arith,
      length-append bytes (replicate n n) ∙ ap (λ k. length bytes + k) (length-replicate n n),
    )
