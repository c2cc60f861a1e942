-- ===== src/Base64/Chars.antt =====
-- Encoding a six-bit value as a character and reading it back, for both alphabets.
use smart_door_lock_io_t.Common.{
  ℕ, zero, suc, ◌<◌, Bytes, Bool, true, false, ◌&&◌, not, ◌≡◌, refl, ◌==◌, ==_iff, arith,
}
use smart_door_lock_io_t.Base64.{base64_table, base64_url_table, table_at, dtable}

all_below : ℕ → (ℕ → Bool) → Bool
all_below zero p = true
all_below (suc n) p = p n && all_below n p

all_below_sound : (n : ℕ) (p : ℕ → Bool) (i : ℕ) → all_below n p ≡ true → i < n → p i ≡ true
unfolding all_below
all_below_sound zero p i h lt = absurd (omega arith)
all_below_sound (suc n) p i h lt = ground (arith, all_below_sound n p i)

-- The character is neither the pad nor a space, and is read back as its value.
abbrev reads_back : Bytes → ℕ → Bool
reads_back table i =
    not (table_at table i == b'=')
    && not (table_at table i == b' ')
    && dtable table (table_at table i) == i

-- An alphabet that decoding can read.
pub record IsAlphabet (table : Bytes) : Type 0 where
  pub not_pad : (i : ℕ) → i < 64 → (table_at table i == b'=') ≡ false
  pub not_space : (i : ℕ) → i < 64 → (table_at table i == b' ') ≡ false
  pub dtable-table_at : (i : ℕ) → i < 64 → dtable table (table_at table i) ≡ i

IsAlphabet-of_check : (table : Bytes) → all_below 64 (reads_back table) ≡ true → IsAlphabet table
IsAlphabet-of_check table h = record {
  not_pad = λ i lt. ground (arith, all_below_sound 64 (reads_back table) i h lt);
  not_space = λ i lt. ground (arith, all_below_sound 64 (reads_back table) i h lt);
  dtable-table_at = λ i lt. ground (
    arith,
    all_below_sound 64 (reads_back table) i h lt,
    ==_iff (dtable table (table_at table i)) i,
  );
}

pub base64_table-IsAlphabet : IsAlphabet base64_table
unfolding all_below table_at dtable
base64_table-IsAlphabet = IsAlphabet-of_check base64_table refl

pub base64_url_table-IsAlphabet : IsAlphabet base64_url_table
unfolding all_below table_at dtable
base64_url_table-IsAlphabet = IsAlphabet-of_check base64_url_table refl
