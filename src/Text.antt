-- ===== src/Text.antt =====
-- The parts of the C library's string functions that the firmware calls: strtok with the separator
-- " ", strtol in base 10 for a 32-bit long, and sprintf with %d, %u and %02x.
pub mod Decimal
pub mod Words
use smart_door_lock_io_t.Common.{
  ℕ, zero, suc, ◌+◌, ◌-◌, ◌*◌, ◌/◌, ◌%◌, ◌^◌, ℤ, pos, negsuc, Bytes, Bool, ◌&&◌, ◌||◌, List, [],
  ◌∷◌, ◌++◌, ltb, leb, ◌==◌, if◌then◌else◌,
}
use smart_door_lock_io_t.Common.Int.{sub_ℕ}

-- The C string in a buffer: it ends before the first NUL.
unfoldable pub c_string : Bytes → Bytes
c_string [] = []
c_string (c ∷ s) = let rest = c_string s in if c == 0 then [] else c ∷ rest

-- A token, if one has begun.
abbrev pub flush : Bytes → List Bytes → List Bytes
flush [] rest = rest
flush (c ∷ cs) rest = (c ∷ cs) ∷ rest

-- The tokens of the text, the first of which begins with `token`.
unfoldable pub tokens_from : Bytes → Bytes → List Bytes
tokens_from token [] = flush token []
tokens_from token (c ∷ s) =
    let rest = tokens_from [] s in
    let more = tokens_from (token ++ c ∷ []) s in if c == b' ' then flush token rest else more

-- What strtok(s, " "), strtok(NULL, " "), … return until NULL.
unfoldable pub tokens : Bytes → List Bytes
unfolding tokens_from
tokens s = tokens_from [] s

abbrev pub is_space : ℕ → Bool
is_space c = c == b' ' || (leb 9 c && leb c 13)

abbrev pub is_digit : ℕ → Bool
is_digit c = leb b'0' c && leb c b'9'

unfoldable pub skip_space : Bytes → Bytes
skip_space [] = []
skip_space (c ∷ s) = let rest = skip_space s in if is_space c then rest else c ∷ s

unfoldable pub read_digits : ℕ → Bytes → ℕ
read_digits acc [] = acc
read_digits acc (c ∷ s) =
    let rest = read_digits (acc * 10 + (c - b'0')) s in if is_digit c then rest else acc

-- LONG_MAX and LONG_MIN bound the value.
abbrev pub clamp_pos : ℕ → ℤ
clamp_pos n = pos (if ltb n (2 ^ 31) then n else 2 ^ 31 - 1)

abbrev pub clamp_neg : ℕ → ℤ
clamp_neg n = sub_ℕ 0 (if ltb n (2 ^ 31) then n else 2 ^ 31)

unfoldable pub read_signed : Bytes → ℤ
unfolding read_digits
read_signed [] = pos 0
read_signed (c ∷ s) =
    if c == b'-'
    then clamp_neg (read_digits 0 s)
    else if c == b'+'
    then clamp_pos (read_digits 0 s)
    else clamp_pos (read_digits 0 (c ∷ s))

-- strtol(s, NULL, 10)
unfoldable pub strtol : Bytes → ℤ
unfolding skip_space read_signed
strtol s = read_signed (skip_space s)

unfoldable pub show_fuel : ℕ → ℕ → Bytes
show_fuel zero n = []
show_fuel (suc fuel) n =
    let high = show_fuel fuel (n / 10) in
    if ltb n 10 then (b'0' + n) ∷ [] else high ++ (b'0' + n % 10) ∷ []

-- %u; a number has no more digits than its value plus one.
unfoldable pub show_u : ℕ → Bytes
unfolding show_fuel
show_u n = show_fuel (suc n) n

-- %d
unfoldable pub show_d : ℤ → Bytes
unfolding show_u
show_d (pos n) = show_u n
show_d (negsuc n) = b'-' ∷ show_u (suc n)

abbrev pub hex_digit : ℕ → ℕ
hex_digit n = if ltb n 10 then b'0' + n else b'a' + (n - 10)

-- %02x of a byte
abbrev pub show_02x : ℕ → Bytes
show_02x n = hex_digit (n / 16) ∷ hex_digit (n % 16) ∷ []

-- sprintf(s, "%02x:%02x:…", …) of the bytes of an address
unfoldable pub show_mac : Bytes → Bytes
show_mac [] = []
show_mac (b ∷ []) = show_02x b
show_mac (b ∷ c ∷ rest) = show_02x b ++ b':' ∷ show_mac (c ∷ rest)
