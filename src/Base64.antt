-- ===== src/Base64.antt =====
-- main/utils/base64_util.c. A byte is a number below 256; `|` joins disjoint bits, so it is a sum.
-- The length of an encoded text is a size_t of 32 bits. `os_malloc` is taken to succeed.
pub mod Chars
pub mod Walk
pub mod RoundTrip
pub mod Tokens
use mathlib.Core.Option
use smart_door_lock_io_t.Common.{
  ℕ, zero, suc, ◌+◌, ◌-◌, ◌*◌, ◌/◌, ◌%◌, ◌^◌, Bytes, Bool, true, false, Option, none, some, List,
  [], ◌∷◌, ◌++◌, codes, length, replicate, leb, ◌==◌, if◌then◌else◌,
}

abbrev pub base64_table : Bytes
base64_table = codes "ABCDEFGHIJKLMNOPQRSTUVWXYZabcdefghijklmnopqrstuvwxyz0123456789+/"

abbrev pub base64_url_table : Bytes
base64_url_table = codes "ABCDEFGHIJKLMNOPQRSTUVWXYZabcdefghijklmnopqrstuvwxyz0123456789-_"

-- table[n]
unfoldable pub table_at : Bytes → ℕ → ℕ
table_at [] n = 0
table_at (c ∷ table) zero = c
table_at (c ∷ table) (suc n) = table_at table n

abbrev pub pad_with : Bool → Bytes → Bytes
pad_with true pad = pad
pad_with false pad = []

-- The two loops of `base64_gen_encode`: whole blocks of three, then the one or two bytes left.
unfoldable pub encode_blocks : Bytes → Bool → Bytes → Bytes
unfolding table_at
encode_blocks table add_pad (a ∷ b ∷ c ∷ rest) =
    table_at table (a / 4 % 64)
    ∷ table_at table ((a % 4 * 16 + b / 16) % 64)
    ∷ table_at table ((b % 16 * 4 + c / 64) % 64)
    ∷ table_at table (c % 64)
    ∷ encode_blocks table add_pad rest
encode_blocks table add_pad (a ∷ b ∷ []) =
    table_at table (a / 4 % 64)
    ∷ table_at table ((a % 4 * 16 + b / 16) % 64)
    ∷ table_at table (b % 16 * 4 % 64)
    ∷ pad_with add_pad (b'=' ∷ [])
encode_blocks table add_pad (a ∷ []) =
    table_at table (a / 4 % 64)
    ∷ table_at table (a % 4 * 16 % 64)
    ∷ pad_with add_pad (b'=' ∷ b'=' ∷ [])
encode_blocks table add_pad [] = []

-- NULL where the length would overflow: SIZE_MAX is 2 ^ 32 - 1. Then `olen < len` never holds.
unfoldable pub base64_gen_encode : Bytes → Bool → Bytes → Option Bytes
unfolding encode_blocks
base64_gen_encode table add_pad src =
    if leb ((2 ^ 32 - 1) / 4) (length src) then none else some (encode_blocks table add_pad src)

-- The index of `c` in the table, counted from `i`; 0x80 where it is missing.
unfoldable pub index_from : ℕ → Bytes → ℕ → ℕ
index_from i [] c = 0x80
index_from i (t ∷ table) c = let rest = index_from (i + 1) table c in if t == c then i else rest

-- dtable[c]
unfoldable pub dtable : Bytes → ℕ → ℕ
unfolding index_from
dtable table c = if c == b'=' then 0 else index_from 0 table c

unfoldable pub count_valid : Bytes → Bytes → ℕ
count_valid table [] = 0
count_valid table (c ∷ s) =
    let rest = count_valid table s in if dtable table c == 0x80 then rest else rest + 1

-- block[0..count]
pub data Block : Type 0 where
  empty : Block
  one : ℕ → Block
  two : ℕ → ℕ → Block
  three : ℕ → ℕ → ℕ → Block

-- A block of four is written out; with padding the loop ends, and three or more pads are refused.
unfoldable pub close_block : ℕ → ℕ → ℕ → ℕ → ℕ → Option Bytes → Option Bytes
close_block x y z v pad rest =
    let a = (x * 4 + y / 16) % 256 in
    let b = (y * 16 + z / 4) % 256 in
    let c = (z * 64 + v) % 256 in
    if pad == 0
    then Option.map (λ out. a ∷ b ∷ c ∷ out) rest
    else if pad == 1
    then some (a ∷ b ∷ [])
    else if pad == 2
    then some (a ∷ [])
    else none

-- The loop of `base64_gen_decode`.
unfoldable pub decode_walk : Bytes → Block → ℕ → Bytes → Option Bytes
decode_walk table block pad [] = some []
decode_walk table block pad (c ∷ s) =
    let v = dtable table c in
    let pad' = if c == b'=' then pad + 1 else pad in
    let skip = decode_walk table block pad s in
    let rest = decode_walk table empty pad' s in
    if v == 0x80 then skip else elim block [
      | empty ↦ decode_walk table (one v) pad' s
      | one x ↦ decode_walk table (two x v) pad' s
      | two x y ↦ decode_walk table (three x y v) pad' s
      | three x y z ↦ close_block x y z v pad' rest
    ]

unfoldable pub base64_gen_decode : Bytes → Bytes → Option Bytes
base64_gen_decode table src =
    let count = count_valid table src in
    let extra_pad = (4 - count % 4) % 4 in
    if count == 0 then none else decode_walk table empty 0 (src ++ replicate extra_pad b'=')

unfoldable pub base64_encode : Bytes → Option Bytes
unfolding base64_gen_encode
base64_encode src = base64_gen_encode base64_table true src

unfoldable pub base64_url_encode : Bytes → Option Bytes
unfolding base64_gen_encode
base64_url_encode src = base64_gen_encode base64_url_table false src

unfoldable pub base64_decode : Bytes → Option Bytes
unfolding base64_gen_decode
base64_decode src = base64_gen_decode base64_table src

unfoldable pub base64_url_decode : Bytes → Option Bytes
unfolding base64_gen_decode
base64_url_decode src = base64_gen_decode base64_url_table src
