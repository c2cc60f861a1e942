-- ===== src/BleS3/Blocks.antt =====
-- The number of blocks and the counter of the loop of send_data_ble_s3.
use smart_door_lock_io_t.Common.{
  less_or_not, ℕ, zero, suc, ◌+◌, ◌*◌, ◌/◌, ◌%◌, ◌≤◌, ◌<◌, false, ◌==◌, ◌≡◌, ap, sym, subst, ◌∙◌,
  inl, inr, arith, if◌then◌else◌,
}
use native.Mathlib.Nat.{div-add-mod', mod-lt, mul-le-mul_right}
use smart_door_lock_io_t.BleS3.{total_num}

pub next_offset : (c n : ℕ) → suc c * n ≡ c * n + n
next_offset c n = grind arith

pub counter : (c : ℕ) → c < 254 → (suc c + 1) % 256 ≡ suc (suc c)
counter c h = grind arith

pub fewer : (q n : ℕ) → 0 < n → q * n ≤ 254 * n → q ≤ 254
fewer q n room h = elim (less_or_not 254 q) [
  | inl more ↦ let big : 255 * n ≤ q * n = mul-le-mul_right n (omega arith) in absurd (omega arith)
  | inr few ↦ few
]

pub fewer_still : (q n : ℕ) → q * n < 254 * n → q < 254
fewer_still q n h = elim (less_or_not q 254) [
  | inl few ↦ few
  | inr more ↦ let big : 254 * n ≤ q * n = mul-le-mul_right n more in absurd (omega arith)
]

pub small_mod : (k : ℕ) → k ≤ 254 → k % 256 ≡ k
small_mod k h = grind arith

abbrev rounded : ℕ → ℕ → ℕ
rounded q r = (q + (if r == 0 then 0 else 1)) % 256

pub rounded-bounds :
    (len n q r : ℕ)
    → 0 < n
    → len ≤ 254 * n
    → q * n + r ≡ len
    → r < n
    → (rounded q r ≤ 254) × (len ≤ rounded q r * n)
rounded-bounds len n q zero room small split less =
    let q_small = fewer q n room (omega arith) in
    let e : rounded q 0 ≡ q = ap (λ k. k % 256) (omega arith) ∙ small_mod q q_small in
    (omega arith, subst (λ k. len ≤ k * n) (sym e) (omega arith))
rounded-bounds len n q (suc r) room small split less =
    let q_small = fewer_still q n (omega arith) in
    let e : rounded q (suc r) ≡ suc q =
      ap (λ b. (q + (if b then 0 else 1)) % 256) (nonzero r)
      ∙ ap (λ k. k % 256) (omega arith)
      ∙ small_mod (suc q) (omega arith) in
    (omega arith, subst (λ k. len ≤ k * n) (sym e) (omega (arith, next_offset q n)))
  where
    nonzero : (r : ℕ) → (suc r == 0) ≡ false
    nonzero r = ground arith

-- total_num blocks of n bytes cover the text, and at most 254 are needed for 254 n bytes.
pub total_num-bounds :
    (len n : ℕ) → 0 < n → len ≤ 254 * n → (total_num len n ≤ 254) × (len ≤ total_num len n * n)
total_num-bounds len n room small =
    rounded-bounds len n (len / n) (len % n) room small (div-add-mod' len n) (mod-lt len room)

pub not_three : (m : ℕ) → 3 < m → (m == 3) ≡ false
not_three m h = ground arith
