-- ===== src/Text/Decimal.antt =====
-- Printing a number and reading it back.
use smart_door_lock_io_t.Common.{
  ℕ, zero, suc, ◌+◌, ◌-◌, ◌*◌, ◌/◌, ◌%◌, ◌^◌, ◌<◌, ℤ, pos, negsuc, Bytes, true, [], ◌∷◌, ◌++◌, ltb,
  ◌≡◌, ◌≤ℤ◌, refl, ap, ◌∙◌, inl, inr, All, Bool-cases, arith,
}
use smart_door_lock_io_t.Text.{
  is_digit, read_digits, strtol, show_fuel, show_u, show_d, clamp_pos, clamp_neg,
}

abbrev pub IsDigit : ℕ → Type 0
IsDigit c = is_digit c ≡ true

All-snoc : (xs : Bytes) (c : ℕ) → All IsDigit xs → IsDigit c → All IsDigit (xs ++ c ∷ [])
All-snoc [] c h d = (d, tt)
All-snoc (x ∷ xs) c h d = (h.0, All-snoc xs c h.1 d)

pub show_fuel-digits : (fuel n : ℕ) → All IsDigit (show_fuel fuel n)
unfolding show_fuel
show_fuel-digits zero n = tt
show_fuel-digits (suc fuel) n = elim (Bool-cases (ltb n 10)) [
  | inl last ↦ rw last (ground arith, tt)
  | inr more ↦ rw more (
      All-snoc (show_fuel fuel (n / 10)) (b'0' + n % 10) (show_fuel-digits fuel (n / 10))
        (ground arith))
]

read_digits-snoc :
    (acc : ℕ) (xs : Bytes) (d : ℕ)
    → All IsDigit xs
    → d < 10
    → read_digits acc (xs ++ (b'0' + d) ∷ []) ≡ read_digits acc xs * 10 + d
unfolding read_digits
read_digits-snoc acc [] d h lt = ground arith
read_digits-snoc acc (x ∷ xs) d h lt = rw h.0 (read_digits-snoc (acc * 10 + (x - b'0')) xs d h.1 lt)

read_digits-show_fuel : (fuel n : ℕ) → n < fuel → read_digits 0 (show_fuel fuel n) ≡ n
unfolding show_fuel
read_digits-show_fuel zero n lt = absurd (omega arith)
read_digits-show_fuel (suc fuel) n lt = elim (Bool-cases (ltb n 10)) [
  | inl last ↦ rw last (unfold read_digits in ground arith)
  | inr more ↦
      let ih = read_digits-show_fuel fuel (n / 10) (ground arith) in
      let last =
        read_digits-snoc 0 (show_fuel fuel (n / 10)) (n % 10) (show_fuel-digits fuel (n / 10))
          (omega arith) in
      rw more (last ∙ omega (arith, ih))
]

read_digits-show_u : (n : ℕ) → read_digits 0 (show_u n) ≡ n
unfolding show_u
read_digits-show_u n = read_digits-show_fuel (suc n) n (omega arith)

strtol-digits : (xs : Bytes) → All IsDigit xs → strtol xs ≡ clamp_pos (read_digits 0 xs)
unfolding strtol
strtol-digits [] h = refl
strtol-digits (c ∷ s) h = ground arith

-- strtol of what %u prints is the number, or LONG_MAX where that is less.
pub strtol-show_u : (n : ℕ) → strtol (show_u n) ≡ clamp_pos n
strtol-show_u n =
    strtol-digits (show_u n) (unfold show_u in show_fuel-digits (suc n) n)
    ∙ ap clamp_pos (read_digits-show_u n)

-- strtol reads back what %d prints, for every 32-bit int.
pub strtol-show_d :
    (z : ℤ) → negsuc (2 ^ 31 - 1) ≤ℤ z → z ≤ℤ pos (2 ^ 31 - 1) → strtol (show_d z) ≡ z
unfolding show_d
strtol-show_d (pos n) lo hi = strtol-show_u n ∙ ground arith
strtol-show_d (negsuc n) lo hi =
    unfold strtol in ap clamp_neg (read_digits-show_u (suc n)) ∙ ground arith
