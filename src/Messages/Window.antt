-- ===== src/Messages/Window.antt =====
-- What a reader of a stamped answer finds in it.
use smart_door_lock_io_t.Common.{
  ℕ, ltb, Bool-cases, inl, inr, ◌+◌, ◌/◌, ◌%◌, ◌^◌, ◌-◌, suc, ℤ, pos, negsuc, ◌+ℤ◌, ◌-ℤ◌, ◌≤ℤ◌,
  wrap32, Bytes, true, false, [], ◌∷◌, ◌++◌, ◌==◌, All, ◌≡◌, ◌≢◌, refl, ap, ◌∙◌, arith,
}
use smart_door_lock_io_t.Platform.{Env}
use smart_door_lock_io_t.Device.{Device, ok, pure, call, ◌>>=◌}
use smart_door_lock_io_t.Common.Int.{wrap32_id}
use smart_door_lock_io_t.Time.{get_now_timestamp}
use smart_door_lock_io_t.Text.{is_digit, show_fuel, tokens, strtol, show_d, show_u}
use smart_door_lock_io_t.Text.Decimal.{IsDigit, show_fuel-digits, strtol-show_d}
use smart_door_lock_io_t.Text.Words.{IsInWord, IsWord, tokens_word, tokens_last, tokens-apart}
use smart_door_lock_io_t.Messages.{stamped, add_timestamps_and_nonce_to_msg}

digit-IsInWord : (xs : Bytes) → All IsDigit xs → All IsInWord xs
digit-IsInWord [] h = tt
digit-IsInWord (x ∷ xs) h = (in_word x h.0, digit-IsInWord xs h.1)
  where
    in_word : (c : ℕ) → is_digit c ≡ true → (c == b' ') ≡ false
    in_word c d = ground arith

snoc-ne-nil : (xs : Bytes) (c : ℕ) → xs ++ c ∷ [] ≢ []
snoc-ne-nil [] c = λ h. ground arith
snoc-ne-nil (x ∷ xs) c = λ h. ground arith

show_fuel-ne-nil : (fuel n : ℕ) → show_fuel (suc fuel) n ≢ []
unfolding show_fuel
show_fuel-ne-nil fuel n = elim (Bool-cases (ltb n 10)) [
  | inl last ↦ rw last (snoc-ne-nil [] (b'0' + n))
  | inr more ↦ rw more (snoc-ne-nil (show_fuel fuel (n / 10)) (b'0' + n % 10))
]

show_u-IsWord : (n : ℕ) → IsWord (show_u n)
unfolding show_u
show_u-IsWord n =
    (show_fuel-ne-nil n n, digit-IsInWord (show_fuel (suc n) n) (show_fuel-digits (suc n) n))

show_d-IsWord : (z : ℤ) → IsWord (show_d z)
unfolding show_d
show_d-IsWord (pos n) = show_u-IsWord n
show_d-IsWord (negsuc n) = ((λ h. ground arith), (refl, (show_u-IsWord (suc n)).1))

tokens-stamped :
    (msg : Bytes) (from until : ℤ) (n : ℕ)
    → tokens (stamped msg from until (show_u n))
      ≡ tokens msg ++ show_d from ∷ show_d until ∷ show_u n ∷ []
unfolding stamped
tokens-stamped msg from until n =
    tokens-apart msg _
    ∙ ap (λ l. tokens msg ++ l)
        (tokens_word (show_d from) _ (show_d-IsWord from)
          ∙ ap (λ l. show_d from ∷ l)
              (tokens_word (show_d until) _ (show_d-IsWord until)
                ∙ ap (λ l. show_d until ∷ l) (tokens_last (show_u n) (show_u-IsWord n))))

lower_sub : (z : ℤ) → negsuc (2 ^ 31 - 31) ≤ℤ z → negsuc (2 ^ 31 - 1) ≤ℤ (z -ℤ pos 30)
unfolding ◌-ℤ◌
lower_sub z h = ground arith

upper_sub : (z : ℤ) → z ≤ℤ pos (2 ^ 31 - 31) → (z -ℤ pos 30) ≤ℤ pos (2 ^ 31 - 1)
unfolding ◌-ℤ◌
upper_sub z h = ground arith

lower_add : (z : ℤ) → negsuc (2 ^ 31 - 31) ≤ℤ z → negsuc (2 ^ 31 - 1) ≤ℤ (z +ℤ pos 30)
unfolding ◌+ℤ◌
lower_add z h = ground arith

upper_add : (z : ℤ) → z ≤ℤ pos (2 ^ 31 - 31) → (z +ℤ pos 30) ≤ℤ pos (2 ^ 31 - 1)
unfolding ◌+ℤ◌
upper_add z h = ground arith

-- A message that is stamped at the time `now`, an int with 30 to spare at both ends, has the words of
-- the message and three more: two numbers that strtol reads as 30 seconds before and after `now`, and
-- the nonce.
pub add_timestamps_and_nonce_to_msg-window :
    (env : Env) (msg : Bytes) (d d1 : Device) (now : ℤ)
    → get_now_timestamp env d ≡ (ok now, d1)
    → negsuc (2 ^ 31 - 31) ≤ℤ now
    → now ≤ℤ pos (2 ^ 31 - 31)
    → (stamp : Bytes) × ((from : Bytes) × ((until : Bytes) × (((add_timestamps_and_nonce_to_msg env
                msg d).0
              ≡ ok stamp)
            × ((tokens stamp ≡ tokens msg ++ from ∷ until ∷ show_u (env.random_u32 d1.trace) ∷ [])
                × ((strtol from ≡ now -ℤ pos 30) × (strtol until ≡ now +ℤ pos 30))))))
unfolding add_timestamps_and_nonce_to_msg call pure ◌>>=◌
add_timestamps_and_nonce_to_msg-window env msg d d1 now run lo hi = (
  _,
  (
    _,
    (
      _,
      (
        answered,
        (
          tokens-stamped msg _ _ _,
          (
            read_back (now -ℤ pos 30) (lower_sub now lo) (upper_sub now hi),
            read_back (now +ℤ pos 30) (lower_add now lo) (upper_add now hi),
          ),
        ),
      ),
    ),
  ),
)
  where
    answered :
        (add_timestamps_and_nonce_to_msg env msg d).0
        ≡ ok (
            stamped msg
              (wrap32 (now -ℤ pos 30))
              (wrap32 (now +ℤ pos 30))
              (show_u (env.random_u32 d1.trace)))
    answered = rw run refl

    read_back :
        (z : ℤ) → negsuc (2 ^ 31 - 1) ≤ℤ z → z ≤ℤ pos (2 ^ 31 - 1) → strtol (show_d (wrap32 z)) ≡ z
    read_back z lo hi = ap (λ x. strtol (show_d x)) (wrap32_id z lo hi) ∙ strtol-show_d z lo hi
