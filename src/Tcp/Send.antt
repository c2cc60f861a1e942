-- ===== src/Tcp/Send.antt =====
-- The loop of do_retransmit that sends a response: it ends, and the peer gets the response.
use smart_door_lock_io_t.Common.{
  ℕ, zero, suc, ◌+◌, ◌-◌, ◌≤◌, ◌<◌, pos, negsuc, ℤ, Bytes, [], ◌∷◌, ◌++◌, length, take, drop, ◌≡◌,
  refl, ap, sym, ◌∙◌, ltb-true, ltb-false, length-drop, drop_all, drop-drop, take-append-drop,
  arith,
}
use mathlib.Core.List.{append_assoc, append-nil}
use smart_door_lock_io_t.Platform.{Env, Trace, tcp_send}
use smart_door_lock_io_t.Device.{Device, ok, fault, out_of_bounds, raise, call, pure, ◌>>=◌}
use smart_door_lock_io_t.Tcp.{send_rest}

abbrev taken : ℤ → Bytes → Bytes
taken (pos n) bytes = take n bytes
taken (negsuc n) bytes = []

-- What the socket took, in the order of the calls.
abbrev pub transmitted : Env → Trace → Bytes
transmitted env [] = []
transmitted env (tcp_send bytes ∷ t) = transmitted env t ++ taken (env.tcp_written t bytes) bytes
transmitted env (_ ∷ t) = transmitted env t

-- `send` takes between one byte and all that it is given.
abbrev pub Progresses : Env → Type 0
Progresses env =
    (t : Trace) (bytes : Bytes)
    → 0 < length bytes
    → (n : ℕ) × ((env.tcp_written t bytes ≡ pos (suc n)) × (suc n ≤ length bytes))

module _ (env : Env) (progress : Progresses env) (text : Bytes) where
  abbrev Sends : ℕ → ℕ → Device → Type 0
  Sends fuel left d =
      ((send_rest env fuel text left d).0 ≡ ok tt)
      × ((transmitted env (send_rest env fuel text left d).1.trace
            ≡ transmitted env d.trace ++ drop (length text - left) text)
          × ((send_rest env fuel text left d).1
              ≡ record d { trace = (send_rest env fuel text left d).1.trace }))

  nothing_left : (fuel : ℕ) (d : Device) → Sends fuel 0 d
  unfolding send_rest pure
  nothing_left zero d = (
    refl,
    (
      sym (
          ap (λ l. transmitted env d.trace ++ l) (drop_all (length text - 0) text (omega arith))
          ∙ append-nil _),
      refl,
    ),
  )
  nothing_left (suc fuel) d = (
    refl,
    (
      sym (
          ap (λ l. transmitted env d.trace ++ l) (drop_all (length text - 0) text (omega arith))
          ∙ append-nil _),
      refl,
    ),
  )

  split_taken :
      (n left : ℕ)
      → left ≤ length text
      → n ≤ left
      → take n (drop (length text - left) text) ++ drop (length text - (left - n)) text
        ≡ drop (length text - left) text
  split_taken n left fits most =
      let e : (length text - left) + n ≡ length text - (left - n) = omega arith in
      ap (λ k. take n (drop (length text - left) text) ++ drop k text) (sym e)
      ∙ ap (λ l. take n (drop (length text - left) text) ++ l)
          (sym (drop-drop (length text - left) n text))
      ∙ take-append-drop n (drop (length text - left) text)

  sends : (fuel left : ℕ) (d : Device) → left ≤ length text → left ≤ fuel → Sends fuel left d
  unfolding send_rest call ◌>>=◌
  sends fuel zero d fits enough = nothing_left fuel d
  sends zero (suc left) d fits enough = absurd (omega arith)
  sends (suc fuel) (suc left) d fits enough =
      let bytes : Bytes = drop (length text - suc left) text in
      let size : length bytes ≡ suc left =
        length-drop (length text - suc left) text ∙ omega arith in
      let (n, (took, most)) = progress d.trace bytes (omega (arith, size)) in
      let (returns, (all, same)) =
        sends fuel (suc left - suc n) (record d { trace = tcp_send bytes ∷ d.trace }) (omega arith)
          (omega arith) in
      rw (ltb-true 0 (suc left) (omega arith), ltb-false (length text) (suc left) fits, took)
        (
          returns,
          (
            all
                ∙ ap
                    (λ w.
                      (transmitted env d.trace ++ taken w bytes)
                      ++ drop (length text - (suc left - suc n)) text)
                    took
                ∙ append_assoc (transmitted env d.trace) (take (suc n) bytes) _
                ∙ ap (λ l. transmitted env d.trace ++ l)
                    (split_taken (suc n) (suc left) fits (omega (arith, size, most))),
            same,
          ),
        )

-- On a socket whose `send` always takes at least one byte and no more than it is given, as many rounds
-- as the text has bytes are enough: the loop returns, the peer has got the text once and in order,
-- and nothing else has changed.
pub send_rest-transmits :
    (env : Env) (fuel : ℕ) (text : Bytes) (d : Device)
    → Progresses env
    → length text ≤ fuel
    → ((send_rest env fuel text (length text) d).0 ≡ ok tt)
      × (transmitted env (send_rest env fuel text (length text) d).1.trace
          ≡ transmitted env d.trace ++ text)
      × ((send_rest env fuel text (length text) d).1
          ≡ record d { trace = (send_rest env fuel text (length text) d).1.trace })
send_rest-transmits env fuel text d progress enough =
    let (returns, (all, same)) =
      sends env progress text fuel (length text) d (omega arith) enough in
    let e : length text - length text ≡ 0 = omega arith in
    (returns, all ∙ ap (λ k. transmitted env d.trace ++ drop k text) e, same)

-- An error of the first `send` is not noticed: the next call starts one byte in front of the text.
pub send_rest-out_of_bounds :
    (env : Env) (fuel : ℕ) (text : Bytes) (d : Device)
    → 0 < length text
    → env.tcp_written d.trace text ≡ negsuc 0
    → (send_rest env (suc (suc fuel)) text (length text) d).0 ≡ fault out_of_bounds
unfolding send_rest call raise ◌>>=◌
send_rest-out_of_bounds env fuel text d some_text failed =
    let e : length text - length text ≡ 0 = omega arith in
    let whole : drop (length text - length text) text ≡ text = ap (λ k. drop k text) e in
    rw
      (
        ltb-true 0 (length text) some_text,
        ltb-false (length text) (length text) (omega arith),
        whole,
        failed,
        ltb-true 0 (length text + 1) (omega arith),
        ltb-true (length text) (length text + 1) (omega arith),
      )
      refl
