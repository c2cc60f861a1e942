-- ===== src/BleS3/Fragments.antt =====
-- What the peer receives in fragments.
use smart_door_lock_io_t.Common.{
  leb-true, leb-false, ltb-true, ltb-false, less_or_not, leb-le, length-drop, length-take_le,
  drop-drop, drop_all, ℕ, zero, suc, ◌+◌, ◌-◌, ◌*◌, ◌≤◌, ◌<◌, Bytes, true, [], ◌∷◌, ◌++◌, length,
  take, drop, leb, ◌≡◌, refl, ap, sym, ◌∙◌, inl, inr, take-append-drop, length-append, Bool-cases,
  arith,
}
use mathlib.Core.List.{append_assoc, append-nil}
use smart_door_lock_io_t.Platform.{Trace, indicate, delay}
use smart_door_lock_io_t.BleS3.Blocks.{next_offset, counter, total_num-bounds, not_three}
use smart_door_lock_io_t.Device.{Device, ok, pure, gets, emit, ◌>>=◌}
use smart_door_lock_io_t.BleS3.{frame, send_frames, total_num, send_text, send_data_ble_s3}

-- All bytes that were indicated, in their order.
abbrev pub sent : Trace → Bytes
sent [] = []
sent (indicate b ∷ es) = sent es ++ b
sent (_ ∷ es) = sent es

-- Every indication has at most n bytes.
abbrev pub FramesFit : ℕ → Trace → Type 0
FramesFit n [] = Unit
FramesFit n (indicate b ∷ es) = (length b ≤ n) × FramesFit n es
FramesFit n (_ ∷ es) = FramesFit n es

-- The loop from the round with the counter `suc c` on.
module _ (n : ℕ) (text : Bytes) (total : ℕ) (some_room : 0 < n) (small : total ≤ 254)
    (enough : length text ≤ total * n) where
  abbrev Sends : ℕ → ℕ → Device → Type 0
  Sends fuel c d =
      ((send_frames n text total fuel (suc c) d).0 ≡ ok tt)
      × ((sent (send_frames n text total fuel (suc c) d).1.trace
            ≡ sent d.trace ++ drop (c * n) text)
          × FramesFit n (send_frames n text total fuel (suc c) d).1.trace)

  covers : (c : ℕ) → total ≤ c → length text ≤ c * n
  covers c h = grind arith

  ends : (c : ℕ) (d : Device) → total ≤ c → sent d.trace ≡ sent d.trace ++ drop (c * n) text
  ends c d h = sym (ap (λ l. sent d.trace ++ l) (drop_all (c * n) text (covers c h)) ∙ append-nil _)

  one_round :
      (fuel c : ℕ) (d : Device) (f : Bytes)
      → c < total
      → frame n text total (suc c) d ≡ (ok f, d)
      → length f ≤ n
      → f ++ drop (suc c * n) text ≡ drop (c * n) text
      → FramesFit n d.trace
      → ((e : Device) → FramesFit n e.trace → Sends fuel (suc c) e)
      → Sends (suc fuel) c d
  unfolding send_frames emit ◌>>=◌
  one_round fuel c d f more copied fits split fit rest =
      let (returns, (all, fit')) =
        rest (record d { trace = delay ∷ indicate f ∷ d.trace }) (fits, fit) in
      rw (leb-true (suc c) total more, counter c (omega arith), copied)
        (
          returns,
          (
            all
                ∙ append_assoc (sent d.trace) f (drop (suc c * n) text)
                ∙ ap (λ l. sent d.trace ++ l) split,
            fit',
          ),
        )

  last_fits : (c : ℕ) → total ≤ suc c → length (drop (c * n) text) ≤ n
  last_fits c h =
      let all = covers (suc c) h in omega (arith, length-drop (c * n) text, all, next_offset c n)

  full_frame :
      (c : ℕ)
      → suc c < total
      → (d : Device) → frame n text total (suc c) d ≡ (ok (take n (drop (c * n) text)), d)
  unfolding frame pure
  full_frame c h d = rw (ltb-true (suc c) total h) refl

  last_frame :
      (c : ℕ)
      → total ≤ suc c
      → (d : Device) → frame n text total (suc c) d ≡ (ok (drop (c * n) text), d)
  unfolding frame pure
  last_frame c h d =
      rw (ltb-false (suc c) total h, ltb-false n (length (drop (c * n) text)) (last_fits c h)) refl

  full_split : (c : ℕ) → take n (drop (c * n) text) ++ drop (suc c * n) text ≡ drop (c * n) text
  full_split c =
      ap (λ k. take n (drop (c * n) text) ++ drop k text) (next_offset c n)
      ∙ ap (λ l. take n (drop (c * n) text) ++ l) (sym (drop-drop (c * n) n text))
      ∙ take-append-drop n (drop (c * n) text)

  last_split :
      (c : ℕ) → total ≤ suc c → drop (c * n) text ++ drop (suc c * n) text ≡ drop (c * n) text
  last_split c h =
      ap (λ l. drop (c * n) text ++ l) (drop_all (suc c * n) text (covers (suc c) h)) ∙ append-nil _

  loop :
      (fuel c : ℕ) (d : Device)
      → total ≤ fuel + c
      → c ≤ total
      → FramesFit n d.trace
      → Sends fuel c d
  unfolding send_frames pure
  loop zero c d fuel_left before fit = (refl, (ends c d (omega arith), fit))
  loop (suc fuel) c d fuel_left before fit =
      let next : c < total → (e : Device) → FramesFit n e.trace → Sends fuel (suc c) e =
        λ more e fit'. loop fuel (suc c) e (omega arith) (omega arith) fit' in
      elim (less_or_not c total) [
        | inr done ↦ rw (leb-false (suc c) total (omega arith)) (refl, (ends c d done, fit))
        | inl more ↦ elim (less_or_not (suc c) total) [
          | inl full ↦
              one_round fuel c d (take n (drop (c * n) text)) more (full_frame c full d)
                (length-take_le n (drop (c * n) text)) (full_split c) fit (next more)
          | inr last ↦
              one_round fuel c d (drop (c * n) text) more (last_frame c last d) (last_fits c last)
                (last_split c last) fit (next more)
        ]
      ]

from_start : (n : ℕ) (text : Bytes) → drop (0 * n) text ≡ text
from_start n text = let e : 0 * n ≡ 0 = omega arith in ap (λ k. drop k text) e

send_text-sent :
    (mtu : ℕ) (text : Bytes) (d : Device)
    → 3 < mtu
    → length text ≤ 254 * (mtu - 3)
    → FramesFit (mtu - 3) d.trace
    → ((send_text mtu text d).0 ≡ ok tt)
      × ((sent (send_text mtu text d).1.trace ≡ sent d.trace ++ text)
          × FramesFit (mtu - 3) (send_text mtu text d).1.trace)
unfolding send_text emit
send_text-sent mtu text d room small fit =
    let bounds = total_num-bounds (length text) (mtu - 3) (omega arith) small in
    elim (Bool-cases (leb (length text) (mtu - 3))) [
      | inl whole ↦
          rw (ltb-false mtu 3 (omega arith), whole)
            (refl, (refl, (leb-le (length text) (mtu - 3) whole, fit)))
      | inr parts ↦
          let all =
            loop (mtu - 3) text (total_num (length text) (mtu - 3)) (omega arith) bounds.0 bounds.1
              257 0 d (omega (arith, bounds)) (omega arith) fit in
          rw (ltb-false mtu 3 (omega arith), parts, not_three mtu room)
            (all.0, (all.1.0 ∙ ap (λ l. sent d.trace ++ l) (from_start (mtu - 3) text), all.1.1))
    ]

-- While a peer is connected, with an MTU of more than 3 and data that takes at most 254 fragments,
-- sending returns; all that is indicated is the data with the end mark behind it, each byte once and
-- in its order, and no indication is longer than the MTU allows.
pub send_data_ble_s3-sent :
    (data' : Bytes) (d : Device)
    → d.is_connected ≡ true
    → 3 < d.spp_mtu_size
    → length data' + 1 ≤ 254 * (d.spp_mtu_size - 3)
    → FramesFit (d.spp_mtu_size - 3) d.trace
    → ((send_data_ble_s3 data' d).0 ≡ ok tt)
      × ((sent (send_data_ble_s3 data' d).1.trace ≡ sent d.trace ++ (data' ++ 4 ∷ []))
          × FramesFit (d.spp_mtu_size - 3) (send_data_ble_s3 data' d).1.trace)
unfolding send_data_ble_s3 gets ◌>>=◌
send_data_ble_s3-sent data' d connected room small fit =
    simp connected (send_text-sent d.spp_mtu_size (data' ++ 4 ∷ []) d room (marked data' small) fit)
  where
    marked :
        (data' : Bytes)
        → length data' + 1 ≤ 254 * (d.spp_mtu_size - 3)
        → length (data' ++ 4 ∷ []) ≤ 254 * (d.spp_mtu_size - 3)
    marked data' h = omega (arith, h, length-append data' (4 ∷ []))
