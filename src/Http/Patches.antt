-- ===== src/Http/Patches.antt =====
-- A copy to the middle of a buffer, and two copies one behind the other.
use smart_door_lock_io_t.Common.{
  ℕ, zero, suc, ◌+◌, ◌≤◌, Bytes, List, [], ◌∷◌, ◌++◌, length, take, drop, replicate, ◌≡◌, ap, sym,
  ◌∙◌, length-append, length-take, length-drop, take-append, drop-drop, ◌-◌, arith,
}
use mathlib.Core.List.{append_assoc}

drop-append : {A : Type 0} (xs ys : List A) (k : ℕ) → drop (length xs + k) (xs ++ ys) ≡ drop k ys
drop-append [] ys k = ap (λ n. drop n ys) (omega arith)
drop-append {A} (x ∷ xs) ys k =
    let e : suc (length xs) + k ≡ suc (length xs + k) = omega arith in
    ap (λ n. drop n (x ∷ (xs ++ ys))) e ∙ drop-append xs ys k

-- The buffer behind a copy that fits.
abbrev pub patched : Bytes → ℕ → Bytes → Bytes
patched buffer offset bytes = take offset buffer ++ (bytes ++ drop (offset + length bytes) buffer)

pub length-patched :
    (buffer : Bytes) (offset : ℕ) (bytes : Bytes)
    → offset + length bytes ≤ length buffer
    → length (patched buffer offset bytes) ≡ length buffer
length-patched buffer offset bytes fits =
    length-append (take offset buffer) (bytes ++ drop (offset + length bytes) buffer)
    ∙ omega (
      arith,
      length-append bytes (drop (offset + length bytes) buffer),
      length-take offset buffer (omega arith),
      length-drop (offset + length bytes) buffer,
    )

-- Two copies, one behind the other, are one.
pub patched-patched :
    (buffer : Bytes) (offset : ℕ) (a b : Bytes)
    → offset + length a + length b ≤ length buffer
    → patched (patched buffer offset a) (offset + length a) b ≡ patched buffer offset (a ++ b)
patched-patched buffer offset a b fits =
    let front : Bytes = take offset buffer ++ a in
    let rest : Bytes = drop (offset + length a) buffer in
    let whole : patched buffer offset a ≡ front ++ rest =
      sym (append_assoc (take offset buffer) a rest) in
    let size : length front ≡ offset + length a =
      length-append (take offset buffer) a
      ∙ ap (λ n. n + length a) (length-take offset buffer (omega arith)) in
    let sum : offset + length a + length b ≡ offset + length (a ++ b) =
      omega (arith, length-append a b) in
    ap (λ l. take (offset + length a) l ++ (b ++ drop (offset + length a + length b) l)) whole
    ∙ ap (λ n. take n (front ++ rest) ++ (b ++ drop (n + length b) (front ++ rest))) (sym size)
    ∙ ap (λ l. l ++ (b ++ drop (length front + length b) (front ++ rest))) (take-append front rest)
    ∙ ap (λ l. front ++ (b ++ l))
        (drop-append front rest (length b)
          ∙ drop-drop (offset + length a) (length b) buffer
          ∙ ap (λ n. drop n buffer) sum)
    ∙ append_assoc (take offset buffer) a (b ++ drop (offset + length (a ++ b)) buffer)
    ∙ ap (λ l. take offset buffer ++ l)
        (sym (append_assoc a b (drop (offset + length (a ++ b)) buffer)))

pub drop-replicate : (k n : ℕ) → drop k (replicate {A = ℕ} n 0) ≡ replicate {A = ℕ} (n - k) 0
drop-replicate zero n = ap (λ m. replicate {A = ℕ} m 0) (omega arith)
drop-replicate (suc k) zero =
    let none_left : 0 ≡ 0 - suc k = omega arith in ap (λ m. replicate {A = ℕ} m 0) none_left
drop-replicate (suc k) (suc n) =
    let e : n - k ≡ suc n - suc k = omega arith in
    drop-replicate k n ∙ ap (λ m. replicate {A = ℕ} m 0) e
