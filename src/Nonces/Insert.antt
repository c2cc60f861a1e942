-- ===== src/Nonces/Insert.antt =====
-- What `addNonceSorted` does to the list, and when the list stays in the order of expiry.
use mathlib.Core.List.{Perm}
use mathlib.Core.List.Perm
use smart_door_lock_io_t.Common.{List, [], ◌∷◌, ◌↔◌, inl, inr, leb_ℤ, ◌≤ℤ◌, All, Bool-cases, arith}
use smart_door_lock_io_t.Common.Int.{leb_ℤ_iff, leb_ℤ_false}
use smart_door_lock_io_t.Types.{Nonce}
use smart_door_lock_io_t.Nonces.{insert_from, add_nonce_sorted}

-- Each node expires no earlier than those before it.
abbrev pub IsSorted : List Nonce → Type 0
IsSorted [] = Unit
IsSorted (m ∷ rest) = All (λ n. m.expires ≤ℤ n.expires) rest × IsSorted rest

insert_from-perm :
    (new temp : Nonce) (rest : List Nonce) → Perm (insert_from new temp rest) (new ∷ temp ∷ rest)
unfolding insert_from
insert_from-perm new temp [] = Perm.swap _ _ _
insert_from-perm new temp (n ∷ rest) = elim (Bool-cases (leb_ℤ temp.expires new.expires)) [
  | inl go ↦ rw go (Perm.trans (Perm.cons temp (insert_from-perm new n rest)) (Perm.swap _ _ _))
  | inr stop ↦ rw stop (Perm.swap _ _ _)
]

-- The list gains the new node and keeps every other, each as often as before.
pub add_nonce_sorted-perm : (new : Nonce) (l : List Nonce) → Perm (add_nonce_sorted new l) (new ∷ l)
unfolding add_nonce_sorted
add_nonce_sorted-perm new [] = Perm.refl _
add_nonce_sorted-perm new (temp ∷ rest) = insert_from-perm new temp rest

All-insert_from :
    (P : Nonce → Type 0) (new temp : Nonce) (rest : List Nonce)
    → P new
    → All P (temp ∷ rest)
    → All P (insert_from new temp rest)
unfolding insert_from
All-insert_from P new temp [] p h = (h.0, (p, tt))
All-insert_from P new temp (n ∷ rest) p h = elim (Bool-cases (leb_ℤ temp.expires new.expires)) [
  | inl go ↦ rw go (h.0, All-insert_from P new n rest p h.1)
  | inr stop ↦ rw stop (h.0, (p, h.1))
]

insert_from-IsSorted :
    (new temp : Nonce) (rest : List Nonce)
    → IsSorted (temp ∷ rest)
    → All (λ n. n.expires ≤ℤ new.expires) (temp ∷ rest)
    → IsSorted (insert_from new temp rest)
unfolding insert_from
insert_from-IsSorted new temp [] s h = ((h.0, tt), (tt, tt))
insert_from-IsSorted new temp (n ∷ rest) s h =
    let go = (leb_ℤ_iff temp.expires new.expires).1 h.0 in
    rw go (
      All-insert_from (λ m. temp.expires ≤ℤ m.expires) new n rest h.0 s.0,
      insert_from-IsSorted new n rest s.1 h.1,
    )

insert_from-All :
    (new temp : Nonce) (rest : List Nonce)
    → IsSorted (insert_from new temp rest)
    → All (λ n. n.expires ≤ℤ new.expires) (temp ∷ rest)
unfolding insert_from
insert_from-All new temp [] s = (s.0.0, tt)
insert_from-All new temp (n ∷ rest) s = elim (Bool-cases (leb_ℤ temp.expires new.expires)) [
  | inl go ↦ ((leb_ℤ_iff temp.expires new.expires).0 go, insert_from-All new n rest (rw go at s).1)
  | inr stop ↦
      let late = leb_ℤ_false temp.expires new.expires stop in
      let first = (rw stop at s).0.0 in absurd (omega arith)
]

-- A list in the order of expiry stays so exactly when no node of it expires later than the new one.
pub add_nonce_sorted-IsSorted-iff :
    (new : Nonce) (l : List Nonce)
    → IsSorted l
    → IsSorted (add_nonce_sorted new l) ↔ All (λ n. n.expires ≤ℤ new.expires) l
unfolding add_nonce_sorted
add_nonce_sorted-IsSorted-iff new [] s = ((λ _. tt), (λ _. (tt, tt)))
add_nonce_sorted-IsSorted-iff new (temp ∷ rest) s =
    (insert_from-All new temp rest, insert_from-IsSorted new temp rest s)
