-- ===== src/Nonces/Replay.antt =====
-- What `checkNonce` answers, and which nodes it leaves.
use smart_door_lock_io_t.Common.{
  ℤ, Bool, false, not, ◌&&◌, ◌||◌, List, [], ◌∷◌, ◌≡◌, subst, ◌⊎◌, inl, inr, leb_ℤ, eqb_ℤ, ◌≤ℤ◌,
  ◌<ℤ◌, In, Bool-cases, arith,
}
use smart_door_lock_io_t.Common.Int.{leb_ℤ_iff, leb_ℤ_false}
use smart_door_lock_io_t.Types.{Nonce}
use smart_door_lock_io_t.Nonces.Insert.{IsSorted}
use smart_door_lock_io_t.Nonces.{check_from, check_nonce_at}

-- The nonce stands in a node that has a successor.
abbrev pub used_before_last : ℤ → List Nonce → Bool
used_before_last nonce [] = false
used_before_last nonce (m ∷ []) = false
used_before_last nonce (m ∷ n ∷ rest) =
    let later = used_before_last nonce (n ∷ rest) in eqb_ℤ m.nonce nonce || later

-- What the walk answers, from any node and any answer so far.
check_from-answer :
    (nonce now : ℤ) (head : List Nonce) (valid : Bool) (temp : Nonce) (rest : List Nonce)
    → (check_from nonce now head valid temp rest).0
      ≡ (valid && not (used_before_last nonce (temp ∷ rest)))
unfolding check_from
check_from-answer nonce now head valid temp [] = ground arith
check_from-answer nonce now head valid temp (n ∷ rest) =
    let v = valid && not (eqb_ℤ temp.nonce nonce) in
    ground (
      arith,
      check_from-answer nonce now head v n rest,
      check_from-answer nonce now (n ∷ rest) v n rest,
    )

-- With two nodes or more, `checkNonce` refuses a nonce exactly when a node before the last holds it.
pub check_nonce_at_iff :
    (nonce now : ℤ) (m n : Nonce) (rest : List Nonce)
    → (check_nonce_at nonce now (m ∷ n ∷ rest)).0 ≡ not (used_before_last nonce (m ∷ n ∷ rest))
unfolding check_nonce_at
check_nonce_at_iff nonce now m n rest =
    ground
      (arith, check_from-answer nonce now (m ∷ n ∷ rest) (not (eqb_ℤ m.nonce nonce)) m (n ∷ rest))

-- An unexpired node stands behind an expired one.
In-behind :
    (x temp : Nonce) (later : List Nonce) (now : ℤ)
    → temp.expires ≤ℤ now
    → now <ℤ x.expires
    → In x (temp ∷ later) ⊎ (now <ℤ temp.expires)
    → In x later
In-behind x temp later now old live (inl (inl e)) =
    let early : now <ℤ temp.expires = subst (λ m. now <ℤ m.expires) e live in absurd (omega arith)
In-behind x temp later now old live (inl (inr m)) = m
In-behind x temp later now old live (inr fresh) = absurd (omega arith)

check_from-keeps :
    (nonce now : ℤ) (head : List Nonce) (valid : Bool) (temp : Nonce) (rest : List Nonce)
    (x : Nonce)
    → IsSorted (temp ∷ rest)
    → now <ℤ x.expires
    → In x head
    → In x (temp ∷ rest) ⊎ (now <ℤ temp.expires)
    → In x (check_from nonce now head valid temp rest).1
unfolding check_from
check_from-keeps nonce now head valid temp [] x s live held place = held
check_from-keeps nonce now head valid temp (n ∷ rest) x s live held place =
    let v = valid && not (eqb_ℤ temp.nonce nonce) in
    elim (Bool-cases (leb_ℤ temp.expires now)) [
      | inl old ↦
          let old' = (leb_ℤ_iff temp.expires now).0 old in
          let m = In-behind x temp (n ∷ rest) now old' live place in
          rw old (check_from-keeps nonce now (n ∷ rest) v n rest x s.1 live m (inl m))
      | inr fresh ↦
          let fresh' = leb_ℤ_false temp.expires now fresh in
          let later_live : temp.expires ≤ℤ n.expires → now <ℤ n.expires = λ h. omega arith in
          let next =
            check_from-keeps nonce now head v n rest x s.1 live held (inr (later_live s.0.0)) in
          elim (Bool-cases v) [
            | inl go ↦ rw (fresh, go) (rw go at next)
            | inr stop ↦ rw (fresh, stop) held
          ]
    ]

-- On a list in the order of expiry, `checkNonce` drops no node that has not expired.
pub check_nonce_at-keeps :
    (nonce now : ℤ) (l : List Nonce) (x : Nonce)
    → IsSorted l
    → now <ℤ x.expires
    → In x l
    → In x (check_nonce_at nonce now l).1
unfolding check_nonce_at
check_nonce_at-keeps nonce now [] x s live m = m
check_nonce_at-keeps nonce now (temp ∷ rest) x s live m =
    check_from-keeps nonce now (temp ∷ rest) (not (eqb_ℤ temp.nonce nonce)) temp rest x s live m
      (inl m)
