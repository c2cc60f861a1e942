-- ===== src/Nonces/Gap.antt =====
-- The last node of the list is not compared: a nonce that was just recorded there passes again.
use smart_door_lock_io_t.Common.{
  ℤ, false, true, List, [], ◌∷◌, ◌++◌, ◌≡◌, ◌≢◌, refl, ap, ◌∙◌, not, ◌≤ℤ◌, All, arith,
}
use smart_door_lock_io_t.Common.Int.{eqb_ℤ_iff, leb_ℤ_iff}
use smart_door_lock_io_t.Types.{Nonce}
use smart_door_lock_io_t.Nonces.{insert_from, add_nonce_sorted, check_nonce_at}
use smart_door_lock_io_t.Nonces.Replay.{used_before_last, check_nonce_at_iff}

insert_from-last :
    (new temp : Nonce) (rest : List Nonce)
    → All (λ n. n.expires ≤ℤ new.expires) (temp ∷ rest)
    → insert_from new temp rest ≡ temp ∷ (rest ++ new ∷ [])
unfolding insert_from
insert_from-last new temp [] h = refl
insert_from-last new temp (n ∷ rest) h =
    rw ((leb_ℤ_iff temp.expires new.expires).1 h.0)
      (ap (λ l. temp ∷ l) (insert_from-last new n rest h.1))

fresh_before_last :
    (nonce : ℤ) (temp new : Nonce) (rest : List Nonce)
    → All (λ n. n.nonce ≢ nonce) (temp ∷ rest)
    → used_before_last nonce (temp ∷ (rest ++ new ∷ [])) ≡ false
fresh_before_last nonce temp new [] h = ground (arith, eqb_ℤ_iff temp.nonce nonce, h.0)
fresh_before_last nonce temp new (n ∷ rest) h =
    ground (arith, eqb_ℤ_iff temp.nonce nonce, h.0, fresh_before_last nonce n new rest h.1)

accept_last :
    (nonce now : ℤ) (temp new : Nonce) (rest : List Nonce)
    → All (λ n. n.nonce ≢ nonce) (temp ∷ rest)
    → (check_nonce_at nonce now (temp ∷ (rest ++ new ∷ []))).0 ≡ true
accept_last nonce now temp new [] h =
    check_nonce_at_iff nonce now temp new [] ∙ ap not (fresh_before_last nonce temp new [] h)
accept_last nonce now temp new (n ∷ rest) h =
    check_nonce_at_iff nonce now temp n (rest ++ new ∷ [])
    ∙ ap not (fresh_before_last nonce temp new (n ∷ rest) h)

-- The nonce of the message that was just accepted is accepted again, at any later time, if the list
-- was not empty, held no node that expires later, and did not hold that nonce.
pub replay_accepted :
    (nonce expires now : ℤ) (temp : Nonce) (rest : List Nonce)
    → All (λ n. n.expires ≤ℤ expires) (temp ∷ rest)
    → All (λ n. n.nonce ≢ nonce) (temp ∷ rest)
    → (check_nonce_at nonce now
        (add_nonce_sorted (record { nonce = nonce; expires = expires }) (temp ∷ rest))).0
      ≡ true
unfolding add_nonce_sorted
replay_accepted nonce expires now temp rest early other =
    rw (insert_from-last (record { nonce = nonce; expires = expires }) temp rest early)
      (accept_last nonce now temp (record { nonce = nonce; expires = expires }) rest other)
