-- ===== src/Nonces.antt =====
-- main/utils/nonce.c: the list of the nonces that were used. The list is `head` with its `next`
-- pointers; a node that is no longer reachable from `head` is gone, freed or leaked.
pub mod Insert
pub mod Replay
pub mod Gap
use smart_door_lock_io_t.Common.{
  ℤ, pos, Bytes, Bool, true, false, not, ◌&&◌, ◌==◌, List, [], ◌∷◌, ◌++◌, leb_ℤ, eqb_ℤ, wrap32,
  ◌+ℤ◌, ◌-ℤ◌, codes, if◌then◌else◌,
}
use smart_door_lock_io_t.Types.{Nonce}
use smart_door_lock_io_t.Platform.{Env, random_word}
use smart_door_lock_io_t.Device.{Device, Exec, pure, call, gets, modify, ◌>>=◌, ◌>>◌}
use smart_door_lock_io_t.Time.{get_now_timestamp}

-- The walk of `addNonceSorted` from a node `temp`: the new node goes behind the first node that
-- expires later, or behind the last.
unfoldable pub insert_from : Nonce → Nonce → List Nonce → List Nonce
insert_from new temp [] = temp ∷ new ∷ []
insert_from new temp (n ∷ rest) =
    temp
    ∷ (let walk = insert_from new n rest in
        if leb_ℤ temp.expires new.expires then walk else new ∷ n ∷ rest)

unfoldable pub add_nonce_sorted : Nonce → List Nonce → List Nonce
unfolding insert_from
add_nonce_sorted new [] = new ∷ []
add_nonce_sorted new (temp ∷ rest) = insert_from new temp rest

-- The walk of `checkNonce` from `temp` with the current `head` and the answer so far. It stops at the
-- last node, which it does not look at.
unfoldable pub check_from : ℤ → ℤ → List Nonce → Bool → Nonce → List Nonce → Bool × List Nonce
check_from nonce now head valid temp [] = (valid, head)
check_from nonce now head valid temp (n ∷ rest) =
    let valid' = valid && not (eqb_ℤ temp.nonce nonce) in
    let dropped = check_from nonce now (n ∷ rest) valid' n rest in
    let kept = check_from nonce now head valid' n rest in
    if leb_ℤ temp.expires now then dropped else if valid' then kept else (valid', head)

-- The answer and the list that is left.
unfoldable pub check_nonce_at : ℤ → ℤ → List Nonce → Bool × List Nonce
unfolding check_from
check_nonce_at nonce now [] = (true, [])
check_nonce_at nonce now (temp ∷ rest) =
    check_from nonce now (temp ∷ rest) (not (eqb_ℤ temp.nonce nonce)) temp rest

unfoldable pub add_nonce : ℤ → ℤ → Exec (Unit {0})
add_nonce nonce expires = modify λ d. record d {
  nonces = add_nonce_sorted (record { nonce = nonce; expires = expires }) d.nonces;
}

module _ (env : Env) where
  unfoldable pub check_nonce : ℤ → Exec Bool
  check_nonce nonce = do
    now ← get_now_timestamp env
    nodes ← gets (λ d. d.nonces)
    let (valid, left) = check_nonce_at nonce now nodes
    modify (λ d. record d { nonces = left })
    pure valid
