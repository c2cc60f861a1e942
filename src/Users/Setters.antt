-- ===== src/Users/Setters.antt =====
-- The setters of user_info.c against the view by sessions.
use smart_door_lock_io_t.Common.{
  ℕ, zero, suc, ◌<◌, Bytes, false, List, [], ◌∷◌, ◌++◌, some, ◌≡◌, ◌≢◌, refl, ap, length, leb, inl,
  inr, Option-cases, arith,
}
use smart_door_lock_io_t.Types.{UserInfo, UserState}
use smart_door_lock_io_t.Platform.{Env}
use smart_door_lock_io_t.Device.{Device, Result, ok, ◌>>=◌}
use smart_door_lock_io_t.Users.{
  key, keys, new_user, write_at, find_user, add_user, find_or_add, found_or_added, get_user,
  set_user_state, get_user_state, get_user_info,
}
use smart_door_lock_io_t.Users.Sessions.{
  IsHash, session, updated, user_or_new, session-updated_self, session-updated_ne,
}

write_at-write_at :
    (f g : UserInfo → UserInfo) (i : ℕ) (us : List UserInfo)
    → write_at i g (write_at i f us) ≡ write_at i (λ u. g (f u)) us
unfolding write_at
write_at-write_at f g i [] = refl
write_at-write_at f g zero (u ∷ us) = refl
write_at-write_at f g (suc i) (u ∷ us) = ap (λ l. u ∷ l) (write_at-write_at f g i us)

abbrev pub with_state : UserState → Bytes → UserInfo → UserInfo
with_state state phone_id u = record u { state = some state; phone_id = some phone_id }

room : (n k : ℕ) → n < k → leb k n ≡ false
room n k h = ground arith

module _ (env : Env) (ip phone_id : Bytes) (state : UserState) (d : Device) where
  -- With room for both texts, the setter returns and writes one structure.
  pub set_user_state_lem :
      length ip < 45
      → length phone_id < 16
      → set_user_state env ip state phone_id d
        ≡ (ok tt, record d { users_info = updated env ip (with_state state phone_id) d.users_info })
  unfolding set_user_state find_or_add find_user add_user found_or_added write_at ◌>>=◌
  set_user_state_lem short fits = elim (Option-cases (env.hash_find (keys d.users_info) (key ip))) [
    | inl missing ↦
        rw (missing, found_or_added, room (length ip) 45 short, room (length phone_id) 16 fits)
          (written (d.users_info ++ new_user ip ∷ []) (length d.users_info))
    | inr (i, found) ↦
        rw (found, found_or_added, room (length phone_id) 16 fits) (written d.users_info i)
  ]
    where
      written :
          (us : List UserInfo) (i : ℕ)
          → ◌≡◌ {A = Result (Unit {0}) × Device}
              (
                ok tt,
                record d {
                  users_info =
                      write_at i
                        (λ u. record u { phone_id = some phone_id })
                        (write_at i (λ u. record u { state = some state }) us);
                },
              )
              (ok tt, record d { users_info = write_at i (with_state state phone_id) us })
      written us i = rw write_at-write_at refl

  -- Afterwards every address with the same key leads to the new state and phone id; the sessions of
  -- the other addresses are as they were.
  pub session-set_user_state :
      IsHash env.hash_find
      → length ip < 45
      → length phone_id < 16
      → (session env (set_user_state env ip state phone_id d).1 ip
          ≡ some (with_state state phone_id (user_or_new ip (session env d ip))))
        × ((jp : Bytes)
            → key ip ≢ key jp
            → session env (set_user_state env ip state phone_id d).1 jp ≡ session env d jp)
  session-set_user_state spec short fits = rw (set_user_state_lem short fits) (
    session-updated_self env spec (with_state state phone_id) (λ u. refl) d.users_info ip,
    session-updated_ne env spec (with_state state phone_id) (λ u. refl) d.users_info ip,
  )

pub get_user_info_lem :
    (env : Env) (ip : Bytes) (d : Device) → get_user_info env ip d ≡ (ok (session env d ip), d)
unfolding get_user_info find_user ◌>>=◌
get_user_info_lem env ip d = refl

-- The state that was set for one address is read for every address with the same first four
-- characters.
pub get_user_state-set_user_state :
    (env : Env) (ip jp phone_id : Bytes) (state : UserState) (d : Device)
    → IsHash env.hash_find
    → length ip < 45
    → length phone_id < 16
    → key ip ≡ key jp
    → (get_user_state env jp (set_user_state env ip state phone_id d).1).0 ≡ ok state
unfolding get_user_state get_user get_user_info find_user ◌>>=◌
get_user_state-set_user_state env ip jp phone_id state d spec short fits same =
    rw (← same, (session-set_user_state env ip phone_id state d spec short fits).0)
