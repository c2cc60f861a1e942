-- ===== src/Users/Sessions.antt =====
-- What a client of user_info.c sees: the session of an address, before and after each setter.
use smart_door_lock_io_t.Common.{
  ℕ, zero, suc, Bytes, List, [], ◌∷◌, ◌++◌, Option, none, some, ◌≡◌, ◌≢◌, refl, sym, ap, ◌∙◌,
  length, get_elem?,
}
use smart_door_lock_io_t.Types.{UserInfo}
use smart_door_lock_io_t.Platform.{Env}
use smart_door_lock_io_t.Device.{Device}
use smart_door_lock_io_t.Users.{key, keys, new_user, write_at, at_index}

-- The documented behaviour of HASH_FIND and HASH_ADD: a lookup returns an item that was added under
-- the key, a key that is added is found, and the lookups of other keys stay as they were.
pub record IsHash (find : List Bytes → Bytes → Option ℕ) : Type 0 where
  pub sound : (ks : List Bytes) (k : Bytes) (i : ℕ) → find ks k ≡ some i → get_elem? ks i ≡ some k
  pub added :
      (ks : List Bytes) (k : Bytes) → find ks k ≡ none → find (ks ++ k ∷ []) k ≡ some (length ks)
  pub others : (ks : List Bytes) (k j : Bytes) → k ≢ j → find (ks ++ k ∷ []) j ≡ find ks j

-- The structure that the address leads to.
abbrev pub session_in : Env → List UserInfo → Bytes → Option UserInfo
session_in env us ip = at_index us (env.hash_find (keys us) (key ip))

abbrev pub session : Env → Device → Bytes → Option UserInfo
session env d ip = session_in env d.users_info ip

module _ {ℓ} {A : Type ℓ} where
  get_elem?-append : (xs ys : List A) (y : A) → get_elem? (xs ++ y ∷ ys) (length xs) ≡ some y
  get_elem?-append [] ys y = refl
  get_elem?-append (x ∷ xs) ys y = get_elem?-append xs ys y

  get_elem?-append_left :
      (xs ys : List A) (j : ℕ) {x : A} → get_elem? xs j ≡ some x → get_elem? (xs ++ ys) j ≡ some x
  get_elem?-append_left [] ys j h = cc
  get_elem?-append_left (x ∷ xs) ys zero h = h
  get_elem?-append_left (x ∷ xs) ys (suc j) h = get_elem?-append_left xs ys j h

  get_elem?-length : (xs : List A) → get_elem? xs (length xs) ≡ none
  get_elem?-length [] = refl
  get_elem?-length (x ∷ xs) = get_elem?-length xs

  index_ne :
      (xs : List A) (i j : ℕ) {o p : Option A}
      → get_elem? xs i ≡ o
      → get_elem? xs j ≡ p
      → o ≢ p
      → i ≢ j
  index_ne xs i j h k ne e = ne (sym h ∙ ap (get_elem? xs) e ∙ k)

keys-append :
    (us : List UserInfo) (u : UserInfo) → keys (us ++ u ∷ []) ≡ keys us ++ key u.user_ip ∷ []
keys-append [] u = refl
keys-append (v ∷ us) u = ap (λ l. key v.user_ip ∷ l) (keys-append us u)

module _ (f : UserInfo → UserInfo) where
  get_elem?-write_at :
      (i : ℕ) (us : List UserInfo) {u : UserInfo}
      → get_elem? us i ≡ some u
      → get_elem? (write_at i f us) i ≡ some (f u)
  unfolding write_at
  get_elem?-write_at i [] h = cc
  get_elem?-write_at zero (v ∷ us) h = cc
  get_elem?-write_at (suc i) (v ∷ us) h = get_elem?-write_at i us h

  get_elem?-write_at_ne :
      (i j : ℕ) (us : List UserInfo) → i ≢ j → get_elem? (write_at i f us) j ≡ get_elem? us j
  unfolding write_at
  get_elem?-write_at_ne i j [] h = refl
  get_elem?-write_at_ne zero zero (v ∷ us) h = absurd (h refl)
  get_elem?-write_at_ne zero (suc j) (v ∷ us) h = refl
  get_elem?-write_at_ne (suc i) zero (v ∷ us) h = refl
  get_elem?-write_at_ne (suc i) (suc j) (v ∷ us) h =
      get_elem?-write_at_ne i j us (λ e. h (ap suc e))

  keys-write_at :
      ((u : UserInfo) → (f u).user_ip ≡ u.user_ip)
      → (i : ℕ) (us : List UserInfo) → keys (write_at i f us) ≡ keys us
  unfolding write_at
  keys-write_at same i [] = refl
  keys-write_at same zero (v ∷ us) = ap (λ ip. key ip ∷ keys us) (same v)
  keys-write_at same (suc i) (v ∷ us) = ap (λ l. key v.user_ip ∷ l) (keys-write_at same i us)

length-keys : (us : List UserInfo) → length (keys us) ≡ length us
length-keys [] = refl
length-keys (u ∷ us) = ap suc (length-keys us)

get_elem?-keys :
    (i : ℕ) (us : List UserInfo) {k : Bytes}
    → get_elem? (keys us) i ≡ some k
    → (u : UserInfo) × (get_elem? us i ≡ some u) × (key u.user_ip ≡ k)
get_elem?-keys i [] h = cc
get_elem?-keys zero (u ∷ us) h = (u, refl, cc)
get_elem?-keys (suc i) (u ∷ us) h = get_elem?-keys i us h

abbrev updated_at : Bytes → (UserInfo → UserInfo) → List UserInfo → Option ℕ → List UserInfo
updated_at ip f us none = write_at (length us) f (us ++ new_user ip ∷ [])
updated_at ip f us (some i) = write_at i f us

-- The list after a setter that writes `f` to the structure of `ip`, which it adds if it is missing.
abbrev pub updated : Env → Bytes → (UserInfo → UserInfo) → List UserInfo → List UserInfo
updated env ip f us = updated_at ip f us (env.hash_find (keys us) (key ip))

abbrev pub user_or_new : Bytes → Option UserInfo → UserInfo
user_or_new ip none = new_user ip
user_or_new ip (some u) = u

module _ (env : Env) (spec : IsHash env.hash_find) (f : UserInfo → UserInfo)
    (same : (u : UserInfo) → (f u).user_ip ≡ u.user_ip) (us : List UserInfo) (ip : Bytes) where
  updated_at_self :
      (o : Option ℕ)
      → env.hash_find (keys us) (key ip) ≡ o
      → session_in env (updated_at ip f us o) ip ≡ some (f (user_or_new ip (at_index us o)))
  updated_at_self none missing =
      let all = us ++ new_user ip ∷ [] in
      let ks = keys-write_at f same (length us) all ∙ keys-append us (new_user ip) in
      let place = spec.added (keys us) (key ip) missing in
      rw (ks, place, length-keys us)
        (get_elem?-write_at f (length us) all (get_elem?-append us [] (new_user ip)))
  updated_at_self (some i) found =
      let (u, here, _) = get_elem?-keys i us (spec.sound (keys us) (key ip) i found) in
      rw (keys-write_at f same i us, found, here) (get_elem?-write_at f i us here)

  pub session-updated_self :
      session_in env (updated env ip f us) ip ≡ some (f (user_or_new ip (session_in env us ip)))
  session-updated_self = updated_at_self (env.hash_find (keys us) (key ip)) refl

  updated_at_ne :
      (jp : Bytes) (o q : Option ℕ)
      → key ip ≢ key jp
      → env.hash_find (keys us) (key ip) ≡ o
      → env.hash_find (keys us) (key jp) ≡ q
      → session_in env (updated_at ip f us o) jp ≡ at_index us q
  updated_at_ne jp none q ne missing there =
      let all = us ++ new_user ip ∷ [] in
      let ks = keys-write_at f same (length us) all ∙ keys-append us (new_user ip) in
      rw (ks, spec.others (keys us) (key ip) (key jp) ne, there) (kept q there)
    where
      kept :
          (q : Option ℕ)
          → env.hash_find (keys us) (key jp) ≡ q
          → at_index (write_at (length us) f (us ++ new_user ip ∷ [])) q ≡ at_index us q
      kept none there = refl
      kept (some j) there =
          let (u, here, _) = get_elem?-keys j us (spec.sound (keys us) (key jp) j there) in
          let apart = index_ne us (length us) j (get_elem?-length us) here (λ e. cc) in
          get_elem?-write_at_ne f (length us) j (us ++ new_user ip ∷ []) apart
          ∙ get_elem?-append_left us (new_user ip ∷ []) j here
          ∙ sym here
  updated_at_ne jp (some i) none ne found away = rw (keys-write_at f same i us, away)
  updated_at_ne jp (some i) (some j) ne found there =
      let mine = spec.sound (keys us) (key ip) i found in
      let other = spec.sound (keys us) (key jp) j there in
      rw (keys-write_at f same i us, there)
        (get_elem?-write_at_ne f i j us (index_ne (keys us) i j mine other (λ e. ne cc)))

  pub session-updated_ne :
      (jp : Bytes)
      → key ip ≢ key jp
      → session_in env (updated env ip f us) jp ≡ session_in env us jp
  session-updated_ne jp ne = updated_at_ne jp _ _ ne refl refl
