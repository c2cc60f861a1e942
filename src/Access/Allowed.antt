-- ===== src/Access/Allowed.antt =====
-- What stands behind a granted use of the lock.
use smart_door_lock_io_t.Common.{
  Bytes, Bool, true, false, [], Option, none, some, str_eq, ◌≡◌, refl, ap, sym, subst, ◌∙◌, arith,
  if◌then◌else◌,
}
use smart_door_lock_io_t.Types.{Authorization, UserInfo, UserState, authorized}
use smart_door_lock_io_t.Platform.{Env, EspErr, esp_ok, is_ok}
use smart_door_lock_io_t.Device.{
  Device, ok, Exec, null_pointer, uninitialised, pure, raise, require, if_some, ◌>>=◌,
}
use smart_door_lock_io_t.Device.Runs.{ok-injective, ok-fault, bind-ok, require-ok}
use smart_door_lock_io_t.Nvs.{Buffer, unwritten, freed, filled, contents, get_authorization}
use smart_door_lock_io_t.Users.{get_user_info, get_user, get_user_state, get_phone_id}
use smart_door_lock_io_t.Users.Sessions.{session}
use smart_door_lock_io_t.Users.Setters.{get_user_info_lem}
use smart_door_lock_io_t.Access.{is_authorized, may_use, session_authorization, can_use_lock}

get_user-ok :
    (env : Env) (ip : Bytes) (d d' : Device) (u : UserInfo)
    → get_user env ip d ≡ (ok u, d')
    → (session env d ip ≡ some u) × (d ≡ d')
unfolding get_user
get_user-ok env ip d d' u h =
    let (o, (d1, (run, found))) = bind-ok (get_user_info env ip) (require null_pointer) d d' u h in
    let (same_o, same_d) = ok-injective (sym (get_user_info_lem env ip d) ∙ run) in
    let (is, same) = require-ok _ o d1 d' u found in (same_o ∙ is, same_d ∙ same)

get_user_state-ok :
    (env : Env) (ip : Bytes) (d d' : Device) (s : UserState)
    → get_user_state env ip d ≡ (ok s, d')
    → (u : UserInfo) × ((session env d ip ≡ some u) × ((u.state ≡ some s) × (d ≡ d')))
unfolding get_user_state
get_user_state-ok env ip d d' s h =
    let (u, (d1, (run, found))) =
      bind-ok (get_user env ip) (λ u. require uninitialised u.state) d d' s h in
    let (known, same) = get_user-ok env ip d d1 u run in
    let (state, same') = require-ok _ _ d1 d' s found in (u, (known, (state, same ∙ same')))

get_phone_id-ok :
    (env : Env) (ip : Bytes) (d d' : Device) (p : Option Bytes)
    → get_phone_id env ip d ≡ (ok p, d')
    → (u : UserInfo) × ((phone_id : Bytes) × ((session env d ip ≡ some u)
          × ((u.phone_id ≡ some phone_id)
              × (((if str_eq phone_id [] then none else some phone_id) ≡ p) × (d ≡ d')))))
unfolding get_phone_id pure
get_phone_id-ok env ip d d' p h =
    let (u, (d1, (run, h1))) = bind-ok (get_user env ip) _ d d' p h in
    let (w, (d2, (found, h2))) = bind-ok (require uninitialised u.phone_id) _ d1 d' p h1 in
    let (known, same) = get_user-ok env ip d d1 u run in
    let (is, same') = require-ok _ _ d1 d2 w found in
    let (text, same'') = ok-injective h2 in (u, (w, (known, (is, (text, same ∙ same' ∙ same'')))))

-- Whom a lock trusts: an authorized session with a phone id, and the authorization in the flash.
pub record IsTrusted (env : Env) (ip : Bytes) (d d' : Device) (auth : Authorization) : Type 0 where
  pub user : UserInfo
  pub phone_id : Bytes
  pub known : session env d ip ≡ some user
  pub is_authorized_user : user.state ≡ some authorized
  pub has_phone : user.phone_id ≡ some phone_id
  pub is_some_phone : str_eq phone_id [] ≡ false
  pub stored : get_authorization env phone_id d ≡ (ok (esp_ok, filled auth), d')

some-none : {A : Type 0} {a : A} → none ≡ some a → ⊥
some-none h = ground arith

some-injective : {A : Type 0} {a b : A} → some a ≡ some b → a ≡ b
some-injective {A} {a} h = ap (λ o. elim o [ none ↦ a | some x ↦ x ]) h

-- The run of a test that finds nothing where it fails.
if-some :
    {A : Type 0} (b : Bool) (m : Exec (Option A)) (d d' : Device) (a : A)
    → (if b then m else pure none) d ≡ (ok (some a), d')
    → (b ≡ true) × (m d ≡ (ok (some a), d'))
unfolding pure
if-some true m d d' a h = (refl, h)
if-some false m d d' a h = absurd (some-none (ok-injective h).0)

if_some-some :
    {A B : Type 0} (o : Option A) (f : A → Exec (Option B)) (d d' : Device) (b : B)
    → if_some o f (pure none) d ≡ (ok (some b), d')
    → (a : A) × ((o ≡ some a) × (f a d ≡ (ok (some b), d')))
unfolding pure
if_some-some none f d d' b h = absurd (some-none (ok-injective h).0)
if_some-some (some a) f d d' b h = (a, (refl, h))

state-authorized : (s : UserState) → is_authorized s ≡ true → s ≡ authorized
state-authorized s h = ground arith

err-ok : (e : EspErr) → is_ok e ≡ true → e ≡ esp_ok
err-ok e h = ground arith

phone-some :
    (b : Bool) (w p : Bytes) → (if b then none else some w) ≡ some p → (b ≡ false) × (w ≡ p)
phone-some true w p h = absurd (some-none h)
phone-some false w p h = (refl, some-injective h)

contents-ok :
    (b : Buffer) (d d' : Device) (auth : Authorization)
    → contents b d ≡ (ok auth, d')
    → (b ≡ filled auth) × (d ≡ d')
unfolding contents pure raise
contents-ok unwritten d d' auth h = absurd (ok-fault (ap (λ r. r.0) h))
contents-ok freed d d' auth h = absurd (ok-fault (ap (λ r. r.0) h))
contents-ok (filled a) d d' auth h = let (e, same) = ok-injective h in (ap filled e, same)

abbrev stored_in : (err : EspErr) → Buffer → Exec (Option Authorization)
stored_in err buffer =
    if is_ok err then (contents buffer >>= λ auth. pure (some auth)) else pure none

stored_in-ok :
    (err : EspErr) (b : Buffer) (d d' : Device) (auth : Authorization)
    → stored_in err b d ≡ (ok (some auth), d')
    → (err ≡ esp_ok) × ((b ≡ filled auth) × (d ≡ d'))
unfolding pure
stored_in-ok err b d d' auth h =
    let (is, h1) = if-some (is_ok err) (contents b >>= λ auth. pure (some auth)) d d' auth h in
    let (a, (d1, (run, h2))) =
      bind-ok (contents b) (λ auth. pure (some auth)) d d' (some auth) h1 in
    let (found, same) = contents-ok b d d1 a run in
    let (e, same') = ok-injective h2 in
    (err-ok err is, (found ∙ ap filled (some-injective e), same ∙ same'))

abbrev stored_for : Env → Bytes → Exec (Option Authorization)
stored_for env phone_id = get_authorization env phone_id >>= λ p. stored_in p.0 p.1

stored_for-ok :
    (env : Env) (phone_id : Bytes) (d d' : Device) (auth : Authorization)
    → stored_for env phone_id d ≡ (ok (some auth), d')
    → get_authorization env phone_id d ≡ (ok (esp_ok, filled auth), d')
stored_for-ok env phone_id d d' auth h =
    let (p, (d1, (run, h1))) =
      bind-ok (get_authorization env phone_id) (λ p. stored_in p.0 p.1) d d' (some auth) h in
    let (is, (found, same)) = stored_in-ok p.0 p.1 d1 d' auth h1 in
    run
    ∙ ap (λ e. (ok (e, p.1), d1)) is
    ∙ ap (λ b. (ok (esp_ok, b), d1)) found
    ∙ ap (λ e. (ok (esp_ok, filled auth), e)) same

pub session_authorization-IsTrusted :
    (env : Env) (ip : Bytes) (d d' : Device) (auth : Authorization)
    → session_authorization env ip d ≡ (ok (some auth), d')
    → IsTrusted env ip d d' auth
unfolding session_authorization
session_authorization-IsTrusted env ip d d' auth h =
    let (s, (d1, (run, h1))) = bind-ok (get_user_state env ip) _ d d' (some auth) h in
    let (is, h2) = if-some (is_authorized s) _ d1 d' auth h1 in
    let (o, (d2, (run', h3))) = bind-ok (get_phone_id env ip) _ d1 d' (some auth) h2 in
    let (p, (is_p, h4)) = if_some-some o (stored_for env) d2 d' auth h3 in
    let (u, (known_u, (state, same1))) = get_user_state-ok env ip d d1 s run in
    let (v, (w, (known_v, (phone, (text, same2))))) = get_phone_id-ok env ip d1 d2 o run' in
    let (is_some, w_p) = phone-some (str_eq w []) w p (text ∙ is_p) in
    let known : session env d ip ≡ some v =
      subst (λ e. session env e ip ≡ some v) (sym same1) known_v in
    let u_v = some-injective (sym known_u ∙ known) in
    record {
      user = v;
      phone_id = p;
      known = known;
      is_authorized_user = ap (λ u. u.state) (sym u_v) ∙ state ∙ ap some (state-authorized s is);
      has_phone = phone ∙ ap some w_p;
      is_some_phone = subst (λ x. str_eq x [] ≡ false) w_p is_some;
      stored =
          subst (λ e. get_authorization env p e ≡ (ok (esp_ok, filled auth), d'))
            (sym (same1 ∙ same2)) (stored_for-ok env p d2 d' auth h4);
    }

-- A use of the lock is granted only to an authorized session with a phone id, whose authorization is
-- read from the flash without an error, and only if the role of that authorization may use it now.
pub can_use_lock-IsTrusted :
    (env : Env) (ip : Bytes) (d d' : Device)
    → can_use_lock env ip d ≡ (ok true, d')
    → (auth : Authorization) × ((d1 : Device) × (IsTrusted env ip d d1 auth
          × (may_use env auth auth.user_type d1 ≡ (ok true, d'))))
unfolding can_use_lock pure
can_use_lock-IsTrusted env ip d d' h =
    let (o, (d1, (run, h1))) = bind-ok (session_authorization env ip) _ d d' true h in
    granted o d1 run h1
  where
    granted :
        (o : Option Authorization) (d1 : Device)
        → session_authorization env ip d ≡ (ok o, d1)
        → if_some o (λ auth. may_use env auth auth.user_type) (pure false) d1 ≡ (ok true, d')
        → (auth : Authorization) × ((d1 : Device) × (IsTrusted env ip d d1 auth
              × (may_use env auth auth.user_type d1 ≡ (ok true, d'))))
    granted none d1 run h1 = ground arith
    granted (some auth) d1 run h1 =
        (auth, (d1, (session_authorization-IsTrusted env ip d d1 auth run, h1)))
