-- ===== src/Access/Decisions.antt =====
-- What the access decisions grant.
use smart_door_lock_io_t.Common.{
  ℕ, ℤ, ◌≤◌, ◌≤ℤ◌, ◌<ℤ◌, leb_ℤ, ltb_ℤ, Bool, true, false, not, ◌&&◌, [], ◌∷◌, All, ltb, ◌≡◌, refl,
  ◌⊎◌, inl, inr, arith, if◌then◌else◌,
}
use smart_door_lock_io_t.Types.{
  UserType, admin, owner, tenant, periodic_user, one_time_user, no_role, user_type_code,
  Authorization,
}
use smart_door_lock_io_t.Platform.{Env}
use smart_door_lock_io_t.Device.{Device, Result, ok, fault, pure}
use smart_door_lock_io_t.Device.Runs.{bind_elim}
use smart_door_lock_io_t.Access.{tenant_may_use, may_use, role_may_invite, may_invite}

-- What the caller of a decision sees: a fault grants nothing.
abbrev pub grants : Result Bool → Bool
grants (ok b) = b
grants (fault e) = false

outside :
    (from until today : ℤ)
    → from <ℤ until
    → (not (ltb_ℤ from today) && not (ltb_ℤ today until)) ≡ false
outside from until today h = ground arith

tenant_may_use-refuses :
    (env : Env) (auth : Authorization) (d : Device)
    → auth.valid_from_ts <ℤ auth.valid_until_ts
    → grants (tenant_may_use env auth d).0 ≡ false
unfolding tenant_may_use pure
tenant_may_use-refuses env auth d window =
    bind_elim _ _ d (λ r. grants r.0 ≡ false) (λ e d' run. refl)
      (λ today d' run. outside auth.valid_from_ts auth.valid_until_ts today window)

-- A tenant or a periodic user whose period of validity is longer than one moment is refused at every
-- time, also inside of the period.
pub may_use-refuses :
    (env : Env) (auth : Authorization) (d : Device) (kind : UserType)
    → (kind ≡ tenant) ⊎ (kind ≡ periodic_user)
    → auth.valid_from_ts <ℤ auth.valid_until_ts
    → grants (may_use env auth kind d).0 ≡ false
unfolding may_use pure
may_use-refuses env auth d kind (inl e) window = rw e (tenant_may_use-refuses env auth d window)
may_use-refuses env auth d kind (inr e) window = rw e (
    bind_elim _ _ d (λ r. grants r.0 ≡ false) (λ e d' run. refl)
      (λ weekday d1 run.
        bind_elim _ _ d1 (λ r. grants r.0 ≡ false) (λ e d' run'. refl)
          (λ allowed d2 run'. if_allowed allowed d2)))
  where
    if_allowed :
        (b : Bool) (d2 : Device)
        → grants ((if b then tenant_may_use env auth else pure false) d2).0 ≡ false
    if_allowed true d2 = tenant_may_use-refuses env auth d2 window
    if_allowed false d2 = refl

-- Whoever may invite gives no higher role than his own (a lower number is a higher role), and is an
-- admin, an owner, or a tenant; a tenant's invite has all its times inside of his own period.
pub may_invite-bounds :
    (env : Env) (auth : Authorization) (kind : UserType) (valid_from valid_until one_day : ℤ)
    → may_invite env auth kind valid_from valid_until one_day ≡ true
    → (user_type_code auth.user_type ≤ user_type_code kind)
      × ((auth.user_type ≡ admin)
          ⊎ ((auth.user_type ≡ owner)
              ⊎ ((auth.user_type ≡ tenant)
                  × All
                      (λ ts. (auth.valid_from_ts ≤ℤ ts) × (ts ≤ℤ auth.valid_until_ts))
                      (valid_from ∷ valid_until ∷ one_day ∷ []))))
unfolding may_invite role_may_invite
may_invite-bounds env auth kind f u o h =
    let (r, q) = passed _ _ h in (rank _ _ r, by_role auth.user_type q)
  where
    passed : (t b : Bool) → (if t then false else b) ≡ true → (t ≡ false) × (b ≡ true)
    passed t b e = ground arith

    rank : (a b : ℕ) → ltb a b ≡ false → b ≤ a
    rank a b e = ground arith

    inside :
        (ts : ℤ)
        → (leb_ℤ auth.valid_from_ts ts && leb_ℤ ts auth.valid_until_ts) ≡ true
        → (auth.valid_from_ts ≤ℤ ts) × (ts ≤ℤ auth.valid_until_ts)
    inside ts e = ground arith

    all_three : (a b c : Bool) → (a && b && c) ≡ true → (a ≡ true) × ((b ≡ true) × (c ≡ true))
    all_three a b c e = ground arith

    by_role :
        (role : UserType)
        → role_may_invite env auth role f u o ≡ true
        → (role ≡ admin)
          ⊎ ((role ≡ owner)
              ⊎ ((role ≡ tenant)
                  × All
                      (λ ts. (auth.valid_from_ts ≤ℤ ts) × (ts ≤ℤ auth.valid_until_ts))
                      (f ∷ u ∷ o ∷ [])))
    by_role admin e = inl refl
    by_role owner e = inr (inl refl)
    by_role tenant e =
        let (x, (y, z)) = all_three _ _ _ e in
        inr (inr (refl, (inside f x, (inside u y, (inside o z, tt)))))
    by_role periodic_user e = ground arith
    by_role one_time_user e = ground arith
    by_role (no_role n) e = ground arith
