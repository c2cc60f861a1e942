-- ===== src/InviteCommands/Tenants.antt =====
-- What the terms of RNI and the test of canCreateInvite come to for a tenant.
use smart_door_lock_io_t.Common.{
  ℤ, pos, negsuc, ◌≤ℤ◌, leb_ℤ, Bytes, Bool, false, ◌&&◌, List, ◌≡◌, refl, subst, ap, ◌∙◌, ◌⊎◌, inl,
  inr, arith, if◌then◌else◌,
}
use smart_door_lock_io_t.Types.{
  UserType, admin, owner, tenant, periodic_user, one_time_user, no_role, Authorization,
}
use smart_door_lock_io_t.Platform.{Env}
use smart_door_lock_io_t.Device.{Device, Result, ok, fault, pure}
use smart_door_lock_io_t.Device.Runs.{bind_elim}
use smart_door_lock_io_t.Access.{role_may_invite, may_invite}
use smart_door_lock_io_t.InviteCommands.{Terms, terms_of_args}

-- A period or a day is left out, so its place holds -1.
abbrev HasGap : Result Terms × Device → Type 0
HasGap (ok terms, d) = (terms.valid_from ≡ negsuc 0) ⊎ (terms.one_day ≡ negsuc 0)
HasGap (fault e, d) = Unit

terms_of_args-HasGap :
    (args : List Bytes) (kind : UserType) (d : Device) → HasGap (terms_of_args args kind d)
unfolding terms_of_args pure
terms_of_args-HasGap args admin d = inl refl
terms_of_args-HasGap args owner d = inl refl
terms_of_args-HasGap args tenant d =
    bind_elim _ _ d HasGap (λ e d' run. tt)
      λ f d1 run. bind_elim _ _ d1 HasGap (λ e d' run. tt) λ u d2 run'. inr refl
terms_of_args-HasGap args periodic_user d =
    bind_elim _ _ d HasGap (λ e d' run. tt)
      λ f d1 run.
        bind_elim _ _ d1 HasGap (λ e d' run. tt)
          λ u d2 run'. bind_elim _ _ d2 HasGap (λ e d' run. tt) λ w d3 run''. inr refl
terms_of_args-HasGap args one_time_user d =
    bind_elim _ _ d HasGap (λ e d' run. tt) λ o d1 run. inl refl
terms_of_args-HasGap args (no_role n) d = inl refl

before_start :
    (from until : ℤ) → pos 0 ≤ℤ from → (leb_ℤ from (negsuc 0) && leb_ℤ (negsuc 0) until) ≡ false
before_start from until h = ground arith

and-false : (a b c : Bool) → (a ≡ false) ⊎ (c ≡ false) → (a && b && c) ≡ false
and-false a b c h = ground arith

if-false : (t b : Bool) → b ≡ false → (if t then false else b) ≡ false
if-false t b h = ground arith

gap_refused :
    (env : Env) (auth : Authorization) (f u o : ℤ)
    → pos 0 ≤ℤ auth.valid_from_ts
    → (f ≡ negsuc 0) ⊎ (o ≡ negsuc 0)
    → role_may_invite env auth tenant f u o ≡ false
unfolding role_may_invite
gap_refused env auth f u o start gap = and-false (inside f) (inside u) (inside o) (by_gap gap)
  where
    inside : ℤ → Bool
    inside ts = leb_ℤ auth.valid_from_ts ts && leb_ℤ ts auth.valid_until_ts

    by_gap : (f ≡ negsuc 0) ⊎ (o ≡ negsuc 0) → (inside f ≡ false) ⊎ (inside o ≡ false)
    by_gap (inl e) = inl (ap inside e ∙ before_start auth.valid_from_ts auth.valid_until_ts start)
    by_gap (inr e) = inr (ap inside e ∙ before_start auth.valid_from_ts auth.valid_until_ts start)

-- Whatever role a tenant asks for with RNI, canCreateInvite refuses: the terms of every role have -1
-- for a time that it compares with the tenant's period, if that period does not begin before 1970.
pub tenant_may_not_invite :
    (env : Env) (auth : Authorization) (args : List Bytes) (kind : UserType) (d d' : Device)
    (terms : Terms)
    → auth.user_type ≡ tenant
    → pos 0 ≤ℤ auth.valid_from_ts
    → terms_of_args args kind d ≡ (ok terms, d')
    → may_invite env auth terms.kind terms.valid_from terms.valid_until terms.one_day ≡ false
unfolding may_invite
tenant_may_not_invite env auth args kind d d' terms is start run =
    if-false _ (role_may_invite env auth auth.user_type _ _ _) (
      ap (λ role. role_may_invite env auth role terms.valid_from terms.valid_until terms.one_day) is
      ∙ gap_refused env auth terms.valid_from terms.valid_until terms.one_day start
          (subst HasGap run (terms_of_args-HasGap args kind d)))
