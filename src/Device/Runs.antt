-- ===== src/Device/Runs.antt =====
-- Runs of composed functions, by the run of their first part.
use smart_door_lock_io_t.Common.{Option, none, some, ◌≡◌, refl, ap, subst}
use smart_door_lock_io_t.Device.{Device, Fault, Result, ok, fault, Exec, after, require, ◌>>=◌}

module _ {ℓ κ} {A : Type ℓ} {B : Type κ} where
  -- What holds of the faults of `m`, and of the runs of `f` behind the results of `m`.
  pub bind_elim :
      (m : Exec A) (f : A → Exec B) (d : Device) (Q : Result B × Device → Type κ)
      → ((e : Fault) (d' : Device) → m d ≡ (fault e, d') → Q (fault e, d'))
      → ((a : A) (d' : Device) → m d ≡ (ok a, d') → Q (f a d'))
      → Q ((m >>= f) d)
  unfolding ◌>>=◌
  bind_elim m f d Q stops goes = by_run (m d) refl
    where
      by_run : (r : Result A × Device) → m d ≡ r → Q (after r.0 r.1 f)
      by_run (ok a, d') run = goes a d' run
      by_run (fault e, d') run = stops e d' run

pub ok-fault : {A : Type 0} {a : A} {e : Fault} → fault e ≡ ok a → ⊥
ok-fault {A} h = subst (λ r. elim r as (λ x. Type 0) [ ok x ↦ ⊥ | fault f ↦ Unit ]) h tt

-- The result of a run, and the globals behind it.
pub ok-injective :
    {A : Type 0} {a b : A} {d d' : Device}
    → ◌≡◌ {A = Result A × Device} (ok a, d) (ok b, d')
    → (a ≡ b) × (d ≡ d')
ok-injective {a} e = (ap (λ r. elim r.0 [ ok x ↦ x | fault f ↦ a ]) e, ap (λ r. r.1) e)

-- A run that returns is made of two that do.
pub bind-ok :
    {A B : Type 0} (m : Exec A) (f : A → Exec B) (d d' : Device) (b : B)
    → (m >>= f) d ≡ (ok b, d')
    → (a : A) × ((d1 : Device) × ((m d ≡ (ok a, d1)) × (f a d1 ≡ (ok b, d'))))
bind-ok {A} {B} m f d d' b =
    bind_elim m f d
      (λ r.
        r ≡ (ok b, d') → (a : A) × ((d1 : Device) × ((m d ≡ (ok a, d1)) × (f a d1 ≡ (ok b, d')))))
      (λ e d1 run h. absurd (ok-fault (ap (λ r. r.0) h))) (λ a d1 run h. (a, (d1, (run, h))))

pub require-ok :
    {A : Type 0} (f : Fault) (o : Option A) (d d' : Device) (a : A)
    → require f o d ≡ (ok a, d')
    → (o ≡ some a) × (d ≡ d')
unfolding require
require-ok f none d d' a h = absurd (ok-fault (ap (λ r. r.0) h))
require-ok f (some x) d d' a h = let (e, same) = ok-injective h in (ap some e, same)

pub bind-run :
    {A B : Type 0} (m : Exec A) (f : A → Exec B) (d d' : Device) (a : A)
    → m d ≡ (ok a, d')
    → (m >>= f) d ≡ f a d'
unfolding ◌>>=◌
bind-run m f d d' a run = ap (λ r. after r.0 r.1 f) run
