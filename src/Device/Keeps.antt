-- ===== src/Device/Keeps.antt =====
-- Invariants of the firmware's functions, one rule for each way to build a function. A predicate is
-- kept also when the function stops by a fault.
use smart_door_lock_io_t.Common.{Bool, true, false, Option, none, some, ◌∷◌, if◌then◌else◌}
use smart_door_lock_io_t.Platform.{Event, Trace}
use smart_door_lock_io_t.Device.{
  Device, Fault, Result, ok, fault, Exec, pure, raise, require, call, gets, emit, modify, if_some,
  after, ◌>>=◌,
}

pub record Keeps {ℓ} {A : Type ℓ} (P : Device → Type 0) (m : Exec A) : Type ℓ where
  pub at : (d : Device) → P d → P (m d).1

-- `P` does not look at the event `e`.
pub record Ignores (P : Device → Type 0) (e : Event) : Type 0 where
  pub ignore : (d : Device) → P d → P (record d { trace = e ∷ d.trace })

module _ {P : Device → Type 0} where
  pub Keeps-pure {ℓ} : {A : Type ℓ} (a : A) → Keeps P (pure a)
  unfolding pure
  Keeps-pure a = record { at = λ d h. h }

  pub Keeps-raise {ℓ} : {A : Type ℓ} (f : Fault) → Keeps P (raise {A = A} f)
  unfolding raise
  Keeps-raise f = record { at = λ d h. h }

  pub Keeps-require {ℓ} : {A : Type ℓ} (f : Fault) (o : Option A) → Keeps P (require f o)
  unfolding require
  Keeps-require f none = record { at = λ d h. h }
  Keeps-require f (some a) = record { at = λ d h. h }

  pub Keeps-gets {ℓ} : {A : Type ℓ} (f : Device → A) → Keeps P (gets f)
  unfolding gets
  Keeps-gets f = record { at = λ d h. h }

  pub Keeps-call {ℓ} :
      {A : Type ℓ} (e : Event) (answer : Trace → A) → Ignores P e → Keeps P (call e answer)
  unfolding call
  Keeps-call e answer i = record { at = λ d h. i.ignore d h }

  pub Keeps-emit : (e : Event) → Ignores P e → Keeps P (emit e)
  unfolding emit
  Keeps-emit e i = record { at = λ d h. i.ignore d h }

  pub Keeps-modify : (f : Device → Device) → ((d : Device) → P d → P (f d)) → Keeps P (modify f)
  unfolding modify
  Keeps-modify f k = record { at = k }

  pub Keeps-if {ℓ} :
      {A : Type ℓ} (b : Bool) (m n : Exec A) → Keeps P m → Keeps P n → Keeps P (if b then m else n)
  Keeps-if true m n km kn = km
  Keeps-if false m n km kn = kn

  pub Keeps-if_some {ℓ κ} :
      {A : Type ℓ} {B : Type κ} (o : Option A) (f : A → Exec B) (m : Exec B)
      → ((a : A) → Keeps P (f a))
      → Keeps P m
      → Keeps P (if_some o f m)
  Keeps-if_some none f m kf km = km
  Keeps-if_some (some a) f m kf km = kf a

  pub Keeps-bind {ℓ κ} :
      {A : Type ℓ} {B : Type κ} (m : Exec A) (f : A → Exec B)
      → Keeps P m
      → ((a : A) → Keeps P (f a))
      → Keeps P (m >>= f)
  unfolding ◌>>=◌
  Keeps-bind {B} m f km kf = record {
    at = λ d h. let (r, d') = m d in after_Keeps r d' (km.at d h);
  }
    where
      after_Keeps : (r : Result _) (d : Device) → P d → P (after r d f).1
      after_Keeps (ok a) d h = (kf a).at d h
      after_Keeps (fault e) d h = h

pub ruleset keeps_rules = (
  Keeps-pure, Keeps-raise, Keeps-require, Keeps-gets, Keeps-call, Keeps-emit, Keeps-if,
  Keeps-if_some, Keeps-bind,
)
