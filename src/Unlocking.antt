-- ===== src/Unlocking.antt =====
-- How a message opens the lock, whichever way it comes in: what a function keeps that decrypts a
-- message under the key of a session and hands the command to `checkCommand`.
use smart_door_lock_io_t.Common.{
  ℤ, Bytes, Bool, true, false, Option, some, codes, if◌then◌else◌, ◌≡◌, refl, ◌∷◌, ap, subst, ◌⊎◌,
  inl, inr, ◌∙◌,
}
use smart_door_lock_io_t.Platform.{Env, EspErr, Event}
use smart_door_lock_io_t.Device.{Device, ok, Exec, gets, modify, ◌>>=◌}
use smart_door_lock_io_t.Device.Keeps.{Keeps}
use smart_door_lock_io_t.Device.Runs.{bind_elim}
use smart_door_lock_io_t.Quiet.{IsQuiet, is_lock_event}
use smart_door_lock_io_t.Quiet.Messages.{session_aes-Keeps, decrypt_base64_aes-Keeps}
use smart_door_lock_io_t.Session.{session_aes}
use smart_door_lock_io_t.Aes.{decrypt_base64_aes}
use smart_door_lock_io_t.Args.{get_command}
use smart_door_lock_io_t.Handler.{check_command}
use smart_door_lock_io_t.Handler.Safety.{unlocks, StaysShut, StaysShut-IsQuiet}
use smart_door_lock_io_t.Handler.Unlock.{IsGranted, check_command-unlocks}

-- The data is, in a state in which it is taken up, an unlock command that passes its checks: the run
-- of the handler from that state on reads the key of the session, decrypts the data, and then parses
-- and checks the command, each in the state that the one before leaves.
pub record IsUnlocking (env : Env) (data' addr : Bytes) (TakenUp : Device → Type 0) : Type 0 where
  pub before : Device
  pub taken_up : TakenUp before
  pub aes : Bytes
  pub received : Device
  pub key_of_session : session_aes env addr before ≡ (ok aes, received)
  pub cmd : Bytes
  pub decrypted : Device
  pub decrypts : decrypt_base64_aes env aes data' received ≡ (ok cmd, decrypted)
  pub is_unlock : get_command cmd ≡ some (codes "RUD")
  pub granted : IsGranted env cmd addr decrypted

-- A quiet predicate that a run keeps which leaves the lock shut.
pub record IsClosing (P : Device → Type 0) : Type 0 where
  pub quiet : IsQuiet P
  pub extends : (d e : Device) → P d → StaysShut (unlocks d.trace) d.led_status e → P e

pub StaysShut-IsClosing :
    (start : Device) → IsClosing (StaysShut (unlocks start.trace) start.led_status)
StaysShut-IsClosing start = record { quiet = StaysShut-IsQuiet; extends = follow }
  where
    follow :
        (d e : Device)
        → StaysShut (unlocks start.trace) start.led_status d
        → StaysShut (unlocks d.trace) d.led_status e
        → StaysShut (unlocks start.trace) start.led_status e
    follow d e (count, led) (count', inr shut) = (count' ∙ count, inr shut)
    follow d e (count, inl is) (count', inl same) = (count' ∙ count, inl (same ∙ is))
    follow d e (count, inr is) (count', inl same) = (count' ∙ count, inr (same ∙ is))

module _ (env : Env) (number : EspErr → ℤ) (data' addr : Bytes) (TakenUp : Device → Type 0)
    {P : Device → Type 0} (closing : IsClosing P) where
  abbrev pub Safe : Device → Type 0
  Safe d = P d ⊎ IsUnlocking env data' addr TakenUp

  pub Safe-IsQuiet : IsQuiet Safe
  Safe-IsQuiet = record {
    events = λ e h. record { ignore = λ d p. seen e h d p };
    nonces = λ d l p. kept d (record d { nonces = l }) (closing.quiet.nonces d l) p;
    users = λ d l p. kept d (record d { users_info = l }) (closing.quiet.users d l) p;
    status = λ d r p. kept d (record d { registration_status = r }) (closing.quiet.status d r) p;
  }
    where
      kept : (d e : Device) → (P d → P e) → Safe d → Safe e
      kept d e step (inl p) = inl (step p)
      kept d e step (inr u) = inr u

      seen :
          (e : Event)
          → is_lock_event e ≡ false
          → (d : Device) → Safe d
          → Safe (record d { trace = e ∷ d.trace })
      seen e h d (inl p) = inl ((closing.quiet.events e h).ignore d p)
      seen e h d (inr u) = inr u

  handled :
      (aes cmd : Bytes) (d0 d d1 : Device)
      → TakenUp d0
      → session_aes env addr d0 ≡ (ok aes, d)
      → decrypt_base64_aes env aes data' d ≡ (ok cmd, d1)
      → Safe d1
      → Safe (check_command env number cmd addr d1).1
  handled aes cmd d0 d d1 taken key run (inr u) = inr u
  handled aes cmd d0 d d1 taken key run (inl p) =
      elim (check_command-unlocks env number cmd addr d1) [
        | inl shut ↦ inl (closing.extends d1 (check_command env number cmd addr d1).1 p shut)
        | inr (word, granted) ↦ inr (record {
          before = d0;
          taken_up = taken;
          aes = aes;
          received = d;
          key_of_session = key;
          cmd = cmd;
          decrypted = d1;
          decrypts = run;
          is_unlock = word;
          granted = granted;
        })
      ]

  -- A result or a fault, kept behind a run.
  kept_behind :
      {A B : Type 0} (m : Exec A) (f : A → Exec B) (d : Device)
      → Safe (m d).1
      → ((a : A) (d1 : Device) → m d ≡ (ok a, d1) → Safe d1 → Safe (f a d1).1)
      → Safe ((m >>= f) d).1
  kept_behind m f d safe next =
      bind_elim m f d (λ r. Safe r.1) (λ e d1 run. subst Safe (ap (λ r. r.1) run) safe)
        (λ a d1 run. next a d1 run (subst Safe (ap (λ r. r.1) run) safe))

  -- A run from a state with `H` stays safe.
  pub record Safely (H : Device → Type 0) {A : Type 0} (m : Exec A) : Type 0 where
    pub safely : (d : Device) → H d → Safe d → Safe (m d).1

  -- What keeps the lock shut is safe.
  pub Safe-Keeps : {A : Type 0} (m : Exec A) → Keeps P m → Keeps Safe m
  Safe-Keeps m kept = record { at = kept_safe }
    where
      kept_safe : (d : Device) → Safe d → Safe (m d).1
      kept_safe d (inl p) = inl (kept.at d p)
      kept_safe d (inr u) = inr u

  -- The message is decrypted and handled, and something follows that keeps what is safe.
  pub handles-Safely :
      {A : Type 0} (follow : Bytes → Option Bytes → Exec A)
      → ((aes : Bytes) (answer : Option Bytes) → Keeps Safe (follow aes answer))
      → Safely TakenUp (
          session_aes env addr >>= λ aes. decrypt_base64_aes env aes data' >>= λ cmd.
          check_command env number cmd addr >>= λ answer. follow aes answer)
  handles-Safely follow keeps = record {
    safely = λ d0 taken p0.
        kept_behind (session_aes env addr) _ d0 ((session_aes-Keeps env Safe-IsQuiet addr).at d0 p0)
          (λ aes d key p.
            kept_behind (decrypt_base64_aes env aes data') _ d
              ((decrypt_base64_aes-Keeps env Safe-IsQuiet aes data').at d p)
              (λ cmd d1 run safe.
                kept_behind (check_command env number cmd addr) _ d1
                  (handled aes cmd d0 d d1 taken key run safe)
                  (λ answer d2 run' safe'. (keeps aes answer).at d2 safe')));
  }

-- The state behind a run of `m` that gave `a`, from a state with `H`.
abbrev pub Behind : {A : Type 0} → (Device → Type 0) → Exec A → A → Device → Type 0
Behind H m a d1 = (d : Device) × H d × (m d ≡ (ok a, d1))

pub Behind-Keeps :
    {A : Type 0} (H : Device → Type 0) (m : Exec A) (a : A) (d1 : Device)
    → Keeps H m
    → Behind H m a d1
    → H d1
Behind-Keeps H m a d1 kept (d, h, run) = subst H (ap (λ r. r.1) run) (kept.at d h)

-- The rules for such functions.
module _ {env : Env} {number : EspErr → ℤ} {data' addr : Bytes} {TakenUp : Device → Type 0}
    {P : Device → Type 0} {closing : IsClosing P} where
  pub Safely-quiet :
      {H : Device → Type 0} {A : Type 0} (m : Exec A)
      → Keeps (Safe env number data' addr TakenUp closing) m
      → Safely env number data' addr TakenUp closing H m
  Safely-quiet m kept = record { safely = λ d held. kept.at d }

  pub Safely-from :
      {H K : Device → Type 0} {A : Type 0} (m : Exec A)
      → ((d : Device) → H d → K d)
      → Safely env number data' addr TakenUp closing K m
      → Safely env number data' addr TakenUp closing H m
  Safely-from m implies safe = record { safely = λ d h. safe.safely d (implies d h) }

  pub Safely-if :
      {H : Device → Type 0} {A : Type 0} (b : Bool) (m n : Exec A)
      → (b ≡ true → Safely env number data' addr TakenUp closing H m)
      → (b ≡ false → Safely env number data' addr TakenUp closing H n)
      → Safely env number data' addr TakenUp closing H (if b then m else n)
  Safely-if true m n p q = p refl
  Safely-if false m n p q = q refl

  pub Safely-bind :
      {H : Device → Type 0} {A B : Type 0} (m : Exec A) (f : A → Exec B)
      → Keeps (Safe env number data' addr TakenUp closing) m
      → ((a : A) → Safely env number data' addr TakenUp closing (Behind H m a) (f a))
      → Safely env number data' addr TakenUp closing H (m >>= f)
  Safely-bind m f safe next = record {
    safely = λ d h p.
        kept_behind env number data' addr TakenUp closing m f d (safe.at d p)
          (λ a d1 run. (next a).safely d1 (d, h, run));
  }

  -- A function that leaves `H` as it is.
  pub Safely-over :
      {H : Device → Type 0} {A B : Type 0} (m : Exec A) (f : A → Exec B)
      → Keeps H m
      → Keeps (Safe env number data' addr TakenUp closing) m
      → ((a : A) → Safely env number data' addr TakenUp closing H (f a))
      → Safely env number data' addr TakenUp closing H (m >>= f)
  Safely-over {H} m f kept safe next =
      Safely-bind m f safe (λ a. Safely-from (f a) (λ d1 b. Behind-Keeps H m a d1 kept b) (next a))

  pub Safely-gets :
      {H : Device → Type 0} {A B : Type 0} (f : Device → A) (k : A → Exec B)
      → ((a : A) → Safely env number data' addr TakenUp closing (λ d. H d × (f d ≡ a)) (k a))
      → Safely env number data' addr TakenUp closing H (gets f >>= k)
  unfolding gets ◌>>=◌
  Safely-gets f k next = record { safely = λ d h p. (next (f d)).safely d (h, refl) p }

  pub Safely-modify :
      {H : Device → Type 0} {B : Type 0} (f : Device → Device) (k : Unit {0} → Exec B)
      → Keeps (Safe env number data' addr TakenUp closing) (modify f)
      → Safely env number data' addr TakenUp closing (λ e. (d : Device) × H d × (e ≡ f d)) (k tt)
      → Safely env number data' addr TakenUp closing H (modify f >>= k)
  unfolding modify ◌>>=◌
  Safely-modify f k kept next = record {
    safely = λ d h p. next.safely (f d) (d, h, refl) (kept.at d p);
  }

  pub Safely-then :
      {H : Device → Type 0} {A B : Type 0} (m : Exec A) (f : A → Exec B)
      → Safely env number data' addr TakenUp closing H m
      → ((a : A) → Keeps (Safe env number data' addr TakenUp closing) (f a))
      → Safely env number data' addr TakenUp closing H (m >>= f)
  Safely-then m f first next = record {
    safely = λ d h p.
        kept_behind env number data' addr TakenUp closing m f d (first.safely d h p)
          (λ a d1 run. (next a).at d1);
  }
