-- ===== src/Handler/Unlock.antt =====
-- When `checkCommand` opens the lock.
use smart_door_lock_io_t.Common.{
  ℤ, Bytes, Bool, true, false, List, Option, none, some, codes, str_eq, str_eq-eq, ◌≡◌, refl, subst,
  inl, inr, ap, ◌∙◌, ◌⊎◌, if◌then◌else◌,
}
use smart_door_lock_io_t.Platform.{Env, EspErr}
use smart_door_lock_io_t.Device.{
  Device, Result, ok, Exec, null_pointer, pure, require, if_some, ◌>>=◌,
}
use smart_door_lock_io_t.Device.Keeps.{Keeps, Keeps-bind, Keeps-pure}
use smart_door_lock_io_t.Device.Runs.{bind_elim}
use smart_door_lock_io_t.Quiet.Platform.{set_ble_user_state_to_connecting-Keeps}
use smart_door_lock_io_t.Quiet.Decisions.{
  get_args-Keeps, verify_timestamps_and_nonce-Keeps, can_use_lock-Keeps,
}
use smart_door_lock_io_t.Quiet.Commands.{
  send_auth_credentials-Keeps, send_notification_command-Keeps, request_new_invite-Keeps,
  request_first_invite-Keeps, request_user_invite-Keeps,
}
use smart_door_lock_io_t.Args.{get_command, get_args}
use smart_door_lock_io_t.Access.{verify_timestamps_and_nonce, can_use_lock}
use smart_door_lock_io_t.LockCommands.{nak_message, move_lock, request_move, request_unlock_door}
use smart_door_lock_io_t.LockStatus.{unlock_lock}
use smart_door_lock_io_t.Handler.{dispatch, check_command}
use smart_door_lock_io_t.Handler.Safety.{
  unlocks, StaysShut, StaysShut-IsQuiet, request_lock_door-Keeps, request_door_state-Keeps,
}

-- The three checks that a run of the unlock branch passed, in their order.
pub record IsGranted (env : Env) (cmd user_ip : Bytes) (d : Device) : Type 0 where
  pub args : List Bytes
  pub parsed : Device
  pub verified : Device
  pub allowed : Device
  pub has_words : get_args env cmd 3 d ≡ (ok (some args), parsed)
  pub is_fresh : verify_timestamps_and_nonce env args 0 parsed ≡ (ok true, verified)
  pub can_use : can_use_lock env user_ip verified ≡ (ok true, allowed)

module _ (env : Env) (cmd ip : Bytes) (d : Device) where
  abbrev Shut : Device → Type 0
  Shut = StaysShut (unlocks d.trace) d.led_status

  abbrev Verdict : {A : Type 0} → Result A × Device → Type 0
  Verdict r = Shut r.1 ⊎ IsGranted env cmd ip d

  -- Behind a function that keeps the door shut.
  Shut-then :
      {A B : Type 0} (m : Exec A) (f : A → Exec B) (d' : Device)
      → Shut d'
      → Keeps Shut m
      → ((a : A) (e : Device) → Shut e → m d' ≡ (ok a, e) → Verdict (f a e))
      → Verdict ((m >>= f) d')
  Shut-then m f d' shut kept next =
      bind_elim m f d' Verdict (λ e d1 run. inl (subst Shut (ap (λ r. r.1) run) (kept.at d' shut)))
        (λ a d1 run. next a d1 (subst Shut (ap (λ r. r.1) run) (kept.at d' shut)) run)

  -- In front of a function that keeps the door shut.
  Verdict-then :
      {A B : Type 0} (m : Exec A) (f : A → Exec B) (d' : Device)
      → Verdict (m d')
      → ((a : A) → Keeps Shut (f a))
      → Verdict ((m >>= f) d')
  Verdict-then m f d' (inr granted) kept = inr granted
  Verdict-then m f d' (inl shut) kept =
      bind_elim m f d' Verdict (λ e d1 run. inl (subst Shut (ap (λ r. r.1) run) shut))
        (λ a d1 run. inl ((kept a).at d1 (subst Shut (ap (λ r. r.1) run) shut)))

  start : Shut d
  start = (refl, inl refl)

  move-Verdict :
      (args : List Bytes) (d1 : Device)
      → get_args env cmd 3 d ≡ (ok (some args), d1)
      → Shut d1
      → Verdict (move_lock env (unlock_lock env) args ip d1)
  unfolding move_lock pure
  move-Verdict args d1 words shut =
      Shut-then _ _ d1 shut (verify_timestamps_and_nonce-Keeps env StaysShut-IsQuiet args 0)
        after_fresh
    where
      after_allowed :
          (b : Bool) (d2 d3 : Device)
          → verify_timestamps_and_nonce env args 0 d1 ≡ (ok true, d2)
          → can_use_lock env ip d2 ≡ (ok b, d3)
          → Shut d3
          → Verdict ((if b then (unlock_lock env >>= λ _. pure true) else pure false) d3)
      after_allowed false d2 d3 fresh can shut' = inl shut'
      after_allowed true d2 d3 fresh can shut' = inr (record {
        args = args;
        parsed = d1;
        verified = d2;
        allowed = d3;
        has_words = words;
        is_fresh = fresh;
        can_use = can;
      })

      after_fresh :
          (b : Bool) (d2 : Device)
          → Shut d2
          → verify_timestamps_and_nonce env args 0 d1 ≡ (ok b, d2)
          → Verdict (
              (if b
                  then (can_use_lock env ip >>= λ allowed.
                      if allowed then (unlock_lock env >>= λ _. pure true) else pure false)
                  else pure false)
                d2)
      after_fresh false d2 shut' fresh = inl shut'
      after_fresh true d2 shut' fresh =
          Shut-then _ _ d2 shut' (can_use_lock-Keeps env StaysShut-IsQuiet ip)
            (λ b d3 shut'' can. after_allowed b d2 d3 fresh can shut'')

  Verdict-if_some :
      {A B : Type 0} (o : Option A) (f : A → Exec B) (n : Exec B) (d1 : Device)
      → ((a : A) → o ≡ some a → Verdict (f a d1))
      → Verdict (n d1)
      → Verdict (if_some o f n d1)
  Verdict-if_some none f n d1 found missing = missing
  Verdict-if_some (some a) f n d1 found missing = found a refl

  unlock-Verdict : Verdict (request_unlock_door env cmd ip d)
  unfolding request_unlock_door request_move pure
  unlock-Verdict = Shut-then _ _ d start (get_args-Keeps env cmd 3) λ words d1 shut run.
      Verdict-if_some words _ _ d1
        (λ args e.
          Verdict-then _ _ d1 (move-Verdict args d1 (run ∙ ap (λ w. (ok w, d1)) e) shut) (λ ack.
            Keeps-bind _ _ (set_ble_user_state_to_connecting-Keeps env StaysShut-IsQuiet)
              (λ _. Keeps-pure _)))
        (inl shut)

  abbrev Final : {A : Type 0} → Result A × Device → Type 0
  Final r = Shut r.1 ⊎ ((get_command cmd ≡ some (codes "RUD")) × IsGranted env cmd ip d)

  record IsSafe {A : Type 0} (m : Exec A) : Type 0 where
    at_d : Final (m d)

  -- One branch of the ladder of command words.
  other_word :
      {A : Type 0} (b : Bool) (m n : Exec A) → Keeps Shut m → IsSafe n → IsSafe (if b then m else n)
  other_word true m n kept later = record { at_d = inl (kept.at d start) }
  other_word false m n kept later = later

  unlock_word :
      (c : Bytes) (b : Bool) (n : Exec (Option Bytes))
      → get_command cmd ≡ some c
      → str_eq c (codes "RUD") ≡ b
      → Verdict (request_unlock_door env cmd ip d)
      → IsSafe n
      → IsSafe (if b then request_unlock_door env cmd ip else n)
  unlock_word c true n word equal (inl shut) later = record { at_d = inl shut }
  unlock_word c true n word equal (inr granted) later = record {
    at_d = inr (word ∙ ap some (str_eq-eq c (codes "RUD") equal), granted);
  }
  unlock_word c false n word equal verdict later = later

  dispatch-IsSafe :
      (number : EspErr → ℤ) (c : Bytes)
      → get_command cmd ≡ some c
      → IsSafe (dispatch env number c cmd ip)
  unfolding dispatch
  dispatch-IsSafe number c word =
      let quiet = StaysShut-IsQuiet in
      other_word (str_eq c (codes "SAC")) _ _ (send_auth_credentials-Keeps env quiet cmd ip) (
        unlock_word c _ _ word refl unlock-Verdict (
          other_word (str_eq c (codes "RLD")) _ _ (request_lock_door-Keeps env cmd ip) (
            other_word (str_eq c (codes "RNI")) _ _ (request_new_invite-Keeps env quiet cmd ip) (
              other_word (str_eq c (codes "RFI")) _ _ (request_first_invite-Keeps env quiet cmd) (
                other_word (str_eq c (codes "RUI")) _ _ (request_user_invite-Keeps env quiet cmd ip)
                  (other_word (str_eq c (codes "SNT")) _ _
                    (send_notification_command-Keeps env quiet cmd ip)
                    (other_word (str_eq c (codes "RDS")) _ _
                      (request_door_state-Keeps env number cmd ip)
                      (record {
                        at_d = inl (
                            (Keeps-bind _ _ (set_ble_user_state_to_connecting-Keeps env quiet)
                                (λ _. Keeps-pure (some nak_message))).at
                              d start);
                      }))))))))

-- Whatever command arrives, and whether or not it is stopped by a fault: either the flash is never
-- told that the lock is open and the LED shows what it showed or a locked door; or the command word
-- is RUD, three words follow it, they pass as timestamps and nonce, and the sender may use the lock.
pub check_command-unlocks :
    (env : Env) (number : EspErr → ℤ) (cmd ip : Bytes) (d : Device)
    → StaysShut (unlocks d.trace) d.led_status (check_command env number cmd ip d).1
      ⊎ ((get_command cmd ≡ some (codes "RUD")) × IsGranted env cmd ip d)
unfolding check_command require ◌>>=◌
check_command-unlocks env number cmd ip d = by_word (get_command cmd) refl
  where
    by_word :
        (o : Option Bytes)
        → get_command cmd ≡ o
        → Final env cmd ip d ((require null_pointer o >>= λ c. dispatch env number c cmd ip) d)
    by_word none missing = inl (start env cmd ip d)
    by_word (some c) word = (dispatch-IsSafe env cmd ip d number c word).at_d
