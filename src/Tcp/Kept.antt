-- ===== src/Tcp/Kept.antt =====
-- What a TCP connection leaves alone: the flash is not told that the lock is open, and the LED does
-- not turn to unlocked.
use smart_door_lock_io_t.Common.{
  ℕ, zero, suc, ℤ, Bytes, Option, none, some, ◌≡◌, refl, arith, ◌⊎◌, inl, inr, ◌∙◌,
}
use smart_door_lock_io_t.Types.{LedStatus, led_locked, led_idle}
use smart_door_lock_io_t.Platform.{
  Env, Event, tcp_send, tcp_close, timer_query, timer_create, timer_start, timer_stop, sleep_second,
}
use smart_door_lock_io_t.Device.{Device}
use smart_door_lock_io_t.Device.Keeps.{
  Keeps, Ignores, Keeps-bind, Keeps-if, Keeps-gets, Keeps-modify, Keeps-emit, Keeps-pure,
  Keeps-raise, Keeps-call, keeps_rules,
}
use smart_door_lock_io_t.LockStatus.Led.{update_led_color-Keeps}
use smart_door_lock_io_t.LockStatus.{set_led_status, disconnect_lock}
use smart_door_lock_io_t.Power.{
  asks_timer, timer_runs, wait_for_timer, cancel_deep_sleep_timer, start_deep_sleep_timer,
  default_sleep_time,
}
use smart_door_lock_io_t.Users.{get_user_aes_ctx}
use smart_door_lock_io_t.Quiet.{IsQuiet}
use smart_door_lock_io_t.Quiet.Platform.{set_user_state-Keeps, get_user-Keeps}
use smart_door_lock_io_t.Quiet.Storage.{error_check-Keeps}
use smart_door_lock_io_t.Handler.Safety.{
  is_unlocking, unlocks, StaysShut, quiet-is_unlocking, led-is_unlocking,
}
use smart_door_lock_io_t.Unlocking.{IsClosing}
use smart_door_lock_io_t.Tcp.{send_rest, disconnect_sock}

-- The flash was told `n` times that the lock is open, and the LED shows `s`, locked or idle.
abbrev pub StaysClosed : ℕ → LedStatus → Device → Type 0
StaysClosed n s d =
    (unlocks d.trace ≡ n)
    × ((d.led_status ≡ s) ⊎ ((d.led_status ≡ led_locked) ⊎ (d.led_status ≡ led_idle)))

pub StaysClosed-trans :
    (n : ℕ) (s : LedStatus) (d e : Device)
    → StaysClosed n s d
    → StaysClosed (unlocks d.trace) d.led_status e
    → StaysClosed n s e
StaysClosed-trans n s d e (count, led) (count', inr shut) = (count' ∙ count, inr shut)
StaysClosed-trans n s d e (count, inl is) (count', inl same) = (count' ∙ count, inl (same ∙ is))
StaysClosed-trans n s d e (count, inr (inl is)) (count', inl same) =
    (count' ∙ count, inr (inl (same ∙ is)))
StaysClosed-trans n s d e (count, inr (inr is)) (count', inl same) =
    (count' ∙ count, inr (inr (same ∙ is)))

module _ {n : ℕ} {s : LedStatus} where
  ignores : (e : Event) → is_unlocking e ≡ 0 → Ignores (StaysClosed n s) e
  ignores e h = record { ignore = λ d p. (omega (arith, h, p.0), p.1) }

  pub StaysClosed-IsQuiet : IsQuiet (StaysClosed n s)
  StaysClosed-IsQuiet = record {
    events = λ e h. ignores e (quiet-is_unlocking e h);
    nonces = λ d l p. p;
    users = λ d l p. p;
    status = λ d r p. p;
  }

  follow :
      (d e : Device)
      → StaysClosed n s d
      → StaysShut (unlocks d.trace) d.led_status e
      → StaysClosed n s e
  follow d e (count, led) (count', inr shut) = (count' ∙ count, inr (inl shut))
  follow d e (count, inl is) (count', inl same) = (count' ∙ count, inl (same ∙ is))
  follow d e (count, inr (inl is)) (count', inl same) = (count' ∙ count, inr (inl (same ∙ is)))
  follow d e (count, inr (inr is)) (count', inl same) = (count' ∙ count, inr (inr (same ∙ is)))

  pub StaysClosed-IsClosing : IsClosing (StaysClosed n s)
  StaysClosed-IsClosing = record { quiet = StaysClosed-IsQuiet; extends = follow }

  pub disconnect_lock-Keeps : Keeps (StaysClosed n s) disconnect_lock
  unfolding disconnect_lock set_led_status
  disconnect_lock-Keeps =
      Keeps-bind _ _ (Keeps-modify _ (λ d p. (p.0, inr (inr refl))))
        (λ _. update_led_color-Keeps (λ e h. ignores e (led-is_unlocking e h)) (λ d p. p))

module _ (env : Env) {P : Device → Type 0} (quiet : IsQuiet P) where
  asks_timer-Keeps : (timer : Option ℤ) → Keeps P (asks_timer env timer)
  unfolding asks_timer
  asks_timer-Keeps none = Keeps-pure _
  asks_timer-Keeps (some seconds) = Keeps-call _ _ (quiet.events timer_query refl)

  timer_runs-Keeps : Keeps P (timer_runs env)
  unfolding timer_runs
  timer_runs-Keeps = Keeps-bind _ _ (Keeps-gets _) asks_timer-Keeps

  wait_for_timer-Keeps : (i : ℕ) → Keeps P (wait_for_timer env i)
  unfolding wait_for_timer
  wait_for_timer-Keeps zero = Keeps-bind _ _ timer_runs-Keeps (λ runs. Keeps-pure _)
  wait_for_timer-Keeps (suc i) = Keeps-bind _ _ timer_runs-Keeps (λ runs.
      Keeps-if runs _ _ (Keeps-pure _) (
        Keeps-bind _ _ (Keeps-emit _ (quiet.events sleep_second refl))
          (λ _. wait_for_timer-Keeps i)))

  pub cancel_deep_sleep_timer-Keeps : Keeps P (cancel_deep_sleep_timer env)
  unfolding cancel_deep_sleep_timer
  cancel_deep_sleep_timer-Keeps = Keeps-bind _ _ (wait_for_timer-Keeps 3) (λ _.
      Keeps-bind _ _ timer_runs-Keeps (λ runs.
        Keeps-if runs _ _
          (Keeps-bind _ _ (Keeps-call _ _ (quiet.events timer_stop refl)) error_check-Keeps)
          (Keeps-pure _)))

  -- The handle of the timer is a field that `P` does not look at.
  pub start_deep_sleep_timer-Keeps :
      (seconds : ℤ)
      → ((d : Device) → P d → P (record d { deep_sleep_timer = some seconds }))
      → Keeps P (start_deep_sleep_timer env seconds)
  unfolding start_deep_sleep_timer
  start_deep_sleep_timer-Keeps seconds handle = Keeps-bind _ _ timer_runs-Keeps (λ runs.
      Keeps-if runs _ _ (Keeps-pure _) (
        Keeps-bind _ _ (Keeps-call _ _ (quiet.events timer_create refl)) (λ err.
          Keeps-bind _ _ (error_check-Keeps err) (λ _. Keeps-bind _ _ (Keeps-modify _ handle) (λ _.
            Keeps-bind _ _ (Keeps-call _ _ (quiet.events timer_start refl)) error_check-Keeps)))))

  pub send_rest-Keeps :
      (fuel : ℕ) (text : Bytes) (left : ℕ) → Keeps P (send_rest env fuel text left)
  unfolding send_rest
  send_rest-Keeps zero text left = Keeps-if _ _ _ (Keeps-raise _) (Keeps-pure _)
  send_rest-Keeps (suc fuel) text left =
      Keeps-if _ _ _
        (Keeps-if _ _ _ (Keeps-raise _) (
          Keeps-bind _ _ (Keeps-call _ _ (quiet.events (tcp_send _) refl))
            (λ written. send_rest-Keeps fuel text _)))
        (Keeps-pure _)

  user_aes_ctx-Keeps : (addr : Bytes) → Keeps P (get_user_aes_ctx env addr)
  unfolding get_user_aes_ctx
  user_aes_ctx-Keeps addr = search (keeps_rules, get_user-Keeps env quiet)

pub disconnect_sock-Keeps :
    (env : Env) {n : ℕ} {s : LedStatus} → Keeps (StaysClosed n s) (disconnect_sock env)
unfolding disconnect_sock
disconnect_sock-Keeps env =
    let quiet = StaysClosed-IsQuiet in
    Keeps-bind _ _ (Keeps-gets _) (λ addr.
      Keeps-bind _ _ (set_user_state-Keeps env quiet addr _ _) (λ _.
        Keeps-bind _ _ (user_aes_ctx-Keeps env quiet addr) (λ ctx.
          Keeps-bind _ _ (Keeps-emit _ (quiet.events tcp_close refl)) (λ _.
            Keeps-bind _ _ disconnect_lock-Keeps
              (λ _. start_deep_sleep_timer-Keeps env quiet default_sleep_time (λ d p. p))))))
