-- ===== src/Power/Timer.antt =====
-- What starting and cancelling the deep sleep timer leave.
use smart_door_lock_io_t.Common.{
  ℕ, zero, suc, ◌+◌, ◌≤◌, ℤ, Bool, true, false, Option, none, some, ◌≡◌, refl, ap, ◌∙◌, [], ◌∷◌,
  arith,
}
use smart_door_lock_io_t.Platform.{
  Env, Event, Trace, esp_ok, timer_query, timer_create, timer_start, timer_stop, sleep_second,
}
use smart_door_lock_io_t.Device.{Device, ok, Exec, pure, call, emit, gets, modify, ◌>>=◌}
use smart_door_lock_io_t.Device.Runs.{bind-run}
use smart_door_lock_io_t.Nvs.{error_check}
use smart_door_lock_io_t.Power.{
  asks_timer, timer_runs, wait_for_timer, cancel_deep_sleep_timer, start_deep_sleep_timer,
}

-- esp_timer: a timer is active from its start to its stop, a question changes nothing, and the calls
-- succeed. A timer that fires puts the device to sleep for good, so no run goes on behind it.
pub record IsTimer (env : Env) : Type 0 where
  pub starts : (t : Trace) → env.timer_is_active (timer_start ∷ t) ≡ true
  pub stops : (t : Trace) → env.timer_is_active (timer_stop ∷ t) ≡ false
  pub asked : (t : Trace) → env.timer_is_active (timer_query ∷ t) ≡ env.timer_is_active t
  pub succeeds : (t : Trace) → env.timer_err t ≡ esp_ok

-- Whether a timer that the handle refers to is active.
abbrev pub running : Env → Option ℤ → Trace → Bool
running env none t = false
running env (some seconds) t = env.timer_is_active t

abbrev pub is_armed : Env → Device → Bool
is_armed env d = running env d.deep_sleep_timer d.trace

abbrev nap : Event → ℕ
nap sleep_second = 1
nap _ = 0

-- The seconds that were slept.
abbrev pub naps : Trace → ℕ
naps [] = 0
naps (e ∷ t) = nap e + naps t

module _ (env : Env) (timer : IsTimer env) where
  abbrev Same : Option ℤ → Device → Device → Type 0
  Same handle d e =
      (running env handle e.trace ≡ running env handle d.trace)
      × ((e.deep_sleep_timer ≡ d.deep_sleep_timer) × (naps e.trace ≡ naps d.trace))

  asks_timer-run :
      (handle : Option ℤ) (d : Device)
      → (e : Device) × ((asks_timer env handle d ≡ (ok (running env handle d.trace), e))
          × Same handle d e)
  unfolding asks_timer call pure
  asks_timer-run none d = (d, (refl, (refl, (refl, refl))))
  asks_timer-run (some seconds) d = (
    record d { trace = timer_query ∷ d.trace },
    (refl, (timer.asked d.trace, (refl, omega arith))),
  )

  -- The answer is known, and asking changes it not.
  timer_runs-run :
      (d : Device)
      → (e : Device) × ((timer_runs env d ≡ (ok (is_armed env d), e)) × Same d.deep_sleep_timer d e)
  unfolding timer_runs gets ◌>>=◌
  timer_runs-run d = asks_timer-run d.deep_sleep_timer d

  is_armed-Same : (d e : Device) → Same d.deep_sleep_timer d e → is_armed env e ≡ is_armed env d
  is_armed-Same d e (armed, (handle, slept)) = ap (λ h. running env h e.trace) handle ∙ armed

  abbrev Waits : ℕ → Device → Exec (Unit {0}) → Type 0
  Waits i d m =
      (e : Device) × ((m d ≡ (ok tt, e))
        × ((naps e.trace ≤ naps d.trace + i) × (e.deep_sleep_timer ≡ d.deep_sleep_timer)))

  waits : (i : ℕ) (d : Device) → Waits i d (wait_for_timer env i)
  unfolding wait_for_timer pure emit ◌>>=◌
  waits zero d =
      let (e, (run, (armed, (handle, slept)))) = timer_runs-run d in
      (e, (bind-run (timer_runs env) _ d e _ run, (omega (arith, slept), handle)))
  waits (suc i) d =
      let (e, (run, (armed, (handle, slept)))) = timer_runs-run d in
      by_answer e (is_armed env d) run handle slept (waits i)
    where
      by_answer :
          (e : Device) (b : Bool)
          → timer_runs env d ≡ (ok b, e)
          → e.deep_sleep_timer ≡ d.deep_sleep_timer
          → naps e.trace ≡ naps d.trace
          → ((f : Device) → Waits i f (wait_for_timer env i))
          → Waits (suc i) d (wait_for_timer env (suc i))
      by_answer e true run handle slept rest =
          (e, (bind-run (timer_runs env) _ d e true run, (omega (arith, slept), handle)))
      by_answer e false run handle slept rest =
          let (f, (run', (slept', handle'))) = rest (record e { trace = sleep_second ∷ e.trace }) in
          (
            f,
            (
              bind-run (timer_runs env) _ d e false run ∙ run',
              (omega (arith, slept, slept'), handle' ∙ handle),
            ),
          )

  stopped : (handle : Option ℤ) (t : Trace) → running env handle (timer_stop ∷ t) ≡ false
  stopped none t = refl
  stopped (some seconds) t = timer.stops t

  abbrev Ends : ℕ → Bool → Device → Exec (Unit {0}) → Type 0
  Ends seconds armed d m =
      (e : Device) × ((m d ≡ (ok tt, e))
        × ((is_armed env e ≡ armed) × (naps e.trace ≤ naps d.trace + seconds)))

  cancels : (d : Device) → Ends 3 false d (cancel_deep_sleep_timer env)
  unfolding cancel_deep_sleep_timer call pure ◌>>=◌
  cancels d =
      let (e, (run, (slept, handle))) = waits 3 d in
      let (f, (run', same)) = timer_runs-run e in
      by_answer e f (is_armed env e) refl run run' same slept
    where
      by_answer :
          (e f : Device) (b : Bool)
          → is_armed env e ≡ b
          → wait_for_timer env 3 d ≡ (ok tt, e)
          → timer_runs env e ≡ (ok b, f)
          → Same e.deep_sleep_timer e f
          → naps e.trace ≤ naps d.trace + 3
          → Ends 3 false d (cancel_deep_sleep_timer env)
      by_answer e f true known run run' same slept = (
        record f { trace = timer_stop ∷ f.trace },
        (
          bind-run (wait_for_timer env 3) _ d e tt run
              ∙ bind-run (timer_runs env) _ e f true run'
              ∙ ap (λ err. error_check err (record f { trace = timer_stop ∷ f.trace }))
                  (timer.succeeds f.trace),
          (stopped f.deep_sleep_timer f.trace, omega (arith, slept, same.1.1)),
        ),
      )
      by_answer e f false known run run' same slept = (
        f,
        (
          bind-run (wait_for_timer env 3) _ d e tt run ∙ bind-run (timer_runs env) _ e f false run',
          (is_armed-Same e f same ∙ known, omega (arith, slept, same.1.1)),
        ),
      )

  starts : (seconds : ℤ) (d : Device) → Ends 0 true d (start_deep_sleep_timer env seconds)
  unfolding start_deep_sleep_timer call modify pure ◌>>=◌
  starts seconds d =
      let (f, (run, same)) = timer_runs-run d in by_answer f (is_armed env d) refl run same
    where
      by_answer :
          (f : Device) (b : Bool)
          → is_armed env d ≡ b
          → timer_runs env d ≡ (ok b, f)
          → Same d.deep_sleep_timer d f
          → Ends 0 true d (start_deep_sleep_timer env seconds)
      by_answer f true known run same = (
        f,
        (
          bind-run (timer_runs env) _ d f true run,
          (is_armed-Same d f same ∙ known, omega (arith, same.1.1)),
        ),
      )
      by_answer f false known run same = (
        record f { trace = timer_start ∷ timer_create ∷ f.trace; deep_sleep_timer = some seconds },
        (
          bind-run (timer_runs env) _ d f false run
              ∙ (rw (timer.succeeds f.trace, timer.succeeds (timer_create ∷ f.trace)) refl),
          (timer.starts (timer_create ∷ f.trace), omega (arith, same.1.1)),
        ),
      )

-- With an esp_timer whose calls succeed, cancelling returns after at most three seconds of waiting and
-- no deep sleep timer is active then; starting returns at once with the timer active, whether or not
-- one was active before.
pub deep_sleep_timer-is_armed :
    (env : Env) (seconds : ℤ) (d : Device)
    → IsTimer env
    → ((e : Device) × ((cancel_deep_sleep_timer env d ≡ (ok tt, e))
          × ((is_armed env e ≡ false) × (naps e.trace ≤ naps d.trace + 3))))
      × ((e : Device) × ((start_deep_sleep_timer env seconds d ≡ (ok tt, e))
            × ((is_armed env e ≡ true) × (naps e.trace ≤ naps d.trace + 0))))
deep_sleep_timer-is_armed env seconds d timer = (cancels env timer d, starts env timer seconds d)
