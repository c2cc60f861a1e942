-- ===== src/Tcp/Connection.antt =====
-- A whole TCP connection, from `accept` to `close`.
use smart_door_lock_io_t.Common.{
  ℕ, ℤ, Bytes, List, [], ◌∷◌, ◌++◌, ◌≡◌, refl, ap, subst, ◌∙◌, ◌⊎◌, inl, inr,
}
use smart_door_lock_io_t.Types.{LedStatus, connecting}
use smart_door_lock_io_t.Platform.{Env, EspErr, tcp_close, tcp_shutdown}
use smart_door_lock_io_t.Device.{Device, Result, ok, pure, ◌>>=◌}
use smart_door_lock_io_t.Device.Keeps.{Keeps, Keeps-bind, Keeps-modify, Keeps-emit, Keeps-pure}
use smart_door_lock_io_t.Device.Runs.{bind_elim, bind-run}
use smart_door_lock_io_t.Text.{c_string}
use smart_door_lock_io_t.Power.{default_sleep_time}
use smart_door_lock_io_t.Quiet.Platform.{set_user_state-Keeps}
use smart_door_lock_io_t.Handler.Safety.{unlocks}
use smart_door_lock_io_t.Unlocking.{IsUnlocking}
use smart_door_lock_io_t.Tcp.{
  Receive, received, closed, failed, Phase, waiting, returned, retransmit_once, in_phase,
  do_retransmit, begin_connection, end_connection, serve_connection,
}
use smart_door_lock_io_t.Tcp.Kept.{
  StaysClosed, StaysClosed-IsQuiet, StaysClosed-trans, cancel_deep_sleep_timer-Keeps,
  start_deep_sleep_timer-Keeps,
}
use smart_door_lock_io_t.Tcp.Safety.{retransmit_once-unlocks}

-- One of the receives is an unlock command that passes its checks at the moment when it comes in,
-- which is behind the receives before it.
pub record IsOpened (env : Env) (number : EspErr → ℤ) (fuel : ℕ) (receives : List Receive)
    (d : Device) : Type 0 where
  pub earlier : List Receive
  pub bytes : Bytes
  pub later : List Receive
  pub arrival : Device
  pub splits : receives ≡ earlier ++ received bytes ∷ later
  pub runs : do_retransmit env number fuel earlier d ≡ (ok waiting, arrival)
  pub unlocking : IsUnlocking env (c_string bytes) arrival.addr_str (λ d. d ≡ arrival)

module _ (env : Env) (number : EspErr → ℤ) (fuel : ℕ) where
  abbrev Judged : List Receive → Device → Device → Type 0
  Judged receives d e =
      StaysClosed (unlocks d.trace) d.led_status e ⊎ IsOpened env number fuel receives d

  first_opens :
      (bytes : Bytes) (receives : List Receive) (d : Device)
      → IsUnlocking env (c_string bytes) d.addr_str (λ e. e ≡ d)
      → IsOpened env number fuel (received bytes ∷ receives) d
  unfolding do_retransmit pure
  first_opens bytes receives d u = record {
    earlier = [];
    bytes = bytes;
    later = receives;
    arrival = d;
    splits = refl;
    runs = refl;
    unlocking = u;
  }

  later_opens :
      (bytes : Bytes) (receives : List Receive) (d d1 : Device)
      → retransmit_once env number fuel bytes d ≡ (ok waiting, d1)
      → IsOpened env number fuel receives d1
      → IsOpened env number fuel (received bytes ∷ receives) d
  unfolding do_retransmit
  later_opens bytes receives d d1 run o = record {
    earlier = received bytes ∷ o.earlier;
    bytes = o.bytes;
    later = o.later;
    arrival = o.arrival;
    splits = ap (λ l. received bytes ∷ l) o.splits;
    runs = bind-run (retransmit_once env number fuel bytes) _ d d1 waiting run ∙ o.runs;
    unlocking = o.unlocking;
  }

  -- Whatever comes in on a TCP connection: if the flash is told that the lock is
  -- open, or the LED shows more than what it showed, a locked door or an idle one, then one of the
  -- receives, up to its first NUL, decrypts in the state in which the receives before it leave the lock
  -- under the AES key of the peer's session to an RUD command, which passes its checks in the states
  -- that follow.
  pub do_retransmit-unlocks :
      (receives : List Receive) (d : Device)
      → Judged receives d (do_retransmit env number fuel receives d).1
  unfolding do_retransmit pure
  do_retransmit-unlocks [] d = inl (refl, inl refl)
  do_retransmit-unlocks (closed ∷ receives) d = inl (refl, inl refl)
  do_retransmit-unlocks (failed ∷ receives) d = inl (refl, inl refl)
  do_retransmit-unlocks (received bytes ∷ receives) d =
      elim (retransmit_once-unlocks env number fuel bytes d) [
        | inr u ↦ inr (first_opens bytes receives d u)
        | inl shut ↦
            bind_elim (retransmit_once env number fuel bytes) _ d
              (λ r. Judged (received bytes ∷ receives) d r.1)
              (λ e d1 run. inl (moved d1 (ap (λ r. r.1) run) shut))
              (λ phase d1 run.
                goes_on phase d1 run (moved d1 (ap (λ r. r.1) run) shut)
                  (do_retransmit-unlocks receives d1))
      ]
    where
      moved :
          (d1 : Device)
          → (retransmit_once env number fuel bytes d).1 ≡ d1
          → StaysClosed (unlocks d.trace) d.led_status (retransmit_once env number fuel bytes d).1
          → StaysClosed (unlocks d.trace) d.led_status d1
      moved d1 e shut = subst (StaysClosed (unlocks d.trace) d.led_status) e shut

      goes_on :
          (phase : Phase) (d1 : Device)
          → retransmit_once env number fuel bytes d ≡ (ok phase, d1)
          → StaysClosed (unlocks d.trace) d.led_status d1
          → Judged receives d1 (do_retransmit env number fuel receives d1).1
          → Judged
              (received bytes ∷ receives)
              d
              (in_phase env number fuel (do_retransmit env number fuel receives) phase d1).1
      goes_on returned d1 run shut rest = inl shut
      goes_on waiting d1 run shut (inl shut') = inl (
          StaysClosed-trans (unlocks d.trace) d.led_status d1
            (do_retransmit env number fuel receives d1).1 shut shut')
      goes_on waiting d1 run shut (inr o) = inr (later_opens bytes receives d d1 run o)

  end_connection-Keeps :
      {n : ℕ} {s : LedStatus} (phase : Phase)
      → Keeps (StaysClosed n s) (end_connection env number fuel phase)
  end_connection-Keeps waiting = Keeps-pure _
  end_connection-Keeps returned =
      Keeps-bind _ _ (Keeps-emit _ (StaysClosed-IsQuiet.events tcp_shutdown refl)) (λ _.
        Keeps-bind _ _
          (start_deep_sleep_timer-Keeps env StaysClosed-IsQuiet default_sleep_time (λ d p. p))
          (λ _.
            Keeps-bind _ _ (Keeps-emit _ (StaysClosed-IsQuiet.events tcp_close refl))
              (λ _. Keeps-pure _)))

  begin_connection-Keeps :
      {n : ℕ} {s : LedStatus} (addr : Bytes)
      → Keeps (StaysClosed n s) (begin_connection env number fuel addr)
  unfolding begin_connection
  begin_connection-Keeps addr = Keeps-bind _ _ (Keeps-modify _ (λ d p. p)) (λ _.
      Keeps-bind _ _ (cancel_deep_sleep_timer-Keeps env StaysClosed-IsQuiet)
        (λ _. set_user_state-Keeps env StaysClosed-IsQuiet addr connecting []))

  -- A connection that is accepted from any address and gets any receives: the flash is not told that
  -- the lock is open, and the LED shows what it showed, a locked door or an idle one, unless the
  -- connection was set up and then one of the receives was an RUD command that passed the checks when
  -- it came in.
  pub serve_connection-unlocks :
      (addr : Bytes) (receives : List Receive) (d : Device)
      → StaysClosed
          (unlocks d.trace)
          d.led_status
          (serve_connection env number fuel addr receives d).1
        ⊎ (d1 : Device) × (begin_connection env number fuel addr d ≡ (ok tt, d1))
          × IsOpened env number fuel receives d1
  unfolding serve_connection
  serve_connection-unlocks addr receives d =
      bind_elim (begin_connection env number fuel addr) _ d Outcome
        (λ e d1 run. inl (begun d1 (ap (λ r. r.1) run))) (λ _ d1 run. served d1 run)
    where
      Outcome : Result Phase × Device → Type 0
      Outcome r =
          StaysClosed (unlocks d.trace) d.led_status r.1
          ⊎ (d1 : Device) × (begin_connection env number fuel addr d ≡ (ok tt, d1))
            × IsOpened env number fuel receives d1

      begun :
          (d1 : Device)
          → (begin_connection env number fuel addr d).1 ≡ d1
          → StaysClosed (unlocks d.trace) d.led_status d1
      begun d1 e =
          subst (StaysClosed (unlocks d.trace) d.led_status) e
            ((begin_connection-Keeps addr).at d (refl, inl refl))

      ended :
          (d1 : Device)
          → StaysClosed (unlocks d.trace) d.led_status d1
          → Judged receives d1 (do_retransmit env number fuel receives d1).1
          → begin_connection env number fuel addr d ≡ (ok tt, d1)
          → Outcome ((do_retransmit env number fuel receives >>= end_connection env number fuel) d1)
      ended d1 shut (inr o) run = inr (d1, run, o)
      ended d1 shut (inl shut') run =
          let closed' =
            StaysClosed-trans (unlocks d.trace) d.led_status d1
              (do_retransmit env number fuel receives d1).1 shut shut' in
          bind_elim (do_retransmit env number fuel receives) (end_connection env number fuel) d1
            Outcome
            (λ e d2 r.
              inl (subst (StaysClosed (unlocks d.trace) d.led_status) (ap (λ x. x.1) r) closed'))
            (λ phase d2 r. inl (
              (end_connection-Keeps phase).at d2
                (subst (StaysClosed (unlocks d.trace) d.led_status) (ap (λ x. x.1) r) closed')))

      served :
          (d1 : Device)
          → begin_connection env number fuel addr d ≡ (ok tt, d1)
          → Outcome ((do_retransmit env number fuel receives >>= end_connection env number fuel) d1)
      served d1 run =
          ended d1 (begun d1 (ap (λ r. r.1) run)) (do_retransmit-unlocks receives d1) run
