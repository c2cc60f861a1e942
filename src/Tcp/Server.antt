-- ===== src/Tcp/Server.antt =====
-- The whole TCP server: the socket that listens, and one connection after the other.
use smart_door_lock_io_t.Common.{
  ℕ, ℤ, Bytes, Bool, true, false, List, [], ◌∷◌, ◌++◌, ◌≡◌, refl, ap, subst, ◌⊎◌, inl, inr,
  if◌then◌else◌,
}
use smart_door_lock_io_t.Types.{LedStatus}
use smart_door_lock_io_t.Platform.{Env, EspErr, tcp_socket, tcp_bind, tcp_listen, close_listener}
use smart_door_lock_io_t.Device.{Device, Result, ok, pure, emit, ◌>>=◌}
use smart_door_lock_io_t.Device.Keeps.{
  Keeps, Keeps-bind, Keeps-if, Keeps-emit, Keeps-pure, Keeps-call,
}
use smart_door_lock_io_t.Device.Runs.{bind_elim}
use smart_door_lock_io_t.Handler.Safety.{unlocks}
use smart_door_lock_io_t.Tcp.{
  Receive, Accept, accepted, refused, Phase, waiting, returned, begin_connection, serve_connection,
  after_connection, accept_loop, listen_socket, tcp_server_task,
}
use smart_door_lock_io_t.Tcp.Kept.{StaysClosed, StaysClosed-IsQuiet, StaysClosed-trans}
use smart_door_lock_io_t.Tcp.Connection.{IsOpened, serve_connection-unlocks}

-- Connections that come to an end, one after the other, from one state of the lock to another.
pub data Served (env : Env) (number : EspErr → ℤ) (fuel : ℕ)
    : Device → List Accept → Device → Type 0 where
  nobody_yet : (d : Device) → Served env number fuel d [] d
  and_then :
      {accepts : List Accept} {d e f : Device} (addr : Bytes) (receives : List Receive)
      → serve_connection env number fuel addr receives d ≡ (ok returned, e)
      → Served env number fuel e accepts f
      → Served env number fuel d (accepted addr receives ∷ accepts) f

-- One of the connections, which the task takes when those before it are over, gets an unlock command
-- that passes its checks at the moment when it comes in.
pub record IsServed (env : Env) (number : EspErr → ℤ) (fuel : ℕ) (accepts : List Accept)
    (d : Device) : Type 0 where
  pub earlier : List Accept
  pub addr : Bytes
  pub receives : List Receive
  pub later : List Accept
  pub arrival : Device
  pub begun : Device
  pub splits : accepts ≡ earlier ++ accepted addr receives ∷ later
  pub runs : Served env number fuel d earlier arrival
  pub begins : begin_connection env number fuel addr arrival ≡ (ok tt, begun)
  pub opened : IsOpened env number fuel receives begun

module _ (env : Env) (number : EspErr → ℤ) (fuel : ℕ) where
  abbrev Judged : List Accept → Device → Device → Type 0
  Judged accepts d e =
      StaysClosed (unlocks d.trace) d.led_status e ⊎ IsServed env number fuel accepts d

  later_serves :
      (addr : Bytes) (receives : List Receive) (accepts : List Accept) (d d1 : Device)
      → serve_connection env number fuel addr receives d ≡ (ok returned, d1)
      → IsServed env number fuel accepts d1
      → IsServed env number fuel (accepted addr receives ∷ accepts) d
  later_serves addr receives accepts d d1 run o = record {
    earlier = accepted addr receives ∷ o.earlier;
    addr = o.addr;
    receives = o.receives;
    later = o.later;
    arrival = o.arrival;
    begun = o.begun;
    splits = ap (λ l. accepted addr receives ∷ l) o.splits;
    runs = and_then addr receives run o.runs;
    begins = o.begins;
    opened = o.opened;
  }

  accept_loop-unlocks :
      (accepts : List Accept) (d : Device)
      → Judged accepts d (accept_loop env number fuel accepts d).1
  unfolding accept_loop pure
  accept_loop-unlocks [] d = inl (refl, inl refl)
  accept_loop-unlocks (refused ∷ accepts) d = inl (
      (Keeps-bind _ _ (Keeps-emit _ (StaysClosed-IsQuiet.events close_listener refl))
          (λ _. Keeps-pure _)).at
        d (refl, inl refl))
  accept_loop-unlocks (accepted addr receives ∷ accepts) d =
      elim (serve_connection-unlocks env number fuel addr receives d) [
        | inr (begun, begins, o) ↦ inr (record {
          earlier = [];
          addr = addr;
          receives = receives;
          later = accepts;
          arrival = d;
          begun = begun;
          splits = refl;
          runs = nobody_yet d;
          begins = begins;
          opened = o;
        })
        | inl shut ↦
            bind_elim (serve_connection env number fuel addr receives) _ d
              (λ r. Judged (accepted addr receives ∷ accepts) d r.1)
              (λ e d1 run. inl (moved d1 (ap (λ r. r.1) run) shut))
              (λ phase d1 run.
                goes_on phase d1 run (moved d1 (ap (λ r. r.1) run) shut)
                  (accept_loop-unlocks accepts d1))
      ]
    where
      moved :
          (d1 : Device)
          → (serve_connection env number fuel addr receives d).1 ≡ d1
          → StaysClosed
              (unlocks d.trace)
              d.led_status
              (serve_connection env number fuel addr receives d).1
          → StaysClosed (unlocks d.trace) d.led_status d1
      moved d1 e shut = subst (StaysClosed (unlocks d.trace) d.led_status) e shut

      goes_on :
          (phase : Phase) (d1 : Device)
          → serve_connection env number fuel addr receives d ≡ (ok phase, d1)
          → StaysClosed (unlocks d.trace) d.led_status d1
          → Judged accepts d1 (accept_loop env number fuel accepts d1).1
          → Judged
              (accepted addr receives ∷ accepts)
              d
              (after_connection env number fuel (accept_loop env number fuel accepts) phase d1).1
      goes_on waiting d1 run shut rest = inl shut
      goes_on returned d1 run shut (inl shut') = inl (
          StaysClosed-trans (unlocks d.trace) d.led_status d1
            (accept_loop env number fuel accepts d1).1 shut shut')
      goes_on returned d1 run shut (inr o) = inr (later_serves addr receives accepts d d1 run o)

  gives_up-Keeps :
      {n : ℕ} {s : LedStatus} → Keeps (StaysClosed n s) (emit close_listener >>= λ _. pure false)
  gives_up-Keeps =
      Keeps-bind _ _ (Keeps-emit _ (StaysClosed-IsQuiet.events close_listener refl))
        (λ _. Keeps-pure _)

  listen_socket-Keeps :
      {n : ℕ} {s : LedStatus} → Keeps (StaysClosed n s) (listen_socket env number fuel)
  unfolding listen_socket
  listen_socket-Keeps =
      let events = StaysClosed-IsQuiet.events in
      Keeps-bind _ _ (Keeps-call _ _ (events tcp_socket refl)) (λ sock.
        Keeps-if _ _ _ (Keeps-pure _) (
          Keeps-bind _ _ (Keeps-call _ _ (events tcp_bind refl)) (λ bound.
            Keeps-if _ _ _
              (Keeps-bind _ _ (Keeps-call _ _ (events tcp_listen refl))
                (λ listening. Keeps-if _ _ _ (Keeps-pure _) gives_up-Keeps))
              gives_up-Keeps)))

  -- The TCP server with any peers, one after the other, and any receives of each: the flash is not
  -- told that the lock is open, and the LED shows what it showed, a locked door or an idle one, unless
  -- the server listened and, when the connections before it were over, one of the connections got a
  -- message that, in the state in which it came in, decrypted up to its first NUL under the AES key of
  -- the peer's session to an RUD command, which passed its checks in the states that followed.
  pub tcp_server_task-unlocks :
      (accepts : List Accept) (d : Device)
      → StaysClosed (unlocks d.trace) d.led_status (tcp_server_task env number fuel accepts d).1
        ⊎ (d1 : Device) × (listen_socket env number fuel d ≡ (ok true, d1))
          × IsServed env number fuel accepts d1
  unfolding tcp_server_task pure
  tcp_server_task-unlocks accepts d =
      bind_elim (listen_socket env number fuel) _ d Outcome
        (λ e d1 run. inl (shut_at d1 (ap (λ r. r.1) run)))
        (λ listens d1 run. listening listens d1 run (shut_at d1 (ap (λ r. r.1) run)))
    where
      Outcome : Result Phase × Device → Type 0
      Outcome r =
          StaysClosed (unlocks d.trace) d.led_status r.1
          ⊎ (d1 : Device) × (listen_socket env number fuel d ≡ (ok true, d1))
            × IsServed env number fuel accepts d1

      shut_at :
          (d1 : Device)
          → (listen_socket env number fuel d).1 ≡ d1
          → StaysClosed (unlocks d.trace) d.led_status d1
      shut_at d1 e =
          subst (StaysClosed (unlocks d.trace) d.led_status) e
            (listen_socket-Keeps.at d (refl, inl refl))

      listening :
          (listens : Bool) (d1 : Device)
          → listen_socket env number fuel d ≡ (ok listens, d1)
          → StaysClosed (unlocks d.trace) d.led_status d1
          → Outcome ((if listens then accept_loop env number fuel accepts else pure returned) d1)
      listening false d1 run shut = inl shut
      listening true d1 run shut = elim (accept_loop-unlocks accepts d1) [
        | inl shut' ↦ inl (
            StaysClosed-trans (unlocks d.trace) d.led_status d1
              (accept_loop env number fuel accepts d1).1 shut shut')
        | inr o ↦ inr (d1, run, o)
      ]
