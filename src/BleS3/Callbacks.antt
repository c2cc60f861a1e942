-- ===== src/BleS3/Callbacks.antt =====
-- What one Bluetooth callback does to the lock.
use smart_door_lock_io_t.Common.{
  ℕ, ℤ, Bytes, Bool, true, false, [], ◌∷◌, ◌++◌, str_eq, if◌then◌else◌, ◌≡◌, refl, ◌⊎◌, ◌==◌, arith,
  inl, inr,
}
use smart_door_lock_io_t.Types.{LedStatus, connecting, disconnected}
use smart_door_lock_io_t.Platform.{
  Env, EspErr, read_mac, encrypt_link, set_device_name, configure_privacy, create_attributes,
  start_service, oob_reply, confirm_reply, security_reply, advertise_params, advertise,
  advertise_data, queue_send,
}
use smart_door_lock_io_t.Device.{Device, Exec, gets, ◌>>=◌}
use smart_door_lock_io_t.Device.Keeps.{
  Keeps, Keeps-bind, Keeps-if, Keeps-gets, Keeps-modify, Keeps-emit, Keeps-pure, Keeps-raise,
  Keeps-call,
}
use smart_door_lock_io_t.Text.{c_string, show_mac}
use smart_door_lock_io_t.Power.{default_sleep_time}
use smart_door_lock_io_t.Users.{set_current_ble_addr}
use smart_door_lock_io_t.Quiet.Platform.{set_user_state-Keeps}
use smart_door_lock_io_t.Handler.Safety.{unlocks, StaysShut}
use smart_door_lock_io_t.Unlocking.{IsUnlocking}
use smart_door_lock_io_t.Tcp.Kept.{
  StaysClosed, StaysClosed-IsQuiet, cancel_deep_sleep_timer-Keeps, start_deep_sleep_timer-Keeps,
  disconnect_lock-Keeps,
}
use smart_door_lock_io_t.BleS3.Process.{process_normal_data}
use smart_door_lock_io_t.BleS3.Safety.{IsTakenUp, process_normal_data-unlocks}
use smart_door_lock_io_t.BleS3.Events.{
  data_recv_val, find_char_and_desr_index, GattsEvent, reg_evt, read_evt, write_evt, mtu_evt,
  connect_evt, disconnect_evt, creat_attr_tab_evt, other_gatts_evt, GapEvent,
  ext_adv_set_params_complete, ext_adv_data_set_complete, oob_req, nc_req, sec_req,
  set_local_privacy_complete, other_gap_evt, write_notify_config, write_command, gatts_connected,
  gatts_disconnected, write_data, written, gatts_profile_event_handler, call_profile,
  gatts_event_handler, gap_event_handler,
}

-- A write of the value to the attribute with this index hands it to the lock, and it is, with the memory
-- behind it and up to the first NUL, an unlock command of the peer's session.
pub record IsUnlockWrite (env : Env) (index : ℕ) (is_prep : Bool) (value : Bytes) (d : Device)
    : Type 0 where
  pub is_whole : is_prep ≡ false
  pub is_data : index ≡ data_recv_val
  pub unlocking :
      IsUnlocking env
        (c_string (value ++ env.behind_value d.trace))
        d.ble_user_addr
        (IsTakenUp env d)

-- The event that comes in in the state `d` is such a write.
abbrev pub IsUnlockEvent : Env → GattsEvent → Device → Type 0
IsUnlockEvent env (write_evt handle is_prep value) d =
    IsUnlockWrite env (find_char_and_desr_index d.spp_handle_table 0 handle) is_prep value d
IsUnlockEvent env (reg_evt status_ok) d = ⊥
IsUnlockEvent env (read_evt handle) d = ⊥
IsUnlockEvent env (mtu_evt mtu) d = ⊥
IsUnlockEvent env (connect_evt conn_id bda) d = ⊥
IsUnlockEvent env disconnect_evt d = ⊥
IsUnlockEvent env (creat_attr_tab_evt status_ok handles) d = ⊥
IsUnlockEvent env other_gatts_evt d = ⊥

same_index : (a b : ℕ) → (a == b) ≡ true → a ≡ b
same_index a b h = ground arith

module _ (env : Env) (number : EspErr → ℤ) where
  -- The run leaves the lock shut, or there is a reason `W`.
  pub record Judged (W : Type 0) {A : Type 0} (m : Exec A) (d : Device) : Type 0 where
    pub judged : StaysClosed (unlocks d.trace) d.led_status (m d).1 ⊎ W

  Judged-Keeps :
      {W A : Type 0} (m : Exec A) (d : Device)
      → Keeps (StaysClosed (unlocks d.trace) d.led_status) m
      → Judged W m d
  Judged-Keeps m d kept = record { judged = inl (kept.at d (refl, inl refl)) }

  Judged-if :
      {W A : Type 0} (b : Bool) (m k : Exec A) (d : Device)
      → (b ≡ true → Judged W m d)
      → Judged W k d
      → Judged W (if b then m else k) d
  Judged-if true m k d p q = p refl
  Judged-if false m k d p q = q

  Judged-gets :
      {W A B : Type 0} (f : Device → A) (k : A → Exec B) (d : Device)
      → Judged W (k (f d)) d
      → Judged W (gets f >>= k) d
  unfolding gets ◌>>=◌
  Judged-gets f k d p = record { judged = p.judged }

  StaysShut-StaysClosed : (n : ℕ) (s : LedStatus) (e : Device) → StaysShut n s e → StaysClosed n s e
  StaysShut-StaysClosed n s e (count, inl same) = (count, inl same)
  StaysShut-StaysClosed n s e (count, inr shut) = (count, inr (inl shut))

  -- An unlock command, as a reason.
  abbrev Unlocking : Bytes → Device → Type 0
  Unlocking data' d = IsUnlocking env data' d.ble_user_addr (IsTakenUp env d)

  message-Judged :
      (value : Bytes) (d : Device)
      → Judged
          (Unlocking (c_string (value ++ env.behind_value d.trace)) d)
          (process_normal_data env number (c_string (value ++ env.behind_value d.trace)))
          d
  message-Judged value d =
      let data' : Bytes = c_string (value ++ env.behind_value d.trace) in
      elim (process_normal_data-unlocks env number data' d) [
        | inl shut ↦ record {
          judged = inl (StaysShut-StaysClosed _ _ (process_normal_data env number data' d).1 shut);
        }
        | inr u ↦ record { judged = inr u }
      ]

  write_data-Judged :
      (value : Bytes) (d : Device)
      → Judged
          (Unlocking (c_string (value ++ env.behind_value d.trace)) d)
          (write_data env number value)
          d
  unfolding write_data
  write_data-Judged value d =
      Judged-gets (λ e. env.behind_value e.trace) _ d (message-Judged value d)

  -- The same for a stronger reason.
  Judged-for : {V W A : Type 0} (m : Exec A) (d : Device) → (V → W) → Judged V m d → Judged W m d
  Judged-for m d because j = elim j.judged [
    | inl shut ↦ record { judged = inl shut }
    | inr v ↦ record { judged = inr (because v) }
  ]

  write_command-Keeps :
      {n : ℕ} {s : LedStatus} (value : Bytes) → Keeps (StaysClosed n s) (write_command env value)
  unfolding write_command
  write_command-Keeps value = Keeps-bind _ _ (Keeps-gets _) (λ mtu. Keeps-if _ _ _ (Keeps-pure _) (
      Keeps-if _ _ _ (Keeps-raise _) (
        Keeps-bind _ _ (Keeps-gets _) (λ queue.
          Keeps-if queue _ _ (Keeps-emit _ (StaysClosed-IsQuiet.events queue_send refl))
            (Keeps-raise _)))))

  write_notify_config-Keeps :
      {n : ℕ} {s : LedStatus} (value : Bytes) → Keeps (StaysClosed n s) (write_notify_config value)
  unfolding write_notify_config
  write_notify_config-Keeps value =
      Keeps-if (str_eq value (1 ∷ 0 ∷ [])) _ _ (Keeps-modify _ (λ d p. p))
        (Keeps-if (str_eq value (0 ∷ 0 ∷ [])) _ _ (Keeps-modify _ (λ d p. p)) (Keeps-pure _))

  written-Judged :
      (index : ℕ) (is_prep : Bool) (value : Bytes) (d : Device)
      → Judged (IsUnlockWrite env index is_prep value d) (written env number index is_prep value) d
  unfolding written
  written-Judged index true value d = Judged-Keeps _ d (Keeps-pure _)
  written-Judged index false value d =
      Judged-if _ _ _ d (λ is. Judged-Keeps _ d (write_command-Keeps value))
        (Judged-if _ _ _ d (λ is. Judged-Keeps _ d (write_notify_config-Keeps value))
          (Judged-if _ _ _ d
            (λ is.
              Judged-for _ d
                (λ u. record {
                  is_whole = refl;
                  is_data = same_index index data_recv_val is;
                  unlocking = u;
                })
                (write_data-Judged value d))
            (Judged-Keeps _ d (Keeps-pure _))))

  gatts_connected-Keeps :
      {n : ℕ} {s : LedStatus} (gatts_if conn_id : ℕ) (bda : Bytes)
      → Keeps (StaysClosed n s) (gatts_connected env gatts_if conn_id bda)
  unfolding gatts_connected set_current_ble_addr
  gatts_connected-Keeps gatts_if conn_id bda =
      Keeps-bind _ _ (Keeps-emit _ (StaysClosed-IsQuiet.events encrypt_link refl)) (λ _.
        Keeps-bind _ _ (Keeps-modify _ (λ d p. p)) (λ _.
          Keeps-bind _ _ (cancel_deep_sleep_timer-Keeps env StaysClosed-IsQuiet) (λ _.
            Keeps-bind _ _ (Keeps-modify _ (λ d p. p)) (λ _.
              Keeps-bind _ _ (Keeps-modify _ (λ d p. p))
                (λ _. set_user_state-Keeps env StaysClosed-IsQuiet (show_mac bda) connecting [])))))

  gatts_disconnected-Keeps :
      {n : ℕ} {s : LedStatus} → Keeps (StaysClosed n s) (gatts_disconnected env)
  unfolding gatts_disconnected set_current_ble_addr
  gatts_disconnected-Keeps = Keeps-bind _ _ (Keeps-modify _ (λ d p. p)) (λ _.
      Keeps-bind _ _
        (start_deep_sleep_timer-Keeps env StaysClosed-IsQuiet default_sleep_time (λ d p. p))
        (λ _. Keeps-bind _ _ (Keeps-emit _ (StaysClosed-IsQuiet.events advertise refl)) (λ _.
          Keeps-bind _ _ (Keeps-modify _ (λ d p. p)) (λ _. Keeps-bind _ _ (Keeps-gets _) (λ addr.
            Keeps-bind _ _ (set_user_state-Keeps env StaysClosed-IsQuiet addr disconnected [])
              (λ _. disconnect_lock-Keeps))))))

  registration-Keeps :
      {n : ℕ} {s : LedStatus} (status_ok : Bool) (gatts_if : ℕ)
      → Keeps
          (StaysClosed n s)
          (gatts_profile_event_handler env number (reg_evt status_ok) gatts_if)
  unfolding gatts_profile_event_handler
  registration-Keeps status_ok gatts_if =
      Keeps-bind _ _ (Keeps-emit _ (StaysClosed-IsQuiet.events set_device_name refl)) (λ _.
        Keeps-bind _ _ (Keeps-emit _ (StaysClosed-IsQuiet.events configure_privacy refl))
          (λ _. Keeps-emit _ (StaysClosed-IsQuiet.events create_attributes refl)))

  handler-Judged :
      (event : GattsEvent) (gatts_if : ℕ) (d : Device)
      → Judged (IsUnlockEvent env event d) (gatts_profile_event_handler env number event gatts_if) d
  unfolding gatts_profile_event_handler
  handler-Judged (reg_evt status_ok) gatts_if d =
      Judged-Keeps _ d (registration-Keeps status_ok gatts_if)
  handler-Judged (read_evt handle) gatts_if d = Judged-Keeps _ d (Keeps-pure _)
  handler-Judged (write_evt handle is_prep value) gatts_if d =
      Judged-gets _ _ d (written-Judged _ is_prep value d)
  handler-Judged (mtu_evt mtu) gatts_if d = Judged-Keeps _ d (Keeps-modify _ (λ e p. p))
  handler-Judged (connect_evt conn_id bda) gatts_if d =
      Judged-Keeps _ d (gatts_connected-Keeps gatts_if conn_id bda)
  handler-Judged disconnect_evt gatts_if d = Judged-Keeps _ d gatts_disconnected-Keeps
  handler-Judged (creat_attr_tab_evt status_ok handles) gatts_if d = Judged-Keeps _ d (
      Keeps-if _ _ _
        (Keeps-bind _ _ (Keeps-modify _ (λ e p. p))
          (λ _. Keeps-emit _ (StaysClosed-IsQuiet.events start_service refl)))
        (Keeps-pure _))
  handler-Judged other_gatts_evt gatts_if d = Judged-Keeps _ d (Keeps-pure _)

  call_profile-Judged :
      (event : GattsEvent) (gatts_if : ℕ) (d : Device)
      → Judged (IsUnlockEvent env event d) (call_profile env number event gatts_if) d
  unfolding call_profile
  call_profile-Judged event gatts_if d =
      Judged-gets _ _ d (
        Judged-if _ _ _ d (λ is. handler-Judged event gatts_if d) (Judged-Keeps _ d (Keeps-pure _)))

  pub callback-Judged :
      (event : GattsEvent) (gatts_if : ℕ) (d : Device)
      → Judged (IsUnlockEvent env event d) (gatts_event_handler env number event gatts_if) d
  unfolding gatts_event_handler call_profile
  callback-Judged (reg_evt true) gatts_if d = Judged-Keeps _ d (
      Keeps-bind _ _ (Keeps-modify _ (λ e p. p)) (λ _.
        Keeps-bind _ _ (Keeps-gets _)
          (λ profile. Keeps-if _ _ _ (registration-Keeps true gatts_if) (Keeps-pure _))))
  callback-Judged (reg_evt false) gatts_if d = Judged-Keeps _ d (Keeps-pure _)
  callback-Judged (read_evt handle) gatts_if d = call_profile-Judged _ gatts_if d
  callback-Judged (write_evt handle is_prep value) gatts_if d = call_profile-Judged _ gatts_if d
  callback-Judged (mtu_evt mtu) gatts_if d = call_profile-Judged _ gatts_if d
  callback-Judged (connect_evt conn_id bda) gatts_if d = call_profile-Judged _ gatts_if d
  callback-Judged disconnect_evt gatts_if d = call_profile-Judged _ gatts_if d
  callback-Judged (creat_attr_tab_evt status_ok handles) gatts_if d =
      call_profile-Judged _ gatts_if d
  callback-Judged other_gatts_evt gatts_if d = call_profile-Judged _ gatts_if d

  pub gap-Keeps :
      {n : ℕ} {s : LedStatus} (event : GapEvent)
      → Keeps (StaysClosed n s) (gap_event_handler env event)
  unfolding gap_event_handler
  gap-Keeps ext_adv_set_params_complete =
      Keeps-bind _ _ (Keeps-call _ _ (StaysClosed-IsQuiet.events read_mac refl))
        (λ err. Keeps-emit _ (StaysClosed-IsQuiet.events (advertise_data _) refl))
  gap-Keeps ext_adv_data_set_complete = Keeps-emit _ (StaysClosed-IsQuiet.events advertise refl)
  gap-Keeps oob_req = Keeps-emit _ (StaysClosed-IsQuiet.events oob_reply refl)
  gap-Keeps nc_req = Keeps-emit _ (StaysClosed-IsQuiet.events confirm_reply refl)
  gap-Keeps sec_req = Keeps-emit _ (StaysClosed-IsQuiet.events security_reply refl)
  gap-Keeps set_local_privacy_complete =
      Keeps-emit _ (StaysClosed-IsQuiet.events advertise_params refl)
  gap-Keeps other_gap_evt = Keeps-pure _
