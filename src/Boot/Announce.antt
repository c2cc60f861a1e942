-- ===== src/Boot/Announce.antt =====
-- A first boot while a phone is connected.
use smart_door_lock_io_t.Common.{
  ℤ, Bytes, true, false, Option, none, some, ◌∷◌, ◌≡◌, ◌≢◌, refl, ap, sym, subst, ◌∙◌,
  if◌then◌else◌,
}
use smart_door_lock_io_t.Types.{led_idle}
use smart_door_lock_io_t.Platform.{
  Env, EspErr, tcp_setup, read_mac, unmount_spiffs, open_certificate,
}
use smart_door_lock_io_t.Device.{
  Device, ok, fault, buffer_overflow, pure, raise, emit, gets, modify, ◌>>=◌,
}
use smart_door_lock_io_t.Device.Keeps.{
  Keeps, Keeps-bind, Keeps-modify, Keeps-pure, Keeps-raise, Keeps-if, Keeps-call, Keeps-emit,
  keeps_rules,
}
use smart_door_lock_io_t.Device.Runs.{bind-ok, ok-fault}
use smart_door_lock_io_t.Quiet.{IsQuiet}
use smart_door_lock_io_t.Quiet.Platform.{obtain_time-Keeps}
use smart_door_lock_io_t.Quiet.Storage.{
  get_registration_status-Keeps, force_get_registration_status-Keeps,
}
use smart_door_lock_io_t.LockStatus.{set_led_status}
use smart_door_lock_io_t.LockStatus.Led.{update_led_color-Keeps}
use smart_door_lock_io_t.Time.{obtain_time}
use smart_door_lock_io_t.Database.{register_lock, mac_text}
use smart_door_lock_io_t.Boot.{
  announce, take_key, send_certificate, use_files, init_rsa_key, come_online,
}

abbrev Connected : Device → Type 0
Connected d = d.is_connected ≡ true

Connected-IsQuiet : IsQuiet Connected
Connected-IsQuiet = record {
  events = λ e h. record { ignore = λ d p. p };
  nonces = λ d l p. p;
  users = λ d l p. p;
  status = λ d r p. p;
}

idle-Keeps : Keeps Connected (set_led_status led_idle)
unfolding set_led_status
idle-Keeps =
    Keeps-bind _ _ (Keeps-modify _ (λ d p. p))
      (λ _. update_led_color-Keeps (λ e h. record { ignore = λ x p. p }) (λ x p. p))

module _ (env : Env) where
  take_key-Keeps : (file : Bytes) → Keeps Connected (take_key env file)
  unfolding take_key
  take_key-Keeps file = search (keeps_rules, Connected-IsQuiet.events)

  register_lock-Keeps : (file mac : Bytes) → Keeps Connected (register_lock env file mac)
  unfolding register_lock mac_text
  register_lock-Keeps file mac = search (keeps_rules, Connected-IsQuiet.events)

  send_certificate-Keeps : (file : Option Bytes) → Keeps Connected (send_certificate env file)
  unfolding send_certificate
  send_certificate-Keeps none = Keeps-pure _
  send_certificate-Keeps (some file) =
      Keeps-bind _ _ (Keeps-call _ _ (Connected-IsQuiet.events read_mac refl)) (λ err.
        Keeps-if _ _ _ (Keeps-raise _) (
          Keeps-bind _ _ (register_lock-Keeps _ _) (λ _.
            Keeps-bind _ _ (force_get_registration_status-Keeps env Connected-IsQuiet)
              (λ status. Keeps-pure _))))

  use_files-Keeps : (file : Option Bytes) → Keeps Connected (use_files env file)
  unfolding use_files
  use_files-Keeps none = Keeps-pure _
  use_files-Keeps (some file) =
      let unmounts = Keeps-emit _ (Connected-IsQuiet.events unmount_spiffs refl) in
      Keeps-bind _ _ (take_key-Keeps file) (λ _.
        Keeps-bind _ _ (get_registration_status-Keeps env Connected-IsQuiet) (λ status.
          Keeps-if _ _ _
            (Keeps-bind _ _ (Keeps-emit _ (Connected-IsQuiet.events open_certificate refl)) (λ _.
              Keeps-bind _ _ (send_certificate-Keeps env.certificate_file)
                (λ sent. Keeps-if sent _ _ unmounts (Keeps-pure _))))
            unmounts))

  init_rsa_key-Keeps : Keeps Connected (init_rsa_key env)
  unfolding init_rsa_key
  init_rsa_key-Keeps = search (keeps_rules, Connected-IsQuiet.events, use_files-Keeps) depth 8

announce-fault : (d : Device) → Connected d → (announce d).0 ≡ fault buffer_overflow
unfolding announce gets raise ◌>>=◌
announce-fault d h = ap (λ b. ((if b then raise buffer_overflow else pure tt) d).0) h

-- The start-up of a first boot does not return while a phone is connected over Bluetooth, which it can
-- be from the start of the Bluetooth server on: the announcement writes behind a literal.
pub come_online-Connected :
    (env : Env) (number : EspErr → ℤ) (d d' : Device)
    → d.is_connected ≡ true
    → come_online env number false d ≢ (ok tt, d')
unfolding come_online emit modify ◌>>=◌
come_online-Connected env number d d' connected run =
    let (_, (d1, (led, rest1))) = bind-ok (set_led_status led_idle) _ d d' tt run in
    let (_, (d2, (time, rest2))) = bind-ok (obtain_time env) _ d1 d' tt rest1 in
    let (_, (d3, (key, rest3))) = bind-ok (init_rsa_key env) _ d2 d' tt rest2 in
    let (_, (d4, (said, rest4))) = bind-ok announce _ (online d3) d' tt rest3 in
    let c1 = subst Connected (ap (λ r. r.1) led) (idle-Keeps.at d connected) in
    let c2 =
      subst Connected (ap (λ r. r.1) time) ((obtain_time-Keeps env Connected-IsQuiet).at d1 c1) in
    let c3 = subst Connected (ap (λ r. r.1) key) ((init_rsa_key-Keeps env).at d2 c2) in
    ok-fault (sym (announce-fault (online d3) c3) ∙ ap (λ r. r.0) said)
  where
    online : Device → Device
    online e = record e { trace = tcp_setup ∷ e.trace; wifi_connected = true; server_online = true }
