-- ===== src/Examples/World.antt =====
-- A platform and a lock for the examples.
use smart_door_lock_io_t.Common.{
  ℕ, zero, suc, pos, negsuc, Bytes, Bool, true, false, List, [], ◌∷◌, ◌++◌, Option, none, some,
  codes, length, get_elem?, replicate, str_eq, str_eq-eq, str_eq_self, All, ◌≡◌, ◌≢◌, refl, ap, sym,
  subst, length-replicate, arith, if◌then◌else◌,
}
use smart_door_lock_io_t.Types.{owner, Authorization, authorized, led_idle, complete}
use smart_door_lock_io_t.Wifi.{got_ip}
use smart_door_lock_io_t.Platform.{Env, esp_ok}
use smart_door_lock_io_t.Device.{Device}
use smart_door_lock_io_t.Users.Sessions.{IsHash}
use smart_door_lock_io_t.Base64.Walk.{IsByte}
use smart_door_lock_io_t.Aes.Session.{IsCipher}

abbrev later : Option ℕ → Option ℕ
later none = none
later (some i) = some (suc i)

-- A table that is searched from its oldest item on.
abbrev pub index_of : List Bytes → Bytes → Option ℕ
index_of [] k = none
index_of (j ∷ ks) k = let rest = later (index_of ks k) in if str_eq j k then some 0 else rest

none-some : {n : ℕ} → none ≡ some n → ⊥
none-some h = ground arith

some-injective : {m n : ℕ} → some m ≡ some n → m ≡ n
some-injective {m} h = ap (λ o. elim o [ none ↦ m | some x ↦ x ]) h

sound_step :
    (ks : List Bytes) (j k : Bytes) (i : ℕ) (b : Bool) (o : Option ℕ)
    → str_eq j k ≡ b
    → ((n : ℕ) → o ≡ some n → get_elem? ks n ≡ some k)
    → (if b then some 0 else later o) ≡ some i
    → get_elem? (j ∷ ks) i ≡ some k
sound_step ks j k i true o same rest h =
    subst (λ n. get_elem? (j ∷ ks) n ≡ some k) (some-injective h) (ap some (str_eq-eq j k same))
sound_step ks j k i false none same rest h = absurd (none-some h)
sound_step ks j k i false (some n) same rest h =
    subst (λ m. get_elem? (j ∷ ks) m ≡ some k) (some-injective h) (rest n refl)

index_of_sound :
    (ks : List Bytes) (k : Bytes) (i : ℕ) → index_of ks k ≡ some i → get_elem? ks i ≡ some k
index_of_sound [] k i h = absurd (none-some h)
index_of_sound (j ∷ ks) k i h =
    sound_step ks j k i (str_eq j k) (index_of ks k) refl (λ n e. index_of_sound ks k n e) h

missing_step :
    (b : Bool) (o p : Option ℕ) (n : ℕ)
    → (o ≡ none → p ≡ some n)
    → (if b then some 0 else later o) ≡ none
    → (if b then some 0 else later p) ≡ some (suc n)
missing_step true o p n rest h = absurd (none-some (sym h))
missing_step false none p n rest h = ap later (rest refl)
missing_step false (some x) p n rest h = absurd (none-some (sym h))

index_of-added :
    (ks : List Bytes) (k : Bytes)
    → index_of ks k ≡ none
    → index_of (ks ++ k ∷ []) k ≡ some (length ks)
index_of-added [] k h = rw str_eq_self refl
index_of-added (j ∷ ks) k h =
    missing_step (str_eq j k) (index_of ks k) _ (length ks) (index_of-added ks k) h

other_key :
    (k j : Bytes) (b : Bool)
    → k ≢ j
    → str_eq k j ≡ b
    → ◌≡◌ {A = Option ℕ} (if b then some 0 else none) none
other_key k j true ne same = absurd (ne (str_eq-eq k j same))
other_key k j false ne same = refl

index_of-others :
    (ks : List Bytes) (k j : Bytes) → k ≢ j → index_of (ks ++ k ∷ []) j ≡ index_of ks j
index_of-others [] k j h = other_key k j (str_eq k j) h refl
index_of-others (x ∷ ks) k j h = rw (index_of-others ks k j h) refl

pub index_of-IsHash : IsHash index_of
index_of-IsHash = record {
  sound = index_of_sound;
  added = index_of-added;
  others = index_of-others;
}

abbrev pub phone : Bytes
phone = codes "P1"

abbrev pub owner_authorization : Authorization
owner_authorization = record {
  phone_id = phone;
  user_type = owner;
  master_key = 1 ∷ 2 ∷ [];
  weekdays = replicate 7 true;
  valid_from_ts = negsuc 0;
  valid_until_ts = negsuc 0;
  one_day_ts = negsuc 0;
}

-- All calls succeed, the clock stands at 1000, and the cipher gives the plain bytes.
abbrev pub world : Env
world = record {
  time = λ t. pos 1000;
  tm_year = λ t. pos 122;
  tm_wday = λ t. 3;
  midnight = λ t. pos 900;
  sync_is_reset = λ t. false;
  flash_init_err = λ t. esp_ok;
  flash_erase_err = λ t. esp_ok;
  open_err = λ t. esp_ok;
  write_err = λ t. esp_ok;
  auth_write_err = λ t id. esp_ok;
  auth_erase_err = λ t id. esp_ok;
  wifi_erase_err = λ t. esp_ok;
  commit_err = λ t. esp_ok;
  auth_size = λ t id. (esp_ok, 40);
  auth_blob = λ t id. (esp_ok, owner_authorization);
  stored_lock_state = λ t. (esp_ok, pos 0);
  hash_find = index_of;
  malloc_zero_is_null = false;
  random_bytes = λ t n. replicate n 7;
  random_u32 = λ t. 4;
  hmac_status = λ t. esp_ok;
  hmac_digest = λ key message. replicate 32 5;
  key_status = λ t. esp_ok;
  sha256_status = λ t. esp_ok;
  sha256_digest = λ message. replicate 32 6;
  pss_signature = λ t hash. some (replicate 256 9);
  rsa_plain = λ t text. some (codes "SSC AAAA");
  aes_cbc_encrypt = λ ctx iv text. text;
  aes_cbc_decrypt = λ ctx iv text. text;
  mac = replicate 6 16;
  print_invite = λ r. codes "invite";
  print_authorization = λ mac phone_id. phone_id;
  invite_reply = λ t r. (esp_ok, record { success = true; invite_id = some (codes "I1") });
  authorization_reply = λ t id. (
    esp_ok,
    record {
      success = false;
      phone_id = none;
      kind = pos 0;
      master_key_encrypted_lock = none;
      weekdays = [];
      valid_from = pos 0;
      valid_until = pos 0;
      one_day = pos 0;
    },
  );
  status_reply = λ t. (esp_ok, record { success = true; status = pos 2 });
  http_status = λ t. esp_ok;
  timer_is_active = λ t. false;
  timer_err = λ t. esp_ok;
  tcp_written = λ t bytes. pos (length bytes);
  tcp_socket_fd = λ t. pos 3;
  tcp_bind_err = λ t. pos 0;
  tcp_listen_err = λ t. pos 0;
  mac_err = λ t. esp_ok;
  wifi_size = λ t. (esp_ok, 3);
  wifi_blob = λ t. (esp_ok, codes "net");
  registration_err = λ t. esp_ok;
  wifi_events = λ t. got_ip ∷ [];
  spiffs_err = λ t. esp_ok;
  key_file = some (codes "key");
  certificate_file = some (codes "crt");
  ble_mac = replicate 6 17;
  behind_value = λ t. 0 ∷ [];
  fresh_authorization = λ t. owner_authorization;
}

All-seven : (n : ℕ) → All IsByte (replicate n 7)
All-seven zero = tt
All-seven (suc n) = (omega arith, All-seven n)

pub world-IsCipher : IsCipher world
world-IsCipher = record {
  inverse = λ ctx iv text whole bytes. refl;
  same_length = λ ctx iv text. refl;
  cipher_bytes = λ ctx iv text bytes. bytes;
  random_length = λ t n. length-replicate n 7;
  random_are_bytes = λ t n. All-seven n;
}

abbrev pub sender : Bytes
sender = codes "10.0.0.7"

-- An authorized session, and a nonce of an earlier message.
abbrev pub home : Device
home = record {
  trace = [];
  nonces = record { nonce = pos 11; expires = pos 1200 } ∷ [];
  users_info =
      record {
        user_ip = sender;
        phone_id = some phone;
        state = some authorized;
        seed = none;
        aes_ctx = some (replicate 32 1);
      }
      ∷ [];
  current_ble_addr = [];
  registration_status = complete;
  led_status = led_idle;
  led_configured = true;
  got_first_key = false;
  server_online = true;
  is_connected = true;
  spp_mtu_size = 23;
  ble_user_addr = [];
  enable_data_ntf = true;
  spp_conn_id = 0;
  spp_gatts_if = 3;
  spp_remote_bda = replicate 6 32;
  spp_handle_table = 40 ∷ 41 ∷ 42 ∷ 43 ∷ 44 ∷ 45 ∷ 46 ∷ 47 ∷ 48 ∷ 49 ∷ 50 ∷ [];
  profile_gatts_if = 3;
  has_cmd_queue = false;
  wifi_connected = true;
  deep_sleep_timer = none;
  addr_str = sender;
  got_first_uart_key = false;
  uart_data = [];
}
