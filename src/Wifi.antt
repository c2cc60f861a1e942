-- ===== src/Wifi.antt =====
-- main/utils/wifi_connect_util.c and main/utils/esp_touch_util.c: the event handlers of the two ways
-- to join a network, and the wait of `wifi_init_sta`. The set-up of the driver before it is left out.
pub mod Retries
use smart_door_lock_io_t.Common.{
  ℕ, zero, suc, Bytes, Bool, true, false, ltb, List, [], ◌∷◌, if◌then◌else◌,
}

-- The events that `event_handler` is registered for, and tells apart.
pub data WifiEvent : Type 0 where
  sta_start sta_disconnected got_ip other_event : WifiEvent

-- What the handler leaves behind: s_retry_num, the bits of s_wifi_event_group, and the number of calls
-- of esp_wifi_connect.
pub record Station : Type 0 where
  pub s_retry_num : ℕ
  pub connected_bit : Bool
  pub fail_bit : Bool
  pub attempts : ℕ

-- EXAMPLE_ESP_MAXIMUM_RETRY
abbrev pub maximum_retry : ℕ
maximum_retry = 5

-- event_handler of wifi_connect_util.c
unfoldable pub event_handler : WifiEvent → Station → Station
event_handler sta_start s = record s { attempts = suc s.attempts }
event_handler sta_disconnected s =
    if ltb s.s_retry_num maximum_retry
    then record s { attempts = suc s.attempts; s_retry_num = suc s.s_retry_num }
    else record s { fail_bit = true }
event_handler got_ip s = record s { s_retry_num = 0; connected_bit = true }
event_handler other_event s = s

-- The bits that xEventGroupWaitBits waits for, and which the code tests in this order.
pub data Verdict : Type 0 where
  still_waiting joined gave_up : Verdict

abbrev pub verdict : Bool → Bool → Verdict
verdict true fail = joined
verdict false true = gave_up
verdict false false = still_waiting

abbrev pub decided : Verdict → Station → Verdict × Station → Verdict × Station
decided still_waiting s rest = rest
decided joined s rest = (joined, s)
decided gave_up s rest = (gave_up, s)

-- What `wifi_init_sta` comes to: it waits until one of the bits is set, and looks at them then.
unfoldable pub wait_bits : List WifiEvent → Station → Verdict × Station
wait_bits [] s = (verdict s.connected_bit s.fail_bit, s)
wait_bits (e ∷ events) s =
    decided (verdict s.connected_bit s.fail_bit) s (wait_bits events (event_handler e s))

-- The group is new and the driver has started; s_retry_num is a static variable and keeps its value.
abbrev pub fresh_station : ℕ → Station
fresh_station retries = record {
  s_retry_num = retries;
  connected_bit = false;
  fail_bit = false;
  attempts = 0;
}

-- The result of `wifi_init_sta` and so of `connect_to_wifi`, which stores it in isConnected.
abbrev pub is_joined : Verdict → Bool
is_joined joined = true
is_joined _ = false

-- The events of esp_touch_util.c, with the bytes of the credentials.
pub data TouchEvent : Type 0 where
  touch_start touch_disconnected touch_got_ip scan_done found_channel : TouchEvent
  got_ssid_pswd : Bytes → TouchEvent
  send_ack_done : TouchEvent

-- CONNECTED_BIT and ESPTOUCH_DONE_BIT, and what was saved and asked of the driver.
pub record Touch : Type 0 where
  pub connected : Bool
  pub done : Bool
  pub tasks : ℕ
  pub connects : ℕ
  pub saved : List Bytes

-- event_handler of esp_touch_util.c
unfoldable pub touch_handler : TouchEvent → Touch → Touch
touch_handler touch_start t = record t { tasks = suc t.tasks }
touch_handler touch_disconnected t = record t { connects = suc t.connects; connected = false }
touch_handler touch_got_ip t = record t { connected = true }
touch_handler scan_done t = t
touch_handler found_channel t = t
touch_handler (got_ssid_pswd credentials) t = record t {
  saved = credentials ∷ t.saved;
  connects = suc t.connects;
}
touch_handler send_ack_done t = record t { done = true }
