-- ===== src/BleS3/Events.antt =====
-- The callbacks of main/ble_s3_server.c: gatts_profile_event_handler, gatts_event_handler and
-- gap_event_handler. The events that only write to the log are one constructor each.
use smart_door_lock_io_t.Common.{
  ℕ, suc, ◌-◌, ℤ, Bytes, Bool, true, false, ◌&&◌, ◌||◌, List, [], ◌∷◌, ◌++◌, codes, length, str_eq,
  ltb, ◌==◌, if◌then◌else◌,
}
use smart_door_lock_io_t.Types.{connecting, disconnected}
use smart_door_lock_io_t.Platform.{
  Env, EspErr, is_ok, read_mac, encrypt_link, set_device_name, configure_privacy, create_attributes,
  start_service, oob_reply, confirm_reply, security_reply, advertise_params, advertise,
  advertise_data, queue_send,
}
use smart_door_lock_io_t.Device.{
  Exec, null_pointer, buffer_overflow, pure, raise, call, emit, gets, modify, ◌>>=◌, ◌>>◌,
}
use smart_door_lock_io_t.Text.{c_string, show_mac}
use smart_door_lock_io_t.Users.{set_user_state, set_current_ble_addr}
use smart_door_lock_io_t.LockStatus.{disconnect_lock}
use smart_door_lock_io_t.Power.{start_deep_sleep_timer, cancel_deep_sleep_timer, default_sleep_time}
use smart_door_lock_io_t.BleS3.Process.{process_normal_data}

-- The attributes: SPP_IDX_SPP_DATA_RECV_VAL, SPP_IDX_SPP_DATA_NTF_CFG and SPP_IDX_SPP_COMMAND_VAL, and
-- their number SPP_IDX_NB.
abbrev pub data_recv_val : ℕ
data_recv_val = 2

abbrev pub data_ntf_cfg : ℕ
data_ntf_cfg = 5

abbrev pub command_val : ℕ
command_val = 7

abbrev pub attributes : ℕ
attributes = 11

-- The events of the GATT server, with the parts of `param` that are read.
pub data GattsEvent : Type 0 where
  reg_evt : (status_ok : Bool) → GattsEvent
  read_evt : (handle : ℕ) → GattsEvent
  write_evt : (handle : ℕ) (is_prep : Bool) (value : Bytes) → GattsEvent
  mtu_evt : (mtu : ℕ) → GattsEvent
  connect_evt : (conn_id : ℕ) (remote_bda : Bytes) → GattsEvent
  disconnect_evt : GattsEvent
  creat_attr_tab_evt : (status_ok : Bool) (handles : List ℕ) → GattsEvent
  other_gatts_evt : GattsEvent

-- find_char_and_desr_index, from the index i on
unfoldable pub find_char_and_desr_index : List ℕ → ℕ → ℕ → ℕ
find_char_and_desr_index [] i handle = 255
find_char_and_desr_index (h ∷ hs) i handle =
    let rest = find_char_and_desr_index hs (suc i) handle in if handle == h then i else rest

-- The switch of the notifications: any other value is dropped.
unfoldable pub write_notify_config : Bytes → Exec (Unit {0})
write_notify_config value =
    if str_eq value (1 ∷ 0 ∷ [])
    then modify (λ d. record d { enable_data_ntf = true })
    else if str_eq value (0 ∷ 0 ∷ [])
    then modify (λ d. record d { enable_data_ntf = false })
    else pure tt

module _ (env : Env) where
  -- A command is copied to memory of the size of a packet and its pointer sent to the queue.
  unfoldable pub write_command : Bytes → Exec (Unit {0})
  write_command value = do
    mtu ← gets (λ d. d.spp_mtu_size)
    if ltb mtu 3 || (mtu == 3 && env.malloc_zero_is_null)
        then pure tt
        else if ltb (mtu - 3) (length value)
        then raise buffer_overflow
        else (do
          queue ← gets (λ d. d.has_cmd_queue)
          if queue then emit queue_send else raise null_pointer)

  unfoldable pub gatts_connected : ℕ → ℕ → Bytes → Exec (Unit {0})
  gatts_connected gatts_if conn_id remote_bda = do
    emit encrypt_link
    modify (λ d. record d { spp_conn_id = conn_id; spp_gatts_if = gatts_if; is_connected = true })
    cancel_deep_sleep_timer env
    modify (λ d. record d { spp_remote_bda = remote_bda; ble_user_addr = show_mac remote_bda })
    set_current_ble_addr (show_mac remote_bda)
    set_user_state env (show_mac remote_bda) connecting []

  unfoldable pub gatts_disconnected : Exec (Unit {0})
  gatts_disconnected = do
    modify (λ d. record d { is_connected = false; enable_data_ntf = false })
    start_deep_sleep_timer env default_sleep_time
    emit advertise
    set_current_ble_addr []
    addr ← gets (λ d. d.ble_user_addr)
    set_user_state env addr disconnected []
    disconnect_lock

module _ (env : Env) (number : EspErr → ℤ) where
  -- The data are read as a C string, though no NUL is known to end them.
  unfoldable pub write_data : Bytes → Exec (Unit {0})
  write_data value = do
    behind ← gets (λ d. env.behind_value d.trace)
    process_normal_data env number (c_string (value ++ behind))

  unfoldable pub written : ℕ → Bool → Bytes → Exec (Unit {0})
  written index true value = pure tt
  written index false value =
      if index == command_val
      then write_command env value
      else if index == data_ntf_cfg
      then write_notify_config value
      else if index == data_recv_val
      then write_data value
      else pure tt

  unfoldable pub gatts_profile_event_handler : GattsEvent → ℕ → Exec (Unit {0})
  gatts_profile_event_handler (reg_evt status_ok) gatts_if = do
    emit set_device_name
    emit configure_privacy
    emit create_attributes
  gatts_profile_event_handler (read_evt handle) gatts_if = pure tt
  gatts_profile_event_handler (write_evt handle is_prep value) gatts_if = do
    index ← gets (λ d. find_char_and_desr_index d.spp_handle_table 0 handle)
    written index is_prep value
  gatts_profile_event_handler (mtu_evt mtu) gatts_if = modify (λ d. record d { spp_mtu_size = mtu })
  gatts_profile_event_handler (connect_evt conn_id remote_bda) gatts_if =
      gatts_connected env gatts_if conn_id remote_bda
  gatts_profile_event_handler disconnect_evt gatts_if = gatts_disconnected env
  gatts_profile_event_handler (creat_attr_tab_evt status_ok handles) gatts_if =
      if status_ok && length handles == attributes
      then (do modify (λ d. record d { spp_handle_table = handles }); emit start_service)
      else pure tt
  gatts_profile_event_handler other_gatts_evt gatts_if = pure tt

  -- ESP_GATT_IF_NONE is 0xff.
  unfoldable pub call_profile : GattsEvent → ℕ → Exec (Unit {0})
  call_profile event gatts_if = do
    profile ← gets (λ d. d.profile_gatts_if)
    if gatts_if == 255 || gatts_if == profile
        then gatts_profile_event_handler event gatts_if
        else pure tt

  unfoldable pub gatts_event_handler : GattsEvent → ℕ → Exec (Unit {0})
  gatts_event_handler (reg_evt true) gatts_if = do
    modify (λ d. record d { profile_gatts_if = gatts_if })
    call_profile (reg_evt true) gatts_if
  gatts_event_handler (reg_evt false) gatts_if = pure tt
  gatts_event_handler event gatts_if = call_profile event gatts_if

-- The events of the GAP that are answered.
pub data GapEvent : Type 0 where
  ext_adv_set_params_complete ext_adv_data_set_complete oob_req nc_req sec_req : GapEvent
  set_local_privacy_complete other_gap_evt : GapEvent

-- ext_adv_raw_data_template: the flags, the service and the name.
abbrev pub ext_adv_raw_data_template : Bytes
ext_adv_raw_data_template = 2 ∷ 1 ∷ 6 ∷ 3 ∷ 3 ∷ 224 ∷ 255 ∷ 16 ∷ 9 ∷ codes "SmartLockBLE-S3"

-- With the MAC address behind the header of vendor data, if it could be read.
abbrev pub ext_adv_raw_data : Bool → Bytes → Bytes
ext_adv_raw_data true mac = ext_adv_raw_data_template ++ (9 ∷ 255 ∷ 255 ∷ 255 ∷ mac)
ext_adv_raw_data false mac = ext_adv_raw_data_template

unfoldable pub gap_event_handler : Env → GapEvent → Exec (Unit {0})
gap_event_handler env ext_adv_set_params_complete = do
  err ← call read_mac env.mac_err
  emit (advertise_data (ext_adv_raw_data (is_ok err) env.mac))
gap_event_handler env ext_adv_data_set_complete = emit advertise
gap_event_handler env oob_req = emit oob_reply
gap_event_handler env nc_req = emit confirm_reply
gap_event_handler env sec_req = emit security_reply
gap_event_handler env set_local_privacy_complete = emit advertise_params
gap_event_handler env other_gap_evt = pure tt
