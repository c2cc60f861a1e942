-- ===== src/Lib.antt =====
-- The firmware of a smart door lock (SmartDoorLock-IoT), from the directory main. A phone opens a
-- session over TCP or Bluetooth: it sends an AES key under the lock's RSA key, proves its master key by
-- an HMAC of a seed, and then sends commands, each with two timestamps and a nonce. The lock answers
-- ACK or NAK, moves the door, and asks its server for invites and authorizations.
--
-- The parts, and where they are modelled:
--   Types          the enumerations and structures of main/utils/*.h
--   Platform       what the firmware calls and does not implement: ESP-IDF, mbedtls, cJSON, the server
--                  and uthash. Every call is an event; the answers are any functions of the events so far.
--   Device         the global variables and the monad Exec of the firmware's functions. A run ends with
--                  a result or with a fault, which is an abort or undefined behaviour of the C code.
--   Time           main/utils/time_util.c: getNowTimestamp, getTodayTimestamp, getTodayWeekday
--   Nonces         main/utils/nonce.c: addNonceSorted, checkNonce
--   Text           strtok, strtol, sprintf and C strings, as the firmware uses them
--   Users          main/utils/user_info.c: the sessions by address
--   Nvs            main/utils/nvs_util.c: the flash store
--   LockStatus     main/utils/lock_status.c: the lock and its LED, and get_lock_state
--   Base64, Pkcs7  main/utils/base64_util.c, main/utils/PKCS7.c
--   Aes            main/utils/aes_util.c
--   Crypto         main/utils/hmac_util.c, main/utils/sha256_util.c, main/utils/rsa_util.c
--   Database       main/utils/database_util.c: invites, authorizations and the registration status
--   Session        main/utils/utils.c: the session key and the cached registration status
--   Access         main/utils/authorization.c, and verifyTimestampsAndNonce, canUseLock and
--                  canCreateInvite of main/tcp_server_handler.c
--   Args, LockCommands, InviteCommands, Handler
--                  getCommand, getArgs and checkCommand of main/tcp_server_handler.c, one function for
--                  each branch
--   Messages       addTimestampsAndNonceToMsg of main/utils/nonce.c
--   Power          main/utils/power_util.c: the deep sleep timer
--   BleS3          main/ble_s3_server.c: sending in fragments (BleS3), process_normal_data (Process),
--                  the GATT and GAP callbacks (Events) and the attributes (Table)
--   Tcp            main/tcp_server.c: do_retransmit, disconnect_sock and tcp_server_task
--   Uart           main/ble_server.c: a round of echo_task
--   Http           _http_event_handler of main/utils/database_util.c
--   Wifi           the event handlers and the wait of main/utils/wifi_connect_util.c, and
--                  main/utils/esp_touch_util.c
--   Boot           main/main.c on the ESP32-S3: app_main, init_rsa_key and init_led_lock_state
--   Unlocking, Quiet
--                  what the functions that do not move the lock leave alone, and how a message can open
--                  it, whichever way it comes in
--   System         the three ways in together: steps of the servers in any order
--   Examples       runs on a small lock
-- Children of these modules hold the proofs. Functions keep their names, in lower case with underscores.
--
-- Numbers: an `int` is a ℤ, with wrap32 where the code adds to it; sizes are ℕ. `none` in a field of
-- UserInfo is a field that malloc left without a value; reading it is a fault.
-- Bounds and fuel: show_u prints n with n + 1 rounds, enough since each round divides by ten;
-- wait_for_sync makes at most 14 rounds, as the loop of obtain_time does; send_frames has 257 rounds,
-- which lead past every value of its uint8_t counter; send_rest takes its fuel as an argument, and as
-- many rounds as the response has bytes are enough where send takes a byte each time. wait_for_timer
-- counts its three rounds down, as the loop does. All else is structural.
--
-- How they interact: BleS3.Process decrypts a message with Aes under the key that Users holds, hands
-- it to Handler, and stamps (Messages), encrypts and sends the response. Handler takes the words with
-- Args; each branch asks Access, which reads the clock, the nonces, the session and the flash, before
-- it moves the door (LockStatus) or asks the server (Database).
-- Tcp, BleS3.Events and Uart bring the messages in; on the way they open and close sessions (Users),
-- show them on the LED (LockStatus) and stop or start the timer (Power). Boot joins the network, tells
-- the server of a new lock, and brings the LED to the state that Nvs kept.
--
-- Not modelled: memory that is only freed, logging, the sizes of the buffers that sprintf writes to,
-- and steps of two tasks that overlap; the options of sockets, and the set-up of the serial line, of
-- SNTP, of SPIFFS, of the Wi-Fi driver and of the Bluetooth stack; spp_cmd_task, which nothing starts,
-- and restart_esp, which nothing calls; and what mbedtls and ESP-IDF do behind an RSA, AES or HMAC
-- call, a request, a notification of main/utils/pushingbox_util.c or main/utils/uthash.h.
pub mod Common
pub mod Types
pub mod Platform
pub mod Device
pub mod Text
pub mod Users
pub mod Nvs
pub mod LockStatus
pub mod Base64
pub mod Pkcs7
pub mod Power
pub mod Aes
pub mod Crypto
pub mod Database
pub mod Http
pub mod Session
pub mod Access
pub mod Args
pub mod LockCommands
pub mod InviteCommands
pub mod Handler
pub mod Quiet
pub mod Unlocking
pub mod Time
pub mod Nonces
pub mod Examples
pub mod BleS3
pub mod Boot
pub mod Tcp
pub mod Uart
pub mod Wifi
pub mod Messages
pub mod System
