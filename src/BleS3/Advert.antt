-- ===== src/BleS3/Advert.antt =====
-- The advertising data, read as a scanner reads them.
use smart_door_lock_io_t.Common.{
  ℕ, zero, suc, Bytes, Bool, true, false, List, [], ◌∷◌, Option, none, some, codes, length, take,
  drop, leb, if◌then◌else◌, ◌≡◌, refl,
}
use smart_door_lock_io_t.Platform.{Env, is_ok, read_mac, advertise_data}
use smart_door_lock_io_t.Device.{Device, ok, call, emit, ◌>>=◌}
use smart_door_lock_io_t.BleS3.Events.{
  ext_adv_raw_data, ext_adv_set_params_complete, gap_event_handler,
}

abbrev with_first : (ℕ × Bytes) → Option (List (ℕ × Bytes)) → Option (List (ℕ × Bytes))
with_first structure none = none
with_first structure (some rest) = some (structure ∷ rest)

abbrev read_one : Bytes → Option (List (ℕ × Bytes)) → Option (List (ℕ × Bytes))
read_one [] rest = none
read_one (kind ∷ payload) rest = with_first (kind, payload) rest

-- The structures in advertising data: a length, a type and a payload each; `none` if one is cut off.
abbrev pub structures : ℕ → Bytes → Option (List (ℕ × Bytes))
structures fuel [] = some []
structures zero (n ∷ rest) = none
structures (suc fuel) (n ∷ rest) =
    let tail = structures fuel (drop n rest) in
    if leb n (length rest) then read_one (take n rest) tail else none

abbrev vendor : Bool → Bytes → List (ℕ × Bytes)
vendor true mac = (255, 255 ∷ 255 ∷ mac) ∷ []
vendor false mac = []

-- The flags, the 16-bit service 0xffe0, the complete name, and the vendor's data.
abbrev pub promised : Bool → Bytes → List (ℕ × Bytes)
promised known mac =
    (1, 6 ∷ []) ∷ (3, 224 ∷ 255 ∷ []) ∷ (9, codes "SmartLockBLE-S3") ∷ vendor known mac

readable :
    (known : Bool) (a b c d e f : ℕ)
    → structures 4 (ext_adv_raw_data known (a ∷ b ∷ c ∷ d ∷ e ∷ f ∷ []))
      ≡ some (promised known (a ∷ b ∷ c ∷ d ∷ e ∷ f ∷ []))
readable true a b c d e f = refl
readable false a b c d e f = refl

-- When the parameters are set, the callback advertises data that a scanner reads, with nothing cut
-- off, as the flags, the service, the name, and the MAC address if it could be read.
pub gap_event_handler-advertises :
    (env : Env) (a b c d e f : ℕ) (device : Device)
    → env.mac ≡ a ∷ b ∷ c ∷ d ∷ e ∷ f ∷ []
    → (raw : Bytes) × (gap_event_handler env ext_adv_set_params_complete device
        ≡ (ok tt, record device { trace = advertise_data raw ∷ read_mac ∷ device.trace }))
      × (structures 4 raw ≡ some (promised (is_ok (env.mac_err device.trace)) env.mac))
unfolding gap_event_handler call emit ◌>>=◌
gap_event_handler-advertises env a b c d e f device mac = (
  ext_adv_raw_data (is_ok (env.mac_err device.trace)) env.mac,
  refl,
  rw mac (readable (is_ok (env.mac_err device.trace)) a b c d e f),
)
