-- ===== src/BleS3/Table.antt =====
-- gatt_db of main/ble_s3_server.c: the attributes that the Bluetooth stack serves, and what of them a
-- client may write.
use smart_door_lock_io_t.Common.{
  ℕ, zero, suc, ℤ, Bytes, Bool, true, false, List, [], ◌∷◌, replicate, ◌==◌, ◌+◌, ◌≡◌, ◌≢◌, ◌∙◌,
  refl, sym, ap, arith,
}
use smart_door_lock_io_t.Platform.{Env, EspErr}
use smart_door_lock_io_t.Device.{Device, ok, pure}
use smart_door_lock_io_t.BleS3.Events.{written, command_val, data_ntf_cfg, data_recv_val}

-- The permissions of an attribute; all are answered by the stack and have UUIDs of 16 bits.
pub data Permission : Type 0 where
  perm_read perm_read_write : Permission

pub record Attribute : Type 0 where
  pub uuid : ℕ
  pub permission : Permission
  pub max_length : ℕ
  pub value : Bytes

-- A characteristic is declared by its properties: read and notify, or read and write.
abbrev pub declaration : ℕ → Attribute
declaration properties = record {
  uuid = 0x2803;
  permission = perm_read;
  max_length = 1;
  value = properties ∷ [];
}

-- The switch of the notifications, which a client may write.
abbrev pub client_config : Attribute
client_config = record {
  uuid = 0x2902;
  permission = perm_read_write;
  max_length = 2;
  value = 0 ∷ 0 ∷ [];
}

abbrev pub char_prop_read_notify : ℕ
char_prop_read_notify = 2 + 16

abbrev pub char_prop_read_write : ℕ
char_prop_read_write = 4 + 2

unfoldable pub gatt_db : List Attribute
gatt_db =
    record { uuid = 0x2800; permission = perm_read; max_length = 2; value = 0xe0 ∷ 0xff ∷ [] }
    ∷ declaration char_prop_read_write
    ∷ record {
      uuid = 0xffe1;
      permission = perm_read_write;
      max_length = 512;
      value = replicate 120 0;
    }
    ∷ declaration char_prop_read_notify
    ∷ record { uuid = 0xffe2; permission = perm_read; max_length = 512; value = replicate 120 0 }
    ∷ client_config
    ∷ declaration char_prop_read_write
    ∷ record {
      uuid = 0xffe3;
      permission = perm_read_write;
      max_length = 120;
      value = replicate 10 0;
    }
    ∷ declaration char_prop_read_notify
    ∷ record { uuid = 0xffe4; permission = perm_read; max_length = 120; value = replicate 10 0 }
    ∷ client_config
    ∷ []

-- Whether a client may write the attribute with this index.
abbrev pub may_write : Permission → Bool
may_write perm_read = false
may_write perm_read_write = true

abbrev pub is_writable : List Attribute → ℕ → Bool
is_writable [] index = false
is_writable (a ∷ table) zero = may_write a.permission
is_writable (a ∷ table) (suc index) = is_writable table index

different : (a b : ℕ) → a ≢ b → (a == b) ≡ false
different a b h = ground arith

true_is_not_false : true ≡ false → ⊥
true_is_not_false h = ground arith

-- The callback does nothing for a write of an attribute that the table does not let a client write,
-- or of an index outside of the table, whatever the bytes and the state of the lock.
pub written-is_writable :
    (env : Env) (number : EspErr → ℤ) (index : ℕ) (is_prep : Bool) (value : Bytes) (d : Device)
    → is_writable gatt_db index ≡ false
    → written env number index is_prep value d ≡ (ok tt, d)
unfolding written gatt_db pure
written-is_writable env number index true value d shut = refl
written-is_writable env number index false value d shut =
    rw (other command_val refl, other data_ntf_cfg refl, other data_recv_val refl) refl
  where
    other : (i : ℕ) → is_writable gatt_db i ≡ true → (index == i) ≡ false
    other i open_ =
        different index i
          (λ same. true_is_not_false (sym open_ ∙ ap (is_writable gatt_db) (sym same) ∙ shut))
