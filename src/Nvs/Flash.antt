-- ===== src/Nvs/Flash.antt =====
-- What nvs_util.c promises: on a flash that works, the authorizations are a map from phone ids, and the
-- Wi-Fi credentials a cell.
use smart_door_lock_io_t.Common.{
  ℕ, ◌<◌, Bytes, Bool, true, false, Option, none, some, [], ◌∷◌, length, str_eq, ==-false, ◌≡◌, ◌≢◌,
  refl, ap, sym, subst, ◌∙◌, if◌then◌else◌,
}
use smart_door_lock_io_t.Types.{Authorization}
use smart_door_lock_io_t.Platform.{
  Env, EspErr, esp_ok, not_found, Event, Trace, flash_init, flash_erase, nvs_open, nvs_commit,
  nvs_close, read_auth_size, erase_auth, write_auth,
}
use smart_door_lock_io_t.Device.{Device, ok, call, emit, pure, ◌>>=◌}
use smart_door_lock_io_t.Nvs.{
  filled, unwritten, init_nvs, open_nvs, with_nvs, write_and_commit, read_authorization,
  get_authorization, set_authorization, delete_authorization, read_saved_wifi, get_saved_wifi,
  set_saved_wifi, delete_saved_wifi,
}

-- NVS can be initialised, opened, written under a literal key and committed.
pub record IsHealthy (env : Env) : Type 0 where
  pub init : (t : Trace) → env.flash_init_err t ≡ esp_ok
  pub opens : (t : Trace) → env.open_err t ≡ esp_ok
  pub writes : (t : Trace) → env.write_err t ≡ esp_ok
  pub commits : (t : Trace) → env.commit_err t ≡ esp_ok

-- The names that NVS accepts as a key: not empty, and 15 characters at most.
abbrev pub IsKey : Bytes → Type 0
IsKey k = (k ≢ []) × (length k < 16)

-- What nvs_erase_key reports for a content.
abbrev pub erase_result : Option Authorization → EspErr
erase_result none = not_found
erase_result (some auth) = esp_ok

abbrev pub is_auth_write : Event → Bool
is_auth_write (write_auth auth) = true
is_auth_write (erase_auth phone_id) = true
is_auth_write flash_erase = true
is_auth_write _ = false

-- nvs_set_blob, nvs_get_blob and nvs_erase_key, as documented, on the namespace of the authorizations:
-- a blob that was written under a key is read until its key is written again or erased, or the whole
-- flash is erased, and no other key is touched; the size of a blob is not zero; and a missing key is
-- reported, by the read and by the erasure.
pub record IsAuthStore (env : Env) (content : Trace → Bytes → Option Authorization) : Type 0 where
  pub written :
      (t : Trace) (auth : Authorization) (k : Bytes)
      → IsKey auth.phone_id
      → content (write_auth auth ∷ t) k
        ≡ (if str_eq auth.phone_id k then some auth else content t k)
  pub erased :
      (t : Trace) (j k : Bytes)
      → content (erase_auth j ∷ t) k ≡ (if str_eq j k then none else content t k)
  pub wiped : (t : Trace) (k : Bytes) → content (flash_erase ∷ t) k ≡ none
  pub kept :
      (t : Trace) (e : Event) (k : Bytes)
      → is_auth_write e ≡ false
      → content (e ∷ t) k ≡ content t k
  pub accepts : (t : Trace) (k : Bytes) → IsKey k → env.auth_write_err t k ≡ esp_ok
  pub erases :
      (t : Trace) (k : Bytes) → IsKey k → env.auth_erase_err t k ≡ erase_result (content t k)
  pub size_found :
      (t : Trace) (k : Bytes) (auth : Authorization)
      → content t k ≡ some auth
      → (n : ℕ) × ((env.auth_size t k ≡ (esp_ok, n)) × (0 < n))
  pub blob_found :
      (t : Trace) (k : Bytes) (auth : Authorization)
      → content t k ≡ some auth
      → env.auth_blob t k ≡ (esp_ok, auth)
  pub size_missing :
      (t : Trace) (k : Bytes) → IsKey k → content t k ≡ none → env.auth_size t k ≡ (not_found, 0)

-- What `get_authorization` gives for a content.
abbrev pub lookup_result : Option Authorization → EspErr × smart_door_lock_io_t.Nvs.Buffer
lookup_result none = (not_found, unwritten)
lookup_result (some auth) = (esp_ok, filled auth)

-- The calls of a write that succeeds.
abbrev pub behind_write : Event → Trace → Trace
behind_write e t = nvs_close ∷ nvs_commit ∷ e ∷ nvs_open ∷ flash_init ∷ t

module _ (env : Env) (healthy : IsHealthy env) where
  pub write_and_commit_lem :
      (e : Event) (reported : Trace → EspErr) (d : Device)
      → reported (nvs_open ∷ flash_init ∷ d.trace) ≡ esp_ok
      → write_and_commit env (call e reported) d
        ≡ (ok esp_ok, record d { trace = behind_write e d.trace })
  unfolding write_and_commit with_nvs init_nvs open_nvs call emit pure ◌>>=◌
  write_and_commit_lem e reported d fine =
      rw
        (
          healthy.init d.trace,
          healthy.opens (flash_init ∷ d.trace),
          fine,
          healthy.commits (e ∷ nvs_open ∷ flash_init ∷ d.trace),
        )
        refl

  -- Nothing is committed, and the handle stays open.
  write_and_commit-missing :
      (e : Event) (reported : Trace → EspErr) (d : Device)
      → reported (nvs_open ∷ flash_init ∷ d.trace) ≡ not_found
      → write_and_commit env (call e reported) d
        ≡ (ok not_found, record d { trace = e ∷ nvs_open ∷ flash_init ∷ d.trace })
  unfolding write_and_commit with_nvs init_nvs open_nvs call emit pure ◌>>=◌
  write_and_commit-missing e reported d missing =
      rw (healthy.init d.trace, healthy.opens (flash_init ∷ d.trace), missing) refl

  module _ {content : Trace → Bytes → Option Authorization} (store : IsAuthStore env content) where
    opened : (t : Trace) (k : Bytes) → content (nvs_open ∷ flash_init ∷ t) k ≡ content t k
    opened t k = store.kept (flash_init ∷ t) nvs_open k refl ∙ store.kept t flash_init k refl

    closed_over :
        (e : Event) (t : Trace) (k : Bytes)
        → content (behind_write e t) k ≡ content (e ∷ nvs_open ∷ flash_init ∷ t) k
    closed_over e t k =
        store.kept (nvs_commit ∷ e ∷ nvs_open ∷ flash_init ∷ t) nvs_close k refl
        ∙ store.kept (e ∷ nvs_open ∷ flash_init ∷ t) nvs_commit k refl

    get_authorization_lem :
        (k : Bytes) (d : Device)
        → IsKey k
        → (get_authorization env k d).0 ≡ ok (lookup_result (content d.trace k))
    unfolding get_authorization read_authorization init_nvs open_nvs call pure ◌>>=◌
    get_authorization_lem k d key =
        rw (healthy.init d.trace, healthy.opens (flash_init ∷ d.trace))
          (by_content (content d.trace k) refl)
      where
        by_content :
            (o : Option Authorization)
            → content d.trace k ≡ o
            → ((read_authorization env k) (record d { trace = nvs_open ∷ flash_init ∷ d.trace })).0
              ≡ ok (lookup_result (content d.trace k))
        by_content none e =
            rw
              (store.size_missing (nvs_open ∷ flash_init ∷ d.trace) k key (opened d.trace k ∙ e), e)
              refl
        by_content (some auth) e =
            let here = opened d.trace k ∙ e in
            let (n, (size, some_bytes)) =
              store.size_found (nvs_open ∷ flash_init ∷ d.trace) k auth here in
            let t : Trace = read_auth_size k ∷ nvs_open ∷ flash_init ∷ d.trace in
            rw
              (
                size,
                ==-false n 0 some_bytes,
                store.blob_found t k auth
                    (store.kept (nvs_open ∷ flash_init ∷ d.trace) (read_auth_size k) k refl ∙ here),
                e,
              )
              refl

    -- A write has succeeded, and the authorizations are as given.
    abbrev Left :
        EspErr
        → (Bytes → Option Authorization)
        → smart_door_lock_io_t.Device.Result EspErr × Device
        → Type 0
    Left err now r = (r.0 ≡ ok err) × ((j : Bytes) → content r.1.trace j ≡ now j)

    set_authorization_lem :
        (auth : Authorization) (d : Device)
        → IsKey auth.phone_id
        → Left esp_ok
            (λ j. if str_eq auth.phone_id j then some auth else content d.trace j)
            (set_authorization env auth d)
    unfolding set_authorization
    set_authorization_lem auth d key =
        let t : Trace = nvs_open ∷ flash_init ∷ d.trace in
        subst (Left esp_ok (λ j. if str_eq auth.phone_id j then some auth else content d.trace j))
          (sym (
            write_and_commit_lem (write_auth auth) (λ t. env.auth_write_err t auth.phone_id) d
              (store.accepts t auth.phone_id key)))
          (
            refl,
            λ j.
                closed_over (write_auth auth) d.trace j
                ∙ store.written t auth j key
                ∙ ap (λ o. if str_eq auth.phone_id j then some auth else o) (opened d.trace j),
          )

    delete_authorization_lem :
        (k : Bytes) (d : Device)
        → IsKey k
        → Left
            (erase_result (content d.trace k))
            (λ j. if str_eq k j then none else content d.trace j)
            (delete_authorization env k d)
    unfolding delete_authorization
    delete_authorization_lem k d key =
        by_content (content d.trace k) (store.erases t k key ∙ ap erase_result (opened d.trace k))
      where
        t : Trace
        t = nvs_open ∷ flash_init ∷ d.trace

        gone :
            (j : Bytes)
            → content (erase_auth k ∷ t) j ≡ (if str_eq k j then none else content d.trace j)
        gone j = store.erased t k j ∙ ap (λ o. if str_eq k j then none else o) (opened d.trace j)

        by_content :
            (o : Option Authorization)
            → env.auth_erase_err t k ≡ erase_result o
            → Left
                (erase_result o)
                (λ j. if str_eq k j then none else content d.trace j)
                (delete_authorization env k d)
        by_content none e =
            subst (Left not_found (λ j. if str_eq k j then none else content d.trace j))
              (sym (write_and_commit-missing (erase_auth k) (λ t. env.auth_erase_err t k) d e))
              (refl, gone)
        by_content (some auth) e =
            subst (Left esp_ok (λ j. if str_eq k j then none else content d.trace j))
              (sym (write_and_commit_lem (erase_auth k) (λ t. env.auth_erase_err t k) d e))
              (refl, λ j. closed_over (erase_auth k) d.trace j ∙ gone j)

-- On a flash that works the authorizations are a map from keys. Storing one succeeds, and then that
-- one is read under its phone id; deleting one that is stored succeeds, deleting one that is not is
-- answered with ESP_ERR_NVS_NOT_FOUND, and behind either it is reported as missing; and both leave
-- what is read under every other key as it was, which is what the store holds there.
pub authorizations_form_map :
    (env : Env) (content : Trace → Bytes → Option Authorization) (auth : Authorization) (k : Bytes)
    (d : Device)
    → IsHealthy env
    → IsAuthStore env content
    → IsKey auth.phone_id
    → IsKey k
    → ((set_authorization env auth d).0 ≡ ok esp_ok)
      × ((delete_authorization env k d).0 ≡ ok (erase_result (content d.trace k)))
      × ((j : Bytes)
          → IsKey j
          → ((get_authorization env j (set_authorization env auth d).1).0
              ≡ ok
                  (lookup_result (if str_eq auth.phone_id j then some auth else content d.trace j)))
            × ((get_authorization env j (delete_authorization env k d).1).0
                ≡ ok (lookup_result (if str_eq k j then none else content d.trace j)))
            × ((get_authorization env j d).0 ≡ ok (lookup_result (content d.trace j))))
authorizations_form_map env content auth k d healthy store auth_key key =
    let (stores, held) = set_authorization_lem env healthy store auth d auth_key in
    let (deletes, left) = delete_authorization_lem env healthy store k d key in
    (
      stores,
      deletes,
      λ j is_key. (
        get_authorization_lem env healthy store j (set_authorization env auth d).1 is_key
            ∙ ap (λ o. ok (lookup_result o)) (held j),
        get_authorization_lem env healthy store j (delete_authorization env k d).1 is_key
            ∙ ap (λ o. ok (lookup_result o)) (left j),
        get_authorization_lem env healthy store j d is_key,
      ),
    )
