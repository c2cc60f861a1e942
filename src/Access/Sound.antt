-- ===== src/Access/Sound.antt =====
-- What stands behind an accepted message and a granted use of the lock.
use smart_door_lock_io_t.Common.{
  ℕ, ℤ, pos, ◌+◌, ◌+ℤ◌, wrap32, ◌≤ℤ◌, leb_ℤ, Bytes, Bool, true, false, ◌&&◌, List, some, get_elem?,
  ◌≡◌, refl, ap, sym, subst, ◌∙◌, arith, if◌then◌else◌,
}
use smart_door_lock_io_t.Platform.{Env}
use smart_door_lock_io_t.Device.{Device, ok, Exec, pure, modify, ◌>>=◌}
use smart_door_lock_io_t.Device.Runs.{ok-injective, bind-ok, require-ok}
use smart_door_lock_io_t.Text.{strtol}
use smart_door_lock_io_t.Time.{get_now_timestamp}
use smart_door_lock_io_t.Nonces.{add_nonce_sorted, add_nonce, check_nonce}
use smart_door_lock_io_t.Access.{arg, record_nonce, verify_timestamps_and_nonce}

pub record IsFresh (env : Env) (args : List Bytes) (first : ℕ) (d d' : Device) : Type 0 where
  pub from : Bytes
  pub until : Bytes
  pub nonce : Bytes
  pub now : ℤ
  pub read : Device
  pub checked : Device
  pub first_word : get_elem? args first ≡ some from
  pub second_word : get_elem? args (first + 1) ≡ some until
  pub third_word : get_elem? args (first + 2) ≡ some nonce
  pub clock : get_now_timestamp env d ≡ (ok now, read)
  pub in_window : (strtol from ≤ℤ now) × (now ≤ℤ strtol until)
  pub unused : check_nonce env (strtol nonce) read ≡ (ok true, checked)
  pub recorded :
      d'.nonces
      ≡ add_nonce_sorted
          (record { nonce = strtol nonce; expires = wrap32 (strtol until +ℤ pos 10) })
          checked.nonces

false-true : false ≡ true → ⊥
false-true h = ground arith

-- The run of a test that grants nothing where it fails.
if-true :
    (b : Bool) (m : Exec Bool) (d d' : Device)
    → (if b then m else pure false) d ≡ (ok true, d')
    → (b ≡ true) × (m d ≡ (ok true, d'))
unfolding pure
if-true true m d d' h = (refl, h)
if-true false m d d' h = absurd (false-true (ok-injective h).0)

between : (a b c : ℤ) → (leb_ℤ a b && leb_ℤ b c) ≡ true → (a ≤ℤ b) × (b ≤ℤ c)
between a b c h = ground arith

record_nonce-true :
    (env : Env) (b : Bool) (nonce ts2 : ℤ) (d d' : Device)
    → record_nonce env b nonce ts2 d ≡ (ok true, d')
    → (b ≡ true)
      × (d'.nonces
          ≡ add_nonce_sorted (record { nonce = nonce; expires = wrap32 (ts2 +ℤ pos 10) }) d.nonces)
unfolding record_nonce add_nonce modify pure ◌>>=◌
record_nonce-true env true nonce ts2 d d' h = (refl, sym (ap (λ e. e.nonces) (ok-injective h).1))
record_nonce-true env false nonce ts2 d d' h = absurd (false-true (ok-injective h).0)

-- An accepted message has its three words, the clock stands between its timestamps, no compared node
-- holds its nonce, and the nonce is recorded, to expire ten seconds after the second timestamp.
pub verify_timestamps_and_nonce-IsFresh :
    (env : Env) (args : List Bytes) (first : ℕ) (d d' : Device)
    → verify_timestamps_and_nonce env args first d ≡ (ok true, d')
    → IsFresh env args first d d'
unfolding verify_timestamps_and_nonce arg
verify_timestamps_and_nonce-IsFresh env args first d d' h =
    let (a, (da, (run_a, h1))) = bind-ok _ _ d d' true h in
    let (b, (db, (run_b, h2))) = bind-ok _ _ da d' true h1 in
    let (c, (dc, (run_c, h3))) = bind-ok _ _ db d' true h2 in
    let (now, (dn, (run_n, h4))) = bind-ok _ _ dc d' true h3 in
    let (u, (du, (run_u, h5))) = bind-ok _ _ dn d' true h4 in
    let (word_a, same_a) = require-ok _ _ d da a run_a in
    let (word_b, same_b) = require-ok _ _ da db b run_b in
    let (word_c, same_c) = require-ok _ _ db dc c run_c in
    let (is_true, written) = record_nonce-true env u _ _ du d' h5 in
    let (window, checked) =
      if-true (leb_ℤ (strtol a) now && leb_ℤ now (strtol b)) (check_nonce env (strtol c)) dn du
        (run_u ∙ ap (λ v. (ok v, du)) is_true) in
    record {
      from = a;
      until = b;
      nonce = c;
      now = now;
      read = dn;
      checked = du;
      first_word = word_a;
      second_word = word_b;
      third_word = word_c;
      clock =
          subst (λ e. get_now_timestamp env e ≡ (ok now, dn)) (sym (same_a ∙ same_b ∙ same_c))
            run_n;
      in_window = between (strtol a) now (strtol b) window;
      unused = checked;
      recorded = written;
    }
