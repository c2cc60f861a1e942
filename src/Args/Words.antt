-- ===== src/Args/Words.antt =====
-- What `getArgs` gives for every number of words.
use smart_door_lock_io_t.Common.{
  ltb-true, ltb-false, length-take, length-take_short, ℕ, zero, suc, ◌<◌, ◌≤◌, Bytes, false, List,
  none, some, length, take, drop, ◌==◌, ◌≡◌, refl, arith,
}
use smart_door_lock_io_t.Platform.{Env}
use smart_door_lock_io_t.Device.{Device, ok, fault, bad_free, pure, raise, ◌>>=◌}
use smart_door_lock_io_t.Text.{tokens}
use smart_door_lock_io_t.Args.{release, get_args}

-- Every word but one is released before the loop frees what stands in front of the first.
release-bad_free : (i : ℕ) (d : Device) → release (suc i) d ≡ (fault bad_free, d)
unfolding release raise
release-bad_free zero d = refl
release-bad_free (suc i) d = ground (arith, release-bad_free i d)

released :
    {A : Type 0} (k : ℕ) (a : A) (d : Device)
    → (release (suc k) >>= λ _. pure a) d ≡ (fault bad_free, d)
unfolding ◌>>=◌
released k a d = rw release-bad_free refl

-- The release of the first words, and NULL behind it.
release_then_null :
    {A : Type 0} (k : ℕ) (a : A) (d : Device)
    → 0 < k
    → (release k >>= λ _. pure a) d ≡ (fault bad_free, d)
release_then_null zero a d h = absurd (omega arith)
release_then_null (suc k) a d h = released k a d

positive-nonzero : (n : ℕ) → 0 < n → (n == 0) ≡ false
positive-nonzero n h = ground arith

-- For a positive number n of arguments, and the words behind the command word: n words or more give
-- the first n of them; no word gives NULL; and one to n - 1 words end in a free of the memory in front
-- of the array.
pub get_args-cases :
    (env : Env) (str : Bytes) (n : ℕ) (d : Device)
    → 0 < n
    → let words = drop 1 (tokens str) in
      (n ≤ length words → get_args env str n d ≡ (ok (some (take n words)), d))
      × (length words ≡ 0 → get_args env str n d ≡ (ok none, d))
      × (0 < length words → length words < n → get_args env str n d ≡ (fault bad_free, d))
unfolding get_args pure ◌>>=◌ release
get_args-cases env str n d positive = (enough, missing, few)
  where
    words : List Bytes
    words = drop 1 (tokens str)

    enough : n ≤ length words → get_args env str n d ≡ (ok (some (take n words)), d)
    enough h =
        rw
          (
            ltb-false (length (take n words)) n (omega (arith, length-take n words h)),
            positive-nonzero n positive,
          )
          refl

    missing : length words ≡ 0 → get_args env str n d ≡ (ok none, d)
    missing h = rw (length-take_short n words (omega (arith, h)), h, ltb-true 0 n positive) refl

    few : 0 < length words → length words < n → get_args env str n d ≡ (fault bad_free, d)
    few some_words h =
        rw (length-take_short n words (omega arith), ltb-true (length words) n h)
          (release_then_null (length words) none d some_words)
