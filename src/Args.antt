-- ===== src/Args.antt =====
-- The words of a command: `getCommand`, `getArgs` and `free_args` of main/tcp_server_handler.c.
pub mod Words
use smart_door_lock_io_t.Common.{
  ℕ, zero, suc, Bytes, Bool, List, [], ◌∷◌, Option, none, some, length, take, drop, ltb, ◌==◌,
  if◌then◌else◌,
}
use smart_door_lock_io_t.Platform.{Env}
use smart_door_lock_io_t.Device.{Exec, bad_free, pure, raise, ◌>>=◌, ◌>>◌}
use smart_door_lock_io_t.Text.{tokens}
use smart_door_lock_io_t.Session.{head_token}

-- NULL if there is no word.
unfoldable pub get_command : Bytes → Option Bytes
get_command str = head_token (tokens str)

-- `while (i--) free(args[i-1]);`: the last round has i = 0 and frees args[-1].
unfoldable pub release : ℕ → Exec (Unit {0})
release zero = pure tt
release (suc i) = let rest = release i in if i == 0 then raise bad_free else rest

module _ (env : Env) where
  -- `none` is NULL: too few words, or the NULL of malloc(0).
  unfoldable pub get_args : Bytes → ℕ → Exec (Option (List Bytes))
  get_args str n =
      let args = take n (drop 1 (tokens str)) in
      if ltb (length args) n
      then (do release (length args); pure none)
      else if n == 0
      then pure (if env.malloc_zero_is_null then none else some [])
      else pure (some args)
