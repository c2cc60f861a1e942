-- ===== src/Messages.antt =====
-- addTimestampsAndNonceToMsg of main/utils/nonce.c: what the lock appends to its answers.
pub mod Window
use smart_door_lock_io_t.Common.{ℤ, pos, ◌+ℤ◌, ◌-ℤ◌, wrap32, Bytes, List, ◌∷◌, ◌++◌}
use smart_door_lock_io_t.Platform.{Env, random_word}
use smart_door_lock_io_t.Device.{Exec, pure, call, ◌>>=◌, ◌>>◌}
use smart_door_lock_io_t.Text.{show_d, show_u}
use smart_door_lock_io_t.Time.{get_now_timestamp}

unfoldable pub stamped : Bytes → ℤ → ℤ → Bytes → Bytes
stamped msg from until nonce = msg ++ b' ' ∷ (show_d from ++ b' ' ∷ (show_d until ++ b' ' ∷ nonce))

unfoldable pub add_timestamps_and_nonce_to_msg : Env → Bytes → Exec Bytes
add_timestamps_and_nonce_to_msg env msg = do
  now ← get_now_timestamp env
  word ← call random_word env.random_u32
  pure (stamped msg (wrap32 (now -ℤ pos 30)) (wrap32 (now +ℤ pos 30)) (show_u word))
