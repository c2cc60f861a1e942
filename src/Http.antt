-- ===== src/Http.antt =====
-- _http_event_handler of main/utils/database_util.c: the body of a response is copied to the buffer of
-- the request, or to one of its own where the request has none.
pub mod Patches
pub mod Chunks
use smart_door_lock_io_t.Common.{
  ℕ, zero, ◌+◌, Bytes, Bool, true, false, List, [], ◌∷◌, ◌++◌, Option, none, some, length, take,
  drop, replicate, leb, not, if◌then◌else◌,
}
use smart_door_lock_io_t.Device.{Result, ok, fault, buffer_overflow}

-- The events; `on_data` with whether the response is chunked, its content length, whether malloc can
-- give that many bytes, and the data. The others only write to the log.
pub data HttpEvent : Type 0 where
  on_data : (is_chunked : Bool) (content_length : ℕ) (has_memory : Bool) (bytes : Bytes) → HttpEvent
  on_finish : HttpEvent
  other_http_event : HttpEvent

-- evt->user_data, and the static variables output_buffer and output_len
pub record Receiver : Type 0 where
  pub user_data : Option Bytes
  pub output_buffer : Option Bytes
  pub output_len : ℕ

-- memcpy(buffer + offset, bytes, length bytes)
unfoldable pub copied : Bytes → ℕ → Bytes → Result Bytes
copied buffer offset bytes =
    if leb (offset + length bytes) (length buffer)
    then ok (take offset buffer ++ (bytes ++ drop (offset + length bytes) buffer))
    else fault buffer_overflow

abbrev pub map_ok : {A B : Type 0} → (A → B) → Result A → Result B
map_ok f (ok a) = ok (f a)
map_ok f (fault e) = fault e

-- The result is whether the handler returns ESP_OK, and what it leaves.
-- The bytes of a new buffer count as zeros.
unfoldable pub own_buffer : Option Bytes → ℕ → Bool → Bytes → Receiver → Result (Bool × Receiver)
own_buffer (some buffer) content_length has_memory bytes r =
    map_ok
      (λ b. (true, record r { output_buffer = some b; output_len = r.output_len + length bytes }))
      (copied buffer r.output_len bytes)
own_buffer none content_length true bytes r =
    map_ok (λ b. (true, record r { output_buffer = some b; output_len = length bytes }))
      (copied (replicate content_length 0) 0 bytes)
own_buffer none content_length false bytes r = ok (false, record r { output_len = 0 })

unfoldable pub receive : Option Bytes → ℕ → Bool → Bytes → Receiver → Result (Bool × Receiver)
receive (some buffer) content_length has_memory bytes r =
    map_ok (λ b. (true, record r { user_data = some b; output_len = r.output_len + length bytes }))
      (copied buffer r.output_len bytes)
receive none content_length has_memory bytes r =
    own_buffer r.output_buffer content_length has_memory bytes r

unfoldable pub http_event_handler : HttpEvent → Receiver → Result (Bool × Receiver)
http_event_handler (on_data true content_length has_memory bytes) r = ok (true, r)
http_event_handler (on_data false content_length has_memory bytes) r =
    receive r.user_data content_length has_memory bytes r
http_event_handler on_finish r = ok (true, record r { output_buffer = none; output_len = 0 })
http_event_handler other_http_event r = ok (true, r)

-- The handler on one event after the other, as the client calls it.
abbrev pub and_then : Result (Bool × Receiver) → (Receiver → Result Receiver) → Result Receiver
and_then (ok (fine, r)) f = f r
and_then (fault e) f = fault e

unfoldable pub handle_events : List HttpEvent → Receiver → Result Receiver
handle_events [] r = ok r
handle_events (e ∷ es) r = and_then (http_event_handler e r) (λ r'. handle_events es r')

-- The buffer of a request: `char local_response_buffer[n] = {0}`. The static variables stay as the
-- request before left them.
abbrev pub request_buffer : ℕ → Receiver → Receiver
request_buffer n r = record r { user_data = some (replicate n 0) }
