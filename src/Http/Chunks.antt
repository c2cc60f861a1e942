-- ===== src/Http/Chunks.antt =====
-- How a response comes together from the parts that the client delivers.
use smart_door_lock_io_t.Common.{
  ℕ, ◌+◌, ◌≤◌, ◌<◌, Bytes, Bool, true, false, List, [], ◌∷◌, ◌++◌, Option, none, some, length, take,
  drop, replicate, leb, ◌≡◌, refl, ap, sym, ◌∙◌, inl, inr, leb-true, leb-false, less_or_not,
  length-append, length-replicate, take-append-drop, ◌-◌, arith, if◌then◌else◌,
}
use mathlib.Core.List.{append-nil}
use smart_door_lock_io_t.Device.{Result, ok, fault, buffer_overflow}
use smart_door_lock_io_t.Http.{
  HttpEvent, on_data, on_finish, Receiver, copied, receive, http_event_handler, and_then,
  handle_events, request_buffer,
}
use smart_door_lock_io_t.Http.Patches.{patched, length-patched, patched-patched, drop-replicate}

-- A request with the buffer `buffer`, of which `offset` bytes are written.
abbrev at : Bytes → ℕ → Option Bytes → Receiver
at buffer offset other = record {
  user_data = some buffer;
  output_buffer = other;
  output_len = offset;
}

abbrev pub part : Bytes → HttpEvent
part bytes = on_data false (length bytes) true bytes

abbrev pub parts : List Bytes → List HttpEvent
parts [] = []
parts (c ∷ cs) = part c ∷ parts cs

abbrev pub joined : List Bytes → Bytes
joined [] = []
joined (c ∷ cs) = c ++ joined cs

-- All bytes at once.
abbrev outcome : Bytes → ℕ → Option Bytes → Bytes → Result Receiver
outcome buffer offset other bytes =
    if leb (offset + length bytes) (length buffer)
    then ok (at (patched buffer offset bytes) (offset + length bytes) other)
    else fault buffer_overflow

outcome-fits :
    (buffer : Bytes) (offset : ℕ) (other : Option Bytes) (bytes : Bytes)
    → offset + length bytes ≤ length buffer
    → outcome buffer offset other bytes
      ≡ ok (at (patched buffer offset bytes) (offset + length bytes) other)
outcome-fits buffer offset other bytes fits =
    rw (leb-true (offset + length bytes) (length buffer) fits) refl

outcome-overflows :
    (buffer : Bytes) (offset : ℕ) (other : Option Bytes) (bytes : Bytes)
    → length buffer < offset + length bytes
    → outcome buffer offset other bytes ≡ fault buffer_overflow
outcome-overflows buffer offset other bytes more =
    rw (leb-false (offset + length bytes) (length buffer) more) refl

module _ (other : Option Bytes) where
  nothing_more :
      (buffer : Bytes) (offset : ℕ)
      → offset ≤ length buffer
      → ok (at buffer offset other) ≡ outcome buffer offset other []
  nothing_more buffer offset fits =
      let e : offset ≡ offset + 0 = omega arith in
      ap (λ b. ok (at b offset other)) (sym (take-append-drop offset buffer))
      ∙ ap (λ n. ok (at (take offset buffer ++ drop n buffer) n other)) e
      ∙ sym (outcome-fits buffer offset other [] (omega arith))

  first_fits :
      (buffer : Bytes) (offset : ℕ) (c : Bytes) (events : List HttpEvent)
      → offset + length c ≤ length buffer
      → handle_events (part c ∷ events) (at buffer offset other)
        ≡ handle_events events (at (patched buffer offset c) (offset + length c) other)
  unfolding handle_events http_event_handler receive copied
  first_fits buffer offset c events fits =
      rw (leb-true (offset + length c) (length buffer) fits) refl

  first_overflows :
      (buffer : Bytes) (offset : ℕ) (c : Bytes) (events : List HttpEvent)
      → length buffer < offset + length c
      → handle_events (part c ∷ events) (at buffer offset other) ≡ fault buffer_overflow
  unfolding handle_events http_event_handler receive copied
  first_overflows buffer offset c events more =
      rw (leb-false (offset + length c) (length buffer) more) refl

  merges :
      (buffer : Bytes) (offset : ℕ) (c rest : Bytes)
      → offset + length c ≤ length buffer
      → outcome (patched buffer offset c) (offset + length c) other rest
        ≡ outcome buffer offset other (c ++ rest)
  merges buffer offset c rest fits =
      let size = length-patched buffer offset c fits in
      let sum : offset + length c + length rest ≡ offset + length (c ++ rest) =
        omega (arith, length-append c rest) in
      elim (less_or_not (length buffer) (offset + length c + length rest)) [
        | inl more ↦
            outcome-overflows (patched buffer offset c) (offset + length c) other rest
              (omega (arith, size))
            ∙ sym (outcome-overflows buffer offset other (c ++ rest) (omega (arith, sum)))
        | inr all ↦
            outcome-fits (patched buffer offset c) (offset + length c) other rest
              (omega (arith, size))
            ∙ ap (λ b. ok (at b (offset + length c + length rest) other))
                (patched-patched buffer offset c rest all)
            ∙ ap (λ n. ok (at (patched buffer offset (c ++ rest)) n other)) sum
            ∙ sym (outcome-fits buffer offset other (c ++ rest) (omega (arith, sum)))
      ]

  collects :
      (chunks : List Bytes) (buffer : Bytes) (offset : ℕ)
      → offset ≤ length buffer
      → handle_events (parts chunks) (at buffer offset other)
        ≡ outcome buffer offset other (joined chunks)
  unfolding handle_events
  collects [] buffer offset fits = nothing_more buffer offset fits
  collects (c ∷ cs) buffer offset fits = elim (less_or_not (length buffer) (offset + length c)) [
    | inl more ↦
        first_overflows buffer offset c (parts cs) more
        ∙ sym (
            outcome-overflows buffer offset other (c ++ joined cs)
              (omega (arith, length-append c (joined cs))))
    | inr enough ↦
        first_fits buffer offset c (parts cs) enough
        ∙ collects cs (patched buffer offset c) (offset + length c)
            (omega (arith, length-patched buffer offset c enough))
        ∙ merges buffer offset c (joined cs) enough
  ]

-- However the client cuts a response that is not chunked, the handler comes to the same as with the
-- response in one part: the same buffer, or the same write behind the end of it.
pub handle_events-joined :
    (buffer : Bytes) (offset : ℕ) (other : Option Bytes) (chunks : List Bytes)
    → offset ≤ length buffer
    → handle_events
        (parts chunks)
        (record { user_data = some buffer; output_buffer = other; output_len = offset })
      ≡ handle_events
          (part (joined chunks) ∷ [])
          (record { user_data = some buffer; output_buffer = other; output_len = offset })
handle_events-joined buffer offset other chunks fits =
    collects other chunks buffer offset fits
    ∙ ap (λ b. outcome buffer offset other b) (sym (append-nil (joined chunks)))
    ∙ sym (collects other (joined chunks ∷ []) buffer offset fits)

abbrev follow : Result Receiver → (Receiver → Result Receiver) → Result Receiver
follow (ok r) f = f r
follow (fault e) f = fault e

handle_events-append :
    (es fs : List HttpEvent) (r : Receiver)
    → handle_events (es ++ fs) r ≡ follow (handle_events es r) (handle_events fs)
unfolding handle_events
handle_events-append [] fs r = refl
handle_events-append (e ∷ es) fs r =
    by_first (http_event_handler e r) (λ s. handle_events-append es fs s)
  where
    by_first :
        (first : Result (Bool × Receiver))
        → ((s : Receiver)
            → handle_events (es ++ fs) s ≡ follow (handle_events es s) (handle_events fs))
        → and_then first (λ s. handle_events (es ++ fs) s)
          ≡ follow (and_then first (λ s. handle_events es s)) (handle_events fs)
    by_first (ok (fine, s)) rest = rest s
    by_first (fault e') rest = refl

-- A response that comes in parts and ends, to a request with a buffer of n bytes, after a request that
-- ended: if it has at most n bytes, the buffer holds it and then zeros, and the handler is ready for
-- the next request; if it is longer, the handler writes behind the buffer of the request.
pub handle_events-response :
    (n : ℕ) (chunks : List Bytes) (r : Receiver)
    → r.output_len ≡ 0
    → handle_events (parts chunks ++ on_finish ∷ []) (request_buffer n r) ≡ (
        if leb (length (joined chunks)) n
        then ok (record {
          user_data = some (joined chunks ++ replicate (n - length (joined chunks)) 0);
          output_buffer = none;
          output_len = 0;
        })
        else fault buffer_overflow)
unfolding handle_events http_event_handler
handle_events-response n chunks r ready =
    let all : Bytes = joined chunks in
    elim (less_or_not n (length all)) [
      | inl more ↦
          whole
          ∙ ap finished (
              outcome-overflows zeros 0 r.output_buffer all
                (omega (arith, length-replicate {A = ℕ} n 0)))
          ∙ sym (rw (leb-false (length all) n more) refl)
      | inr fits ↦
          whole
          ∙ ap finished (
              outcome-fits zeros 0 r.output_buffer all
                (omega (arith, length-replicate {A = ℕ} n 0)))
          ∙ ends (drop (0 + length all) zeros)
          ∙ ap (λ k. ok (at (all ++ drop k zeros) 0 none)) (omega arith)
          ∙ ap (λ rest. ok (at (all ++ rest) 0 none)) (drop-replicate (length all) n)
          ∙ sym (rw (leb-true (length all) n (omega arith)) refl)
    ]
  where
    zeros : Bytes
    zeros = replicate n 0

    finished : Result Receiver → Result Receiver
    finished x = follow x (handle_events (on_finish ∷ []))

    whole :
        handle_events (parts chunks ++ on_finish ∷ []) (request_buffer n r)
        ≡ finished (outcome zeros 0 r.output_buffer (joined chunks))
    whole =
        handle_events-append (parts chunks) (on_finish ∷ []) (request_buffer n r)
        ∙ ap (λ k. finished (handle_events (parts chunks) (at zeros k r.output_buffer))) ready
        ∙ ap finished (collects r.output_buffer chunks zeros 0 (omega arith))

    ends :
        (rest : Bytes)
        → finished (ok (at (joined chunks ++ rest) (0 + length (joined chunks)) r.output_buffer))
          ≡ ok (at (joined chunks ++ rest) 0 none)
    ends rest = refl
