-- ===== src/Wifi/Retries.antt =====
-- How often the handler of wifi_connect_util.c tries again, and when the wait for a network ends.
use smart_door_lock_io_t.Common.{
  ℕ, suc, ◌+◌, ◌*◌, ◌≤◌, ◌<◌, true, false, List, [], ◌∷◌, ◌++◌, ltb-true, ltb-false, ◌≡◌, refl, ap,
  sym, subst, ◌∙◌, arith,
}
use mathlib.Core.List.{append-nil}
use smart_door_lock_io_t.Wifi.{
  WifiEvent, sta_start, sta_disconnected, got_ip, other_event, Station, event_handler, verdict,
  decided, still_waiting, joined, gave_up, wait_bits, fresh_station,
}

-- The events of a kind.
abbrev pub starts : List WifiEvent → ℕ
starts [] = 0
starts (sta_start ∷ es) = suc (starts es)
starts (_ ∷ es) = starts es

abbrev pub disconnections : List WifiEvent → ℕ
disconnections [] = 0
disconnections (sta_disconnected ∷ es) = suc (disconnections es)
disconnections (_ ∷ es) = disconnections es

abbrev pub addresses : List WifiEvent → ℕ
addresses [] = 0
addresses (got_ip ∷ es) = suc (addresses es)
addresses (_ ∷ es) = addresses es

-- The states that the handler reaches, with the events that led there.
pub data Reach (s : Station) : List WifiEvent → Station → Type 0 where
  here : Reach s [] s
  next :
      (e : WifiEvent) {es : List WifiEvent} {t : Station}
      → Reach s es t
      → Reach s (e ∷ es) (event_handler e t)

-- What holds behind the events `es`, with `r` retries made before them.
pub record IsBounded (r : ℕ) (es : List WifiEvent) (t : Station) : Type 0 where
  pub retries : t.s_retry_num ≤ 5
  pub earned : t.s_retry_num ≤ r + disconnections es
  pub spent : t.attempts ≤ starts es + t.s_retry_num + 5 * addresses es
  pub gives_up : t.fail_bit ≡ true → 6 ≤ r + disconnections es
  pub joins : t.connected_bit ≡ true → 1 ≤ addresses es

step-IsBounded :
    (r : ℕ) (e : WifiEvent) (es : List WifiEvent) (t : Station)
    → IsBounded r es t
    → IsBounded r (e ∷ es) (event_handler e t)
unfolding event_handler
step-IsBounded r sta_start es t b = ground arith
step-IsBounded r sta_disconnected es t b = ground arith
step-IsBounded r got_ip es t b = ground arith
step-IsBounded r other_event es t b = ground arith

-- Whatever events come in: the handler counts at most five retries; it asks the driver to connect at
-- most once for each start, five times without an address, and five times more behind each address;
-- it gives up only behind six disconnections, those before included, and is joined only behind an
-- address.
pub Reach-IsBounded :
    (r : ℕ) (es : List WifiEvent) (t : Station)
    → r ≤ 5
    → Reach (fresh_station r) es t
    → IsBounded r es t
Reach-IsBounded r es t few here = ground arith
Reach-IsBounded r es t few (next e {es = before} {t = u} path) =
    step-IsBounded r e before u (Reach-IsBounded r before u few path)

-- No address among the events.
abbrev pub NoAddress : List WifiEvent → Type 0
NoAddress es = addresses es ≡ 0

-- The station waits, with `r` retries made.
abbrev Waits : ℕ → Station → Type 0
Waits r s = (s.connected_bit ≡ false) × ((s.fail_bit ≡ false) × (s.s_retry_num ≡ r))

abbrev handle_all : List WifiEvent → Station → Station
handle_all [] s = s
handle_all (e ∷ es) s = handle_all es (event_handler e s)

wait_step :
    (e : WifiEvent) (es : List WifiEvent) (s : Station)
    → s.connected_bit ≡ false
    → s.fail_bit ≡ false
    → wait_bits (e ∷ es) s ≡ wait_bits es (event_handler e s)
unfolding wait_bits
wait_step e es s c f =
    let v : verdict s.connected_bit s.fail_bit ≡ still_waiting =
      ap (λ b. verdict b s.fail_bit) c ∙ ap (λ b. verdict false b) f in
    ap (λ w. decided w s (wait_bits es (event_handler e s))) v

retried : Station → Station
retried s = record s { attempts = suc s.attempts; s_retry_num = suc s.s_retry_num }

handler_retries : (s : Station) → s.s_retry_num < 5 → event_handler sta_disconnected s ≡ retried s
unfolding event_handler retried
handler_retries s few = rw (ltb-true s.s_retry_num 5 few) refl

retried-Waits :
    (r : ℕ) (s : Station)
    → s.connected_bit ≡ false
    → s.fail_bit ≡ false
    → s.s_retry_num ≡ r
    → Waits (suc r) (retried s)
unfolding retried
retried-Waits r s c f n = (c, (f, ap suc n))

handle_all-Waits :
    (r : ℕ) (before post : List WifiEvent) (s : Station)
    → Waits r s
    → NoAddress before
    → r + disconnections before ≤ 5
    → (wait_bits (before ++ post) s ≡ wait_bits post (handle_all before s))
      × Waits (r + disconnections before) (handle_all before s)
unfolding event_handler
handle_all-Waits r [] post s (c, (f, n)) h few = (refl, (c, (f, n ∙ omega arith)))
handle_all-Waits r (sta_start ∷ es) post s (c, (f, n)) h few =
    let (same, waits) = handle_all-Waits r es post (event_handler sta_start s) (c, (f, n)) h few in
    (wait_step sta_start (es ++ post) s c f ∙ same, waits)
handle_all-Waits r (other_event ∷ es) post s (c, (f, n)) h few =
    let (same, waits) =
      handle_all-Waits r es post (event_handler other_event s) (c, (f, n)) h few in
    (wait_step other_event (es ++ post) s c f ∙ same, waits)
handle_all-Waits r (got_ip ∷ es) post s w h few = absurd (omega (arith, h))
handle_all-Waits r (sta_disconnected ∷ es) post s (c, (f, n)) h few =
    let e : suc r + disconnections es ≡ r + suc (disconnections es) = omega arith in
    let retry = handler_retries s (omega (arith, n)) in
    let (same, waits) =
      handle_all-Waits (suc r) es post (event_handler sta_disconnected s)
        (subst (Waits (suc r)) (sym retry) (retried-Waits r s c f n)) h (omega arith) in
    (
      wait_step sta_disconnected (es ++ post) s c f ∙ same,
      subst (λ k. Waits k (handle_all es (event_handler sta_disconnected s))) e waits,
    )

connected-joined :
    (es : List WifiEvent) (s : Station) → s.connected_bit ≡ true → (wait_bits es s).0 ≡ joined
unfolding wait_bits
connected-joined [] s c = ap (λ b. verdict b s.fail_bit) c
connected-joined (e ∷ es) s c =
    let v : verdict s.connected_bit s.fail_bit ≡ joined = ap (λ b. verdict b s.fail_bit) c in
    ap (λ w. (decided w s (wait_bits es (event_handler e s))).0) v

failed-gave_up :
    (es : List WifiEvent) (s : Station)
    → s.connected_bit ≡ false
    → s.fail_bit ≡ true
    → (wait_bits es s).0 ≡ gave_up
unfolding wait_bits
failed-gave_up [] s c f = ap (λ b. verdict b s.fail_bit) c ∙ ap (λ b. verdict false b) f
failed-gave_up (e ∷ es) s c f =
    let v : verdict s.connected_bit s.fail_bit ≡ gave_up =
      ap (λ b. verdict b s.fail_bit) c ∙ ap (λ b. verdict false b) f in
    ap (λ w. (decided w s (wait_bits es (event_handler e s))).0) v

gives_up_at :
    (post : List WifiEvent) (s : Station)
    → Waits 5 s
    → (wait_bits (sta_disconnected ∷ post) s).0 ≡ gave_up
unfolding event_handler
gives_up_at post s (c, (f, n)) =
    let failed : event_handler sta_disconnected s ≡ record s { fail_bit = true } =
      rw (ltb-false s.s_retry_num 5 (omega (arith, n))) refl in
    ap (λ r. r.0) (wait_step sta_disconnected post s c f ∙ ap (λ t. wait_bits post t) failed)
    ∙ failed-gave_up post (record s { fail_bit = true }) c refl

-- With `r` retries made before, and while no address and with them at most five disconnections came
-- in, wifi_init_sta waits. If an address comes next it reports the network as joined, and if the
-- sixth disconnection comes next it reports a failure, whatever comes after.
pub wait_bits-verdicts :
    (r : ℕ) (before after : List WifiEvent)
    → NoAddress before
    → r + disconnections before ≤ 5
    → ((wait_bits before (fresh_station r)).0 ≡ still_waiting)
      × ((wait_bits (before ++ got_ip ∷ after) (fresh_station r)).0 ≡ joined)
      × (r + disconnections before ≡ 5
          → (wait_bits (before ++ sta_disconnected ∷ after) (fresh_station r)).0 ≡ gave_up)
unfolding event_handler wait_bits
wait_bits-verdicts r before after h few =
    let start : Waits r (fresh_station r) = (refl, (refl, refl)) in
    let through =
      λ (post : List WifiEvent). handle_all-Waits r before post (fresh_station r) start h few in
    let last : Station = handle_all before (fresh_station r) in
    let (c, (f, n)) = (through []).1 in
    (
      ap (λ l. (wait_bits l (fresh_station r)).0) (sym (append-nil before))
          ∙ ap (λ x. x.0) (through []).0
          ∙ ap (λ b. verdict b last.fail_bit) c
          ∙ ap (λ b. verdict false b) f,
      ap (λ x. x.0) ((through (got_ip ∷ after)).0 ∙ wait_step got_ip after last c f)
          ∙ connected-joined after (event_handler got_ip last) refl,
      λ five.
          ap (λ x. x.0) (through (sta_disconnected ∷ after)).0
          ∙ gives_up_at after last (c, (f, n ∙ five)),
    )
