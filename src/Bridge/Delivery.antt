-- ===== src/Bridge/Delivery.antt =====
-- The session of a run of the bridge: what its subscribers get, and how it is left.
use nano_rpc_gateway.Prelude.{
  ℕ, ◌+◌, ◌%◌, ◌^◌, String, Bool, true, false, List, [], ◌∷◌, ◌++◌, none, some, ◌≡◌, refl, arith,
  length, length-append, get_or, set, map, ==_iff, ap, sym, subst, ◌∙◌, ◌==◌, if◌then◌else◌,
}
use nano_rpc_gateway.Prelude.Result.{ok}
use nano_rpc_gateway.Json.{Value}
use nano_rpc_gateway.Hub.{
  ConfirmationSession, EventHub, no_session, session_at, cancel, cancel_at, cancel_previous,
  start_session, drop_lease,
}
use nano_rpc_gateway.Hub.Sessions.{get_or-append_last, length-cancel_previous}
use nano_rpc_gateway.Bridge.{Event, Decoder, Listening, is_present}
use nano_rpc_gateway.Bridge.Run.{
  Bridge, Network, active_ws_url, open_socket, Waiting, handshake_timeout, await_ack,
  nano_confirmation, listen, leave, Ran, serve, acknowledged, attended, attend, clean_up,
  run_ws_bridge, mark_ws_unhealthy,
}
use nano_rpc_gateway.Bridge.Course.{course, set-append_last, hub_with, session_with, listen-course}
use nano_rpc_gateway.Bridge.Splits.{Split, course-Split}

-- The loop begins with no pong awaited, and its deadline set.
abbrev pub fresh_listening : Network → Listening
fresh_listening w = record { awaiting_pong = false; deadline = w.start_at + w.liveness }

-- The hub after a run that delivered `delivered` in a new session: the session is over exactly if
-- the run is.
pub record Served (before after : EventHub) (delivered : List Value) (over : Bool) : Type 0 where
  pub session :
      session_at after (length before.sessions)
      ≡ session_with before.next_generation (map nano_confirmation delivered) over
  pub count : length after.sessions ≡ length before.sessions + 1
  pub current : after.current ≡ (if over then none else some (length before.sessions))

cancel_at-last :
    (xs : List ConfirmationSession) (s : ConfirmationSession)
    → cancel_at (length xs) (xs ++ s ∷ []) ≡ xs ++ cancel s ∷ []
cancel_at-last xs s =
    ap (λ found. set (xs ++ s ∷ []) (length xs) (cancel found)) (get_or-append_last xs s no_session)
    ∙ set-append_last xs s (cancel s)

module _ (hub : EventHub) where
  abbrev earlier : List ConfirmationSession
  earlier = cancel_previous hub.current hub.sessions

  abbrev size-earlier : length earlier ≡ length hub.sessions
  size-earlier = length-cancel_previous hub.current hub.sessions

  abbrev hub_after : List Value → Bool → EventHub
  hub_after delivered over =
      hub_with earlier (if over then none else some (length hub.sessions))
        ((hub.next_generation + 1) % 2 ^ 64)
        (session_with hub.next_generation (map nano_confirmation delivered) over)

  hub_after-Served :
      (delivered : List Value) (over : Bool) → Served hub (hub_after delivered over) delivered over
  hub_after-Served delivered over =
      let session = session_with hub.next_generation (map nano_confirmation delivered) over in
      record {
        session =
            subst (λ n. get_or (earlier ++ session ∷ []) n no_session ≡ session) size-earlier
              (get_or-append_last earlier session no_session);
        count = omega (arith, length-append earlier (session ∷ []), size-earlier);
        current = refl;
      }

  drop_lease-last :
      (delivered : List Value)
      → drop_lease (length hub.sessions) (hub_after delivered false) ≡ hub_after delivered true
  unfolding drop_lease
  drop_lease-last delivered =
      let n = length hub.sessions in
      let sent = map nano_confirmation delivered in
      let next = (hub.next_generation + 1) % 2 ^ 64 in
      let session = session_with hub.next_generation sent false in
      let gone : cancel_at n (earlier ++ session ∷ []) ≡ earlier ++ cancel session ∷ [] =
        subst (λ k. cancel_at k (earlier ++ session ∷ []) ≡ earlier ++ cancel session ∷ [])
          size-earlier (cancel_at-last earlier session) in
      let agree : (n == n) ≡ true = (==_iff n n).1 refl in
      ap
        (λ (ss : List ConfirmationSession). record {
          sessions = ss;
          current = if n == n then none else some n;
          next_generation = next;
        })
        gone
      ∙ ap
          (λ (b : Bool). record {
            sessions = earlier ++ cancel session ∷ [];
            current = if b then none else some n;
            next_generation = next;
          })
          agree

  -- The lease goes if the loop has ended.
  leave-last :
      (result : Waiting (Unit {0})) (delivered : List Value)
      → leave (length hub.sessions) (result, hub_after delivered false)
        ≡ hub_after delivered (is_present result)
  unfolding drop_lease
  leave-last none delivered = refl
  leave-last (some r) delivered = drop_lease-last delivered

  listen-last :
      (decoder : Decoder) (liveness : ℕ) (events : List (ℕ × Event)) (s : Listening)
      → listen decoder liveness (length hub.sessions) events s (hub_after [] false) ≡ (
        (course decoder liveness events s).1,
        hub_after (course decoder liveness events s).0 false,
      )
  listen-last decoder liveness events s =
      subst
        (λ n. listen decoder liveness n events s (hub_after [] false) ≡ (
          (course decoder liveness events s).1,
          hub_after (course decoder liveness events s).0 false,
        ))
        size-earlier
        (listen-course earlier (some (length hub.sessions)) ((hub.next_generation + 1) % 2 ^ 64)
          hub.next_generation decoder liveness events s [])

-- The result of a run whose upstream has acknowledged, and its hub.
serve-run :
    (w : Network) (later : List (ℕ × Event)) (b : Bridge)
    → ((serve w later b).0 ≡ (course w.decoder w.liveness later (fresh_listening w)).1)
      × ((serve w later b).1.events
          ≡ hub_after b.events
              (course w.decoder w.liveness later (fresh_listening w)).0
              (is_present (course w.decoder w.liveness later (fresh_listening w)).1))
unfolding serve start_session drop_lease
serve-run w later b =
    let heard = listen-last b.events w.decoder w.liveness later (fresh_listening w) in
    let told = course w.decoder w.liveness later (fresh_listening w) in
    (
      ap (λ (h : nano_rpc_gateway.Bridge.Run.Heard). h.0) heard,
      ap (leave (length b.events.sessions)) heard ∙ leave-last b.events told.1 told.0,
    )

-- The cleanup changes neither the result nor the hub.
pub clean_up-kept :
    (now index : ℕ) (r : Ran)
    → ((clean_up now index r).0 ≡ r.0) × ((clean_up now index r).1.events ≡ r.1.events)
unfolding mark_ws_unhealthy
clean_up-kept now index (none, b) = (refl, refl)
clean_up-kept now index (some result, b) = (refl, refl)

-- A run whose upstream has acknowledged is the loop and its cleanup.
pub run_ws_bridge-serve :
    (w : Network) (events later : List (ℕ × Event)) (b : Bridge) (index : ℕ) (url : String)
    → active_ws_url w.select_at b ≡ ok (index, url)
    → open_socket w url ≡ ok tt
    → await_ack w.decoder (w.ack_at + handshake_timeout) events ≡ some (ok later)
    → run_ws_bridge w events b
      ≡ clean_up w.close_at index (serve w later (record b { ws_selected = some url }))
unfolding run_ws_bridge
run_ws_bridge-serve w events later b index url chosen opened acked =
    let bridge = record b { ws_selected = some url } in
    ap (λ c. attend w events c b) chosen
    ∙ ap (λ o. clean_up w.close_at index (attended w events o bridge)) opened
    ∙ ap (λ a. clean_up w.close_at index (acknowledged w a bridge)) acked

-- Once an upstream is chosen, its socket is open and the subscription is acknowledged, the events
-- that are left fall in two parts: the confirmations of the first part are what a new session of
-- the hub has sent, in their order, under the generation that was next; the second part begins with
-- the event that ends the run, and then the session is over and none is current, or it is empty,
-- and then the run goes on and the session is the current one.
pub run_ws_bridge-Served :
    (w : Network) (events later : List (ℕ × Event)) (b : Bridge) (index : ℕ) (url : String)
    → active_ws_url w.select_at b ≡ ok (index, url)
    → open_socket w url ≡ ok tt
    → await_ack w.decoder (w.ack_at + handshake_timeout) events ≡ some (ok later)
    → (delivered : List Value) × Split w.decoder w.liveness later
        (fresh_listening w)
        (delivered, (run_ws_bridge w events b).0)
      × Served b.events
          (run_ws_bridge w events b).1.events
          delivered
          (is_present (run_ws_bridge w events b).0)
run_ws_bridge-Served w events later b index url chosen opened acked =
    let chosen_bridge = record b { ws_selected = some url } in
    let whole = run_ws_bridge-serve w events later b index url chosen opened acked in
    let told = course w.decoder w.liveness later (fresh_listening w) in
    let (result, hub) = serve-run w later chosen_bridge in
    let (kept, kept_hub) = clean_up-kept w.close_at index (serve w later chosen_bridge) in
    let same_result : told.1 ≡ (run_ws_bridge w events b).0 =
      sym (ap (λ (r : Ran). r.0) whole ∙ kept ∙ result) in
    let same_hub : hub_after b.events told.0 (is_present told.1)
        ≡ (run_ws_bridge w events b).1.events =
      sym (ap (λ (r : Ran). r.1.events) whole ∙ kept_hub ∙ hub) in
    (
      told.0,
      subst (λ r. Split w.decoder w.liveness later (fresh_listening w) (told.0, r)) same_result
          (course-Split w.decoder w.liveness later (fresh_listening w)),
      subst (λ r. Served b.events (run_ws_bridge w events b).1.events told.0 (is_present r))
          same_result
          (subst (λ h. Served b.events h told.0 (is_present told.1)) same_hub
            (hub_after-Served b.events told.0 (is_present told.1))),
    )
