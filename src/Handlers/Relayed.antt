-- ===== src/Handlers/Relayed.antt =====
-- From the upstream to a subscriber: the run of the bridge and the stream of the session it begins.
use nano_rpc_gateway.Prelude.{
  ℕ, ◌+◌, String, Bool, List, [], ◌∷◌, ◌++◌, some, ◌≡◌, refl, map, ap, sym, ◌∙◌, if◌then◌else◌,
  length,
}
use nano_rpc_gateway.Prelude.Result.{ok}
use nano_rpc_gateway.Json.{Value}
use nano_rpc_gateway.Stream.{NanoEvent, StreamOptions}
use nano_rpc_gateway.Hub.{ConfirmationSession, session_at}
use nano_rpc_gateway.Bridge.{Event}
use nano_rpc_gateway.Bridge.Run.{
  Network, Bridge, active_ws_url, open_socket, handshake_timeout, await_ack, nano_confirmation,
  run_ws_bridge,
}
use nano_rpc_gateway.Bridge.Splits.{Split}
use nano_rpc_gateway.Bridge.Delivery.{fresh_listening, run_ws_bridge-Served}
use nano_rpc_gateway.Handlers.Events.{comment, sse_event, Reception, stream_body}
use nano_rpc_gateway.Handlers.Delivered.{subscription_view, items_before, stream_body-view}

-- What a channel of tokio promises its receiver: what had been sent before the subscription is missed,
-- and from there on the events come in their order, none left out before a reception of another
-- kind; what is sent after it is unread.
pub record Received (session : ConfirmationSession) (missed : List NanoEvent)
    (receptions : List Reception) : Type 0 where
  pub unread : List NanoEvent
  pub in_order : session.sent ≡ missed ++ (items_before receptions ++ unread)

map-append_parts {ℓ κ} :
    {A : Type ℓ} {B : Type κ} (f : A → B) (xs : List A) (ys zs : List B)
    → map f xs ≡ ys ++ zs
    → (front back : List A) × (xs ≡ front ++ back) × (map f front ≡ ys) × (map f back ≡ zs)
map-append_parts f xs [] zs h = ([], xs, refl, refl, h)
map-append_parts f [] (y ∷ ys) zs h = absurd cc
map-append_parts f (x ∷ xs) (y ∷ ys) zs h =
    let tail : map f xs ≡ ys ++ zs = cc in
    let head : f x ≡ y = cc in
    let (front, back, parts, first, second) = map-append_parts f xs ys zs tail in
    (x ∷ front, back, ap (λ l. x ∷ l) parts, cc, second)

-- The confirmations that a subscriber of a session sees, among those that the session has sent.
pub record Relayed (delivered : List Value) (missed : List NanoEvent) (seen : List Value)
    : Type 0 where
  pub before : List Value
  pub after : List Value
  pub parts : delivered ≡ before ++ (seen ++ after)
  pub missed_before : map nano_confirmation before ≡ missed

Received-Relayed :
    (session : ConfirmationSession) (missed : List NanoEvent) (receptions : List Reception)
    (delivered : List Value)
    → session.sent ≡ map nano_confirmation delivered
    → Received session missed receptions
    → (seen : List Value) × Relayed delivered missed seen
      × (map nano_confirmation seen ≡ items_before receptions)
Received-Relayed session missed receptions delivered sent r =
    let (before, later, split, first, rest) =
      map-append_parts nano_confirmation delivered missed (items_before receptions ++ r.unread)
        (sym sent ∙ r.in_order) in
    let (seen, after, split_later, second, last) =
      map-append_parts nano_confirmation later (items_before receptions) r.unread rest in
    (
      seen,
      record {
        before = before;
        after = after;
        parts = split ∙ ap (λ l. before ++ l) split_later;
        missed_before = first;
      },
      second,
    )

-- Once an upstream is chosen, its socket is open and the subscription is acknowledged, a subscriber of
-- the session that the run begins gets a consecutive part of the confirmations that the upstream
-- sends before the run ends, those that it missed being the ones sent before it: after the comment
-- that a session gets that is not over, each confirmation of that part that matches its options,
-- projected, in their order, and nothing else.
pub run_ws_bridge-stream_body :
    (w : Network) (events later : List (ℕ × Event)) (b : Bridge) (index : ℕ) (url : String)
    → active_ws_url w.select_at b ≡ ok (index, url)
    → open_socket w url ≡ ok tt
    → await_ack w.decoder (w.ack_at + handshake_timeout) events ≡ some (ok later)
    → (is_cancelled : Bool) (options : StreamOptions) (missed : List NanoEvent)
      (receptions : List Reception)
    → Received
        (session_at (run_ws_bridge w events b).1.events (length b.events.sessions))
        missed
        receptions
    → (delivered : List Value) × (seen : List Value) × Split w.decoder w.liveness later
        (fresh_listening w)
        (delivered, (run_ws_bridge w events b).0)
      × Relayed delivered missed seen
      × ((stream_body is_cancelled options receptions).frames
          ≡ (if is_cancelled then [] else comment "connected" ∷ [])
            ++ map sse_event (subscription_view options (map nano_confirmation seen)))
run_ws_bridge-stream_body w events later b index url chosen opened acked is_cancelled options missed
      receptions received =
    let (delivered, split, served) =
      run_ws_bridge-Served w events later b index url chosen opened acked in
    let session = session_at (run_ws_bridge w events b).1.events (length b.events.sessions) in
    let sent = ap (λ (s : ConfirmationSession). s.sent) served.session in
    let (seen, relayed, same) =
      Received-Relayed session missed receptions delivered sent received in
    (
      delivered,
      seen,
      split,
      relayed,
      (stream_body-view is_cancelled options receptions).0
          ∙ ap
              (λ l.
                (if is_cancelled then [] else comment "connected" ∷ [])
                ++ map sse_event (subscription_view options l))
              (sym same),
    )
