-- ===== src/Handlers/Delivered.antt =====
-- What a subscriber gets, and the count of streams.
use nano_rpc_gateway.Prelude.{
  ℕ, ◌^◌, ◌<◌, Bool, true, false, List, [], ◌∷◌, ◌++◌, Option, none, some, ◌≡◌, refl, map, ap, ◌∙◌,
  ◌&&◌, inl, inr, arith, Option-cases, Bool-cases, if◌then◌else◌, String,
}
use nano_rpc_gateway.Prelude.Result.{Result, ok, err, is_ok}
use nano_rpc_gateway.Json.{Value}
use nano_rpc_gateway.Stream.{NanoEvent, StreamOptions, matches, project}
use nano_rpc_gateway.Hub.{EventHub, subscribe, is_ready}
use nano_rpc_gateway.Handlers.Metrics.{Metrics, fetch_add, fetch_sub, drop_stream}
use nano_rpc_gateway.Bridge.{is_present}
use nano_rpc_gateway.Handlers.Events.{
  comment, sse_event, Reception, cancelled, item, lagged, channel_closed, CloseReason,
  client_disconnected, upstream_session_lost, subscriber_lagged, Streamed, with_frame, stream_from,
  stream_body, Method, Response, streaming, read_options, open_stream, sse_handler,
}

-- A subscription to a sequence of events: those that match, each projected, in their order.
unfoldable pub subscription_view : StreamOptions → List NanoEvent → List NanoEvent
subscription_view options [] = []
subscription_view options (e ∷ es) =
    let rest = subscription_view options es in
    if matches options e then project options e ∷ rest else rest

-- What is received before the stream is closed.
unfoldable pub items_before : List Reception → List NanoEvent
items_before (item e ∷ later) = e ∷ items_before later
items_before _ = []

-- The first reception that is no event.
unfoldable pub closing : List Reception → Option Reception
closing [] = none
closing (item e ∷ later) = closing later
closing (r ∷ later) = some r

-- A reader that lags is told apart; any other end is the loss of the session.
abbrev pub reason_of : Option Reception → CloseReason
reason_of none = client_disconnected
reason_of (some (lagged n)) = subscriber_lagged
reason_of (some _) = upstream_session_lost

abbrev pub is_given : Option Reception → Bool
is_given none = false
is_given (some _) = true

abbrev view_of : StreamOptions → List Reception → Streamed
view_of options receptions = record {
  frames = map sse_event (subscription_view options (items_before receptions));
  close_reason = reason_of (closing receptions);
  is_over = is_given (closing receptions);
}

stream_from-view :
    (options : StreamOptions) (receptions : List Reception)
    → stream_from options receptions ≡ view_of options receptions
unfolding stream_from subscription_view items_before closing
stream_from-view options [] = refl
stream_from-view options (cancelled ∷ later) = refl
stream_from-view options (lagged n ∷ later) = refl
stream_from-view options (channel_closed ∷ later) = refl
stream_from-view options (item e ∷ later) = elim (Bool-cases (matches options e)) [
  | inl kept ↦
      rw kept (ap (with_frame (sse_event (project options e))) (stream_from-view options later))
  | inr dropped ↦ rw dropped (stream_from-view options later)
]

-- The body of a stream: after the comment that a session gets that is not over, exactly the events
-- that are received before the first other reception and match the options, each projected, in
-- their order; that reception ends the body, for lagging if it is a loss of events, and otherwise
-- because the session is lost.
pub stream_body-view :
    (is_cancelled : Bool) (options : StreamOptions) (receptions : List Reception)
    → ((stream_body is_cancelled options receptions).frames
        ≡ (if is_cancelled then [] else comment "connected" ∷ [])
          ++ map sse_event (subscription_view options (items_before receptions)))
      × ((stream_body is_cancelled options receptions).close_reason
          ≡ reason_of (closing receptions))
      × ((stream_body is_cancelled options receptions).is_over ≡ is_given (closing receptions))
unfolding stream_body
stream_body-view true options receptions =
    let view = stream_from-view options receptions in
    (
      ap (λ (s : Streamed). s.frames) view,
      ap (λ (s : Streamed). s.close_reason) view,
      ap (λ (s : Streamed). s.is_over) view,
    )
stream_body-view false options receptions =
    let view = stream_from-view options receptions in
    (
      ap (λ (s : Streamed). comment "connected" ∷ s.frames) view,
      ap (λ (s : Streamed). s.close_reason) view,
      ap (λ (s : Streamed). s.is_over) view,
    )

-- The metrics and the close of a stream.
abbrev pub is_streaming : Response → Bool
is_streaming (streaming session generation options) = true
is_streaming _ = false

abbrev pub counted_out : Response × Metrics → Metrics
counted_out (response, m) = if is_streaming response then drop_stream m else m

enter-drop : (n : ℕ) → n < 2 ^ 64 → fetch_sub (fetch_add n 1) 1 ≡ n
enter-drop n h = omega (arith, h)

subscribe-is_ready : (hub : EventHub) → is_present (subscribe hub) ≡ is_ready hub
unfolding subscribe
subscribe-is_ready hub = elim (Option-cases hub.current) [
  | inl idle ↦ rw idle refl
  | inr (i, busy) ↦ rw busy refl
]

open_stream-counts :
    (options : Result String StreamOptions) (subscription : Option (ℕ × ℕ)) (m : Metrics)
    → m.active_streams < 2 ^ 64
    → ((counted_out (open_stream options subscription m)).active_streams ≡ m.active_streams)
      × (is_streaming (open_stream options subscription m).0
          ≡ (is_ok options && is_present subscription))
      × ((open_stream options subscription m).1.errors
          ≡ (if is_ok options then m.errors else fetch_add m.errors 1))
unfolding drop_stream
open_stream-counts (err message) subscription m h = (refl, refl, refl)
open_stream-counts (ok options) none m h = (refl, refl, refl)
open_stream-counts (ok options) (some (session, generation)) m h =
    (enter-drop m.active_streams h, refl, refl)

-- A request for a stream gets one exactly if its options are valid and the hub is ready, and then
-- the count of streams is one higher until the stream is dropped, after which it is as before; the
-- errors count exactly the requests whose options are not valid.
pub sse_handler-counts :
    (method : Method) (query : Option (Option String)) (body : Option Value) (hub : EventHub)
    (m : Metrics)
    → m.active_streams < 2 ^ 64
    → ((counted_out (sse_handler method query body hub m)).active_streams ≡ m.active_streams)
      × (is_streaming (sse_handler method query body hub m).0
          ≡ (is_ok (read_options method query body) && is_ready hub))
      × ((sse_handler method query body hub m).1.errors
          ≡ (if is_ok (read_options method query body) then m.errors else fetch_add m.errors 1))
unfolding sse_handler
sse_handler-counts method query body hub m h =
    let options = read_options method query body in
    let (balanced, opened, errors) = open_stream-counts options (subscribe hub) m h in
    (balanced, opened ∙ ap (λ b. is_ok options && b) (subscribe-is_ready hub), errors)
