-- ===== src/Handlers/Events.antt =====
-- `sse_handler` of src/lib.rs: the stream of one subscriber. What its receiver answers is a list of
-- receptions; the frames are those of the body, less the keepalive comments of axum.
use nano_rpc_gateway.Prelude.{
  ℕ, String, Bool, true, false, List, [], ◌∷◌, Option, none, some, if◌then◌else◌,
}
use nano_rpc_gateway.Prelude.Result.{Result, ok, err}
use nano_rpc_gateway.Json.{Value, object, string, insert, end}
use nano_rpc_gateway.Stream.{
  NanoEvent, StreamOptions, from_query, from_object, matches, project, parse,
}
use nano_rpc_gateway.Hub.{EventHub, subscribe, is_ready}
use nano_rpc_gateway.Handlers.Metrics.{Metrics, count_error, enter_stream}

-- `notification`
unfoldable pub notification : String → Value → Value
unfolding insert
notification method params =
    object (
      insert "jsonrpc" (string "2.0")
        (insert "method" (string method) (insert "params" params end)))

-- A frame of the body: a comment, or an event with its data before it is printed.
pub data Frame : Type 0 where
  comment : String → Frame
  event_frame : (event : String) → (payload : Value) → Frame

-- `sse_event`
unfoldable pub sse_event : NanoEvent → Frame
unfolding notification
sse_event item = event_frame item.event (notification item.event item.payload)

-- One round of the loop: the session is cancelled, which is looked at first, or the receiver answers
-- with an event, with the number of events that were lost, or with the end of the channel.
pub data Reception : Type 0 where
  cancelled : Reception
  item : NanoEvent → Reception
  lagged : ℕ → Reception
  channel_closed : Reception

pub data CloseReason : Type 0 where
  client_disconnected upstream_session_lost subscriber_lagged : CloseReason

-- The frames so far, and the reason that stands in the guard, with whether the body has ended.
pub record Streamed : Type 0 where
  pub frames : List Frame
  pub close_reason : CloseReason
  pub is_over : Bool

abbrev pub with_frame : Frame → Streamed → Streamed
with_frame frame s = record s { frames = frame ∷ s.frames }

abbrev pub closed_by : CloseReason → Streamed
closed_by reason = record { frames = []; close_reason = reason; is_over = true }

unfoldable pub stream_from : StreamOptions → List Reception → Streamed
unfolding matches project sse_event
stream_from options [] = record { frames = []; close_reason = client_disconnected; is_over = false }
stream_from options (cancelled ∷ later) = closed_by upstream_session_lost
stream_from options (item event ∷ later) =
    let rest = stream_from options later in
    if matches options event then with_frame (sse_event (project options event)) rest else rest
stream_from options (lagged lost ∷ later) = closed_by subscriber_lagged
stream_from options (channel_closed ∷ later) = closed_by upstream_session_lost

-- The body: a comment flushes the headers, unless the session is over already.
unfoldable pub stream_body : Bool → StreamOptions → List Reception → Streamed
unfolding stream_from
stream_body is_cancelled options receptions =
    let rest = stream_from options receptions in
    if is_cancelled then rest else with_frame (comment "connected") rest

pub data Method : Type 0 where
  get_method : Method
  other_method : Method

pub data Response : Type 0 where
  bad_request : String → Response
  -- 503 with `Retry-After: 2` and `Cache-Control: no-store`
  unavailable : Response
  -- 200, with the session, its generation and the options
  streaming : ℕ → ℕ → StreamOptions → Response

-- The options of a request: the query of a GET, or else the object in the body.
unfoldable pub read_options :
    Method → Option (Option String) → Option Value → Result String StreamOptions
unfolding from_query from_object parse
read_options get_method none body = from_query none
read_options get_method (some accounts) body = from_query accounts
read_options other_method query (some (object fields)) = from_object fields
read_options other_method query _ = err "a POST body must be a JSON object"

abbrev pub open_stream : Result String StreamOptions → Option (ℕ × ℕ) → Metrics → Response × Metrics
open_stream (err message) subscription m = (bad_request message, count_error m)
open_stream (ok options) none m = (unavailable, m)
open_stream (ok options) (some (session, generation)) m =
    (streaming session generation options, enter_stream m)

-- The part of the handler before the body is read; the stream's guard counts it out when the body
-- is dropped.
unfoldable pub sse_handler :
    Method → Option (Option String) → Option Value → EventHub → Metrics → Response × Metrics
unfolding read_options subscribe
sse_handler method query body hub m = open_stream (read_options method query body) (subscribe hub) m

-- `ready_handler`, by its status
unfoldable pub ready_handler : EventHub → ℕ
ready_handler hub = if is_ready hub then 200 else 503
