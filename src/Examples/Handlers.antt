-- ===== src/Examples/Handlers.antt =====
-- A call whose body is JSON and one that is a batch, and a stream of two events.
use nano_rpc_gateway.Prelude.{ℕ, true, false, List, [], ◌∷◌, ◌++◌, none, some, ◌≡◌, refl, ◌⊎◌, map}
use nano_rpc_gateway.Prelude.Result.{ok}
use nano_rpc_gateway.Json.{Value, null, string, object, field, end}
use nano_rpc_gateway.Rpc.{RpcRequest, RpcResponse}
use nano_rpc_gateway.Stream.{NanoEvent, default_options}
use nano_rpc_gateway.Hub.{session_at}
use nano_rpc_gateway.App.Dispatch.{dispatch}
use nano_rpc_gateway.Handlers.Metrics.{Metrics}
use nano_rpc_gateway.Handlers.Call.{Readers, is_failure, rpc_handler}
use nano_rpc_gateway.Handlers.Counts.{Counted, rpc_handler-Counted}
use nano_rpc_gateway.Handlers.Requests.{HoldsRequest, RefusedWith, rpc_handler-RefusedWith}
use nano_rpc_gateway.Handlers.Events.{
  comment, sse_event, Reception, item, cancelled, lagged, stream_body,
}
use nano_rpc_gateway.Handlers.Delivered.{
  subscription_view, items_before, closing, reason_of, is_given, stream_body-view,
}
use nano_rpc_gateway.Handlers.Relayed.{Received, Relayed, run_ws_bridge-stream_body}
use nano_rpc_gateway.Bridge.Splits.{Split}
use nano_rpc_gateway.Bridge.Delivery.{fresh_listening}
use nano_rpc_gateway.Bridge.Run.{nano_confirmation, run_ws_bridge}
use nano_rpc_gateway.Examples.Bridge.{network, bridge, later, acked, chooses, opens, acknowledges}
use nano_rpc_gateway.Examples.App.{config, world, state, nobody}

abbrev version_request : RpcRequest
version_request = record {
  jsonrpc = "2.0";
  method = "version";
  params = none;
  id_present = true;
  id = some (string "a");
}

abbrev readers : Readers
readers = record {
  from_slice = λ bytes. ok (object (field "id" (string "a") end));
  from_value = λ value. ok version_request;
}

abbrev metrics : Metrics
metrics = record {
  requests = 3;
  errors = 1;
  active_streams = 2;
  overflow_resets = 0;
  upstream_reconnects = 0;
  request_duration_ms_sum = 40;
  request_duration_ms_count = 3;
}

-- ` [` and ` {`
abbrev batch_body : List ℕ
batch_body = 32 ∷ b'[' ∷ []

abbrev object_body : List ℕ
object_body = 32 ∷ b'{' ∷ []

rpc_handler-Counted_example :
    Counted metrics
      (rpc_handler readers config world nobody 7 batch_body state metrics).1.1
      (is_failure (rpc_handler readers config world nobody 7 batch_body state metrics).0)
      7
rpc_handler-Counted_example =
    rpc_handler-Counted readers config world nobody 7 batch_body state metrics

rpc_handler-RefusedWith_example :
    ((request : RpcRequest) × HoldsRequest readers object_body request
      × ((rpc_handler readers config world nobody 7 object_body state metrics).0
          ≡ (dispatch config world nobody request state).0)
      × ((rpc_handler readers config world nobody 7 object_body state metrics).1.0
          ≡ (dispatch config world nobody request state).1))
    ⊎ ((response : RpcResponse) × RefusedWith readers object_body response
        × ((rpc_handler readers config world nobody 7 object_body state metrics).0 ≡ ok response)
        × ((rpc_handler readers config world nobody 7 object_body state metrics).1.0 ≡ state))
rpc_handler-RefusedWith_example =
    rpc_handler-RefusedWith readers config world nobody 7 object_body state metrics

abbrev event : NanoEvent
event = record { event = "nano.confirmation"; payload = object end }

abbrev other_event : NanoEvent
other_event = record { event = "other"; payload = null }

abbrev receptions : List Reception
receptions = item event ∷ item other_event ∷ lagged 3 ∷ item event ∷ []

stream_body-view_example :
    ((stream_body false default_options receptions).frames
      ≡ (comment "connected" ∷ [])
        ++ map sse_event (subscription_view default_options (items_before receptions)))
    × ((stream_body false default_options receptions).close_reason ≡ reason_of (closing receptions))
    × ((stream_body false default_options receptions).is_over ≡ is_given (closing receptions))
stream_body-view_example = stream_body-view false default_options receptions

-- A subscriber from the start gets the one confirmation, and then sees the session cancelled.
abbrev relayed_item : NanoEvent
relayed_item =
    nano_confirmation (object (field "hash" (string "AB") (field "time" (string "5") end)))

abbrev relayed_receptions : List Reception
relayed_receptions = item relayed_item ∷ cancelled ∷ []

relayed-Received :
    Received
      (session_at (run_ws_bridge network (acked later) bridge).1.events 0)
      []
      relayed_receptions
unfolding run_ws_bridge items_before
relayed-Received = record { unread = []; in_order = refl }

run_ws_bridge-stream_body_example :
    (delivered : List Value) × (seen : List Value) × Split network.decoder network.liveness later
      (fresh_listening network)
      (delivered, (run_ws_bridge network (acked later) bridge).0)
    × Relayed delivered [] seen
    × ((stream_body false default_options relayed_receptions).frames
        ≡ (comment "connected" ∷ [])
          ++ map sse_event (subscription_view default_options (map nano_confirmation seen)))
run_ws_bridge-stream_body_example =
    run_ws_bridge-stream_body network (acked later) later bridge 1 "ws://two" chooses opens
      (acknowledges later) false default_options [] relayed_receptions relayed-Received
