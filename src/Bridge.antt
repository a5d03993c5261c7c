-- ===== src/Bridge.antt =====
-- `run_ws_bridge` of src/lib.rs: one upstream WebSocket, from the choice of its address to its end.
-- What the socket and the timers bring is a list of events with their instants, in nanoseconds; a
-- run on a list that does not end the bridge has no result yet. The network, the parser of
-- addresses and the text form of JSON are parameters; logging is left out.
pub mod Run
pub mod Course
pub mod Splits
pub mod Delivery
pub mod Handshake
pub mod Timers
pub mod Rotation
pub mod Invariant
pub mod Frames
use package.text.Mathlib.Text.{◌==◌ as str_eq}
use nano_rpc_gateway.Prelude.{
  ℕ, ◌+◌, String, Bool, true, false, not, ◌||◌, List, [], ◌∷◌, Option, none, some, leb,
  if◌then◌else◌,
}
use nano_rpc_gateway.Prelude.Result.{Result, ok, err}
use nano_rpc_gateway.Json.{
  Value, Fields, string, bool, object, insert, end, member, member_str, and_then, is_some_and,
  unwrap_or,
}
use nano_rpc_gateway.Error.{GatewayError, upstream_unavailable, upstream_transport}

-- `tungstenite::Message`
pub data Message : Type 0 where
  text : String → Message
  binary : List ℕ → Message
  ping pong close frame : Message

-- What comes next: `socket.next()` answers with a message, an error or the end; the timer that is
-- running elapses; or the heartbeat ticks, with the failure of the ping that is due, if it fails.
pub data Event : Type 0 where
  received : Message → Event
  broken : String → Event
  ended : Event
  elapsed : Event
  ticked : Option String → Event

pub record Decoder : Type 0 where
  pub from_str : String → Option Value
  pub from_slice : List ℕ → Option Value
  pub from_utf8 : List ℕ → Option String

abbrev pub is_present {ℓ} : {A : Type ℓ} → Option A → Bool
is_present none = false
is_present (some _) = true

-- `value.get(name).and_then(Value::as_str) == Some(text)`
abbrev pub says : Value → String → String → Bool
says value name word = is_some_and (member_str value name) (str_eq word)

abbrev pub with_time : Option Value → Value → Value
with_time (some time) (object fields) = object (insert "time" time fields)
with_time _ data_ = data_

unfoldable pub normalize_confirmation : Value → Option Value
unfolding member member_str insert
normalize_confirmation value =
    if is_present (member value "ack")
      || not (is_some_and (member_str value "topic") (str_eq "confirmation"))
    then none
    else some (with_time (member value "time") (unwrap_or (member value "message") value))

-- The request that the bridge sends first.
unfoldable pub subscription : Value
unfolding insert
subscription = object (
    insert "action" (string "subscribe") (
      insert "topic" (string "confirmation") (
        insert "ack" (bool true) (
          insert "options"
            (object (
              insert "confirmation_type" (string "all") (
                insert "include_election_info" (bool true)
                  (insert "include_sideband_info" (bool true) end))))
            end))))

abbrev pub rejected_error : GatewayError
rejected_error = upstream_unavailable "confirmation subscription rejected"

abbrev pub unacknowledged_error : GatewayError
unacknowledged_error = upstream_unavailable "closed before subscription acknowledgement"

abbrev pub handshake_error : GatewayError
handshake_error = upstream_unavailable "confirmation subscription acknowledgement timed out"

abbrev pub delivery_error : GatewayError
delivery_error = upstream_unavailable "confirmation delivery timed out"

abbrev pub heartbeat_error : GatewayError
heartbeat_error = upstream_unavailable "websocket heartbeat timed out"

-- What the loop keeps between two events.
pub record Listening : Type 0 where
  pub awaiting_pong : Bool
  pub deadline : ℕ

-- What the loop does with an event.
pub data Reaction : Type 0 where
  stop : Result GatewayError (Unit {0}) → Reaction
  go_on : Listening → Reaction
  deliver : Value → Listening → Reaction

module _ (decoder : Decoder) where
  -- A message of the handshake as JSON.
  abbrev pub handshake_value : Message → Option Value
  handshake_value (text s) = decoder.from_str s
  handshake_value (binary bytes) = decoder.from_slice bytes
  handshake_value _ = none

  -- Whether a JSON message ends the handshake.
  unfoldable pub read_ack : Value → Option (Result GatewayError (Unit {0}))
  unfolding member member_str
  read_ack value =
      if is_present (member value "error")
      then some (err rejected_error)
      else if is_some_and (member_str value "ack") (str_eq "subscribe")
      then some (ok tt)
      else none

  unfoldable pub greet : ℕ → ℕ → Event → Option (Result GatewayError (Unit {0}))
  unfolding read_ack
  greet deadline t (received message) = and_then (handshake_value message) read_ack
  greet deadline t (broken error) = some (err (upstream_transport error))
  greet deadline t ended = some (err unacknowledged_error)
  greet deadline t elapsed = if leb deadline t then some (err handshake_error) else none
  greet deadline t (ticked _) = none

  -- The confirmation that a message carries.
  unfoldable pub confirmation : Message → Option Value
  unfolding normalize_confirmation
  confirmation (text s) = and_then (decoder.from_str s) normalize_confirmation
  confirmation (binary bytes) =
      and_then (and_then (decoder.from_utf8 bytes) decoder.from_str) normalize_confirmation
  confirmation _ = none

  module _ (liveness : ℕ) where
    -- A confirmation puts off the deadline.
    abbrev pub hear : ℕ → Listening → Option Value → Reaction
    hear t s none = go_on s
    hear t s (some data_) = deliver data_ (record s { deadline = t + liveness })

    abbrev pub react_message : ℕ → Message → Listening → Reaction
    react_message t pong s = go_on (record s { awaiting_pong = false })
    react_message t close s = stop (ok tt)
    react_message t (text m) s = hear t s (confirmation (text m))
    react_message t (binary m) s = hear t s (confirmation (binary m))
    react_message t ping s = go_on s
    react_message t frame s = go_on s

    abbrev pub send_ping : Option String → Listening → Reaction
    send_ping (some error) s = stop (err (upstream_transport error))
    send_ping none s = go_on (record s { awaiting_pong = true })

    -- One round of the loop. A timer does not elapse before its deadline.
    unfoldable pub react : ℕ → Event → Listening → Reaction
    unfolding confirmation
    react t (received message) s = react_message t message s
    react t (broken error) s = stop (err (upstream_transport error))
    react t ended s = stop (ok tt)
    react t elapsed s = if leb s.deadline t then stop (err delivery_error) else go_on s
    react t (ticked failure) s =
        if s.awaiting_pong then stop (err heartbeat_error) else send_ping failure s
