-- ===== src/Bridge/Run.antt =====
-- The run of the bridge: the choice of an address, the handshake, the loop, and the cleanup.
use nano_rpc_gateway.Prelude.{
  ℕ, zero, suc, ◌+◌, ◌%◌, ◌^◌, String, Bool, true, List, [], ◌∷◌, Option, none, some, length,
  get_or, set, leb, if◌then◌else◌,
}
use nano_rpc_gateway.Prelude.Result.{Result, ok, err, ◌>>◌, map_err}
use nano_rpc_gateway.Json.{Value}
use nano_rpc_gateway.Error.{GatewayError, upstream_unavailable}
use nano_rpc_gateway.Stream.{NanoEvent}
use nano_rpc_gateway.Hub.{EventHub, start_session, lease_publish, drop_lease}
use nano_rpc_gateway.Upstream.Endpoint.{Url, validate_upstream_url}
use nano_rpc_gateway.Upstream.Router.{upstream_cooldown, cooling_error}
use nano_rpc_gateway.Bridge.{
  Event, Decoder, subscription, Listening, Reaction, stop, go_on, deliver, greet, react,
}

-- The part of `AppState` that the bridge reads and writes.
pub record Bridge : Type 0 where
  pub node_ws_urls : List String
  pub events : EventHub
  pub upstream_seen : Bool
  pub upstream_reconnects : ℕ
  pub ws_selected : Option String
  pub ws_active : ℕ
  pub ws_unhealthy_until : List ℕ

-- How `connect_async` ends within its 5 seconds.
pub data Connection : Type 0 where
  connected : Connection
  refused : String → Connection
  not_in_time : Connection

-- What the bridge asks of the world. The clock is read at `select_at` for the cooldowns, at
-- `ack_at` and `start_at` where the two timers are set, and at `close_at` for the new cooldown.
pub record Network : Type 0 where
  pub decoder : Decoder
  pub parse_url : String → Result String Url
  pub into_client_request : String → Result String (Unit {0})
  pub connect : String → Connection
  -- `socket.send` of the subscription
  pub send : Value → Result String (Unit {0})
  pub liveness : ℕ
  pub select_at : ℕ
  pub ack_at : ℕ
  pub start_at : ℕ
  pub close_at : ℕ

-- 5 seconds.
abbrev pub handshake_timeout : ℕ
handshake_timeout = 5_000_000_000

-- The loop of `active_ws_url`, with the rounds that are left.
unfoldable pub select_from : ℕ → ℕ → ℕ → List ℕ → ℕ → ℕ → Option ℕ
select_from n start now unhealthy zero offset = none
select_from n start now unhealthy (suc left) offset =
    let index = (start + offset) % n in
    let later = select_from n start now unhealthy left (suc offset) in
    if leb (get_or unhealthy index 0) now then some index else later

abbrev pub url_at : List String → Option ℕ → Result GatewayError (ℕ × String)
url_at urls none = err cooling_error
url_at urls (some index) = ok (index, get_or urls index "")

unfoldable pub active_ws_url : ℕ → Bridge → Result GatewayError (ℕ × String)
unfolding select_from
active_ws_url now b =
    let n = length b.node_ws_urls in
    url_at b.node_ws_urls (select_from n b.ws_active now b.ws_unhealthy_until n 0)

unfoldable pub mark_ws_unhealthy : ℕ → ℕ → Bridge → Bridge
mark_ws_unhealthy now index b = record b {
  ws_unhealthy_until = set b.ws_unhealthy_until index (now + upstream_cooldown);
  ws_active = suc index % length b.node_ws_urls;
}

abbrev connection_result : Connection → Result GatewayError (Unit {0})
connection_result connected = ok tt
connection_result (refused error) = err (upstream_unavailable error)
connection_result not_in_time = err (upstream_unavailable "websocket connection timed out")

-- The checks of the address, the connection and the request.
unfoldable pub open_socket : Network → String → Result GatewayError (Unit {0})
unfolding validate_upstream_url subscription
open_socket w url = do
  validate_upstream_url w.parse_url url ("ws" ∷ "wss" ∷ [])
  map_err upstream_unavailable (w.into_client_request url)
  connection_result (w.connect url)
  map_err upstream_unavailable (w.send subscription)

-- A result, or nothing yet; with the events that are left for the loop.
abbrev pub Waiting : Type 0 → Type 0
Waiting A = Option (Result GatewayError A)

abbrev pub awaited :
    Waiting (Unit {0}) → List (ℕ × Event) → Waiting (List (ℕ × Event)) → Waiting (List (ℕ × Event))
awaited none later rest = rest
awaited (some (ok _)) later rest = some (ok later)
awaited (some (err error)) later rest = some (err error)

-- The handshake.
unfoldable pub await_ack : Decoder → ℕ → List (ℕ × Event) → Waiting (List (ℕ × Event))
unfolding greet
await_ack decoder deadline [] = none
await_ack decoder deadline ((t, event) ∷ later) =
    awaited (greet decoder deadline t event) later (await_ack decoder deadline later)

abbrev pub nano_confirmation : Value → NanoEvent
nano_confirmation data_ = record { event = "nano.confirmation"; payload = data_ }

abbrev pub Heard : Type 0
Heard = Waiting (Unit {0}) × EventHub

-- The loop, with the lease of its session.
module _ (decoder : Decoder) (liveness lease : ℕ) where
  abbrev pub follow : Reaction → EventHub → (Listening → EventHub → Heard) → Heard
  follow (stop result) hub next = (some result, hub)
  follow (go_on s) hub next = next s hub
  follow (deliver data_ s) hub next = next s (lease_publish lease (nano_confirmation data_) hub)

  unfoldable pub listen : List (ℕ × Event) → Listening → EventHub → Heard
  unfolding react lease_publish
  listen [] s hub = (none, hub)
  listen ((t, event) ∷ later) s hub = follow (react decoder liveness t event s) hub (listen later)

-- The lease goes when the loop is left.
abbrev pub leave : ℕ → Heard → EventHub
leave lease (none, hub) = hub
leave lease (some _, hub) = drop_lease lease hub

abbrev pub Ran : Type 0
Ran = Waiting (Unit {0}) × Bridge

-- After the acknowledgement.
unfoldable pub serve : Network → List (ℕ × Event) → Bridge → Ran
unfolding start_session listen drop_lease
serve w later b =
    let started = start_session b.events in
    let fresh : Listening = record {
      awaiting_pong = Bool.false;
      deadline = w.start_at + w.liveness;
    } in
    let heard = listen w.decoder w.liveness started.0 later fresh started.1 in
    (
      heard.0,
      record b {
        events = leave started.0 heard;
        upstream_seen = true;
        upstream_reconnects =
            if b.upstream_seen then (b.upstream_reconnects + 1) % 2 ^ 64 else b.upstream_reconnects;
      },
    )

abbrev pub acknowledged : Network → Waiting (List (ℕ × Event)) → Bridge → Ran
acknowledged w none b = (none, b)
acknowledged w (some (err error)) b = (some (err error), b)
acknowledged w (some (ok later)) b = serve w later b

abbrev pub attended : Network → List (ℕ × Event) → Result GatewayError (Unit {0}) → Bridge → Ran
attended w events (err error) b = (some (err error), b)
attended w events (ok _) b =
    acknowledged w (await_ack w.decoder (w.ack_at + handshake_timeout) events) b

abbrev pub clean_up : ℕ → ℕ → Ran → Ran
clean_up now index (none, b) = (none, b)
clean_up now index (some result, b) = (some result, mark_ws_unhealthy now index b)

-- With the address that is chosen, if one is.
abbrev pub attend : Network → List (ℕ × Event) → Result GatewayError (ℕ × String) → Bridge → Ran
attend w events (err error) b = (some (err error), b)
attend w events (ok (index, url)) b =
    clean_up w.close_at index
      (attended w events (open_socket w url) (record b { ws_selected = some url }))

unfoldable pub run_ws_bridge : Network → List (ℕ × Event) → Bridge → Ran
unfolding active_ws_url open_socket await_ack serve mark_ws_unhealthy
run_ws_bridge w events b = attend w events (active_ws_url w.select_at b) b
