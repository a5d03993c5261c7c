-- ===== src/Examples/Bridge.antt =====
-- A run with two upstreams: the first is cooling down, the second acknowledges, sends one
-- confirmation, and then falls silent.
use package.text.Mathlib.Text.{◌==◌ as str_eq}
use nano_rpc_gateway.Prelude.{
  ℕ, String, false, List, [], ◌∷◌, Option, none, some, ◌≡◌, refl, ◌≢◌, ◌⊎◌, arith, if◌then◌else◌,
}
use nano_rpc_gateway.Prelude.Result.{ok, err}
use nano_rpc_gateway.Json.{Value, Fields, string, object, field, end, member, member_str}
use nano_rpc_gateway.Hub.{run_actions, new_hub}
use nano_rpc_gateway.Hub.Sessions.{run_actions-IsSingle}
use nano_rpc_gateway.Bridge.{
  text, ping, pong, Event, received, elapsed, ticked, delivery_error, is_present,
}
use nano_rpc_gateway.Bridge.Run.{
  Bridge, Network, connected, active_ws_url, open_socket, await_ack, run_ws_bridge,
}
use nano_rpc_gateway.Bridge.Delivery.{Served, fresh_listening, run_ws_bridge-Served}
use nano_rpc_gateway.Bridge.Handshake.{Untouched, Begun, run_ws_bridge-either}
use nano_rpc_gateway.Bridge.Invariant.{IsSound, run_ws_bridge-IsSound, run_ws_bridge-cooled}
use nano_rpc_gateway.Bridge.Splits.{Split}
use nano_rpc_gateway.Bridge.Timers.{
  Ascending, Starved, run_ws_bridge-Starved, run_ws_bridge-heartbeat,
}

abbrev block_message : Fields
block_message = field "hash" (string "AB") (field "time" (string "2") end)

abbrev envelope : Value
envelope = object (
    field "message" (object block_message)
      (field "time" (string "5") (field "topic" (string "confirmation") end)))

abbrev read_text : String → Option Value
read_text s =
    if str_eq s "ack"
    then some (object (field "ack" (string "subscribe") end))
    else if str_eq s "conf"
    then some envelope
    else none

abbrev pub network : Network
network = record {
  decoder = record { from_str = read_text; from_slice = λ bytes. none; from_utf8 = λ bytes. none };
  parse_url = λ s. ok (record {
    scheme = "ws";
    username = "";
    password = none;
    host_str = some "node";
    port = none;
  });
  into_client_request = λ s. ok tt;
  connect = λ s. connected;
  send = λ v. ok tt;
  liveness = 30_000_000_000;
  select_at = 100;
  ack_at = 100;
  start_at = 200;
  close_at = 40_000_000_000;
}

abbrev pub bridge : Bridge
bridge = record {
  node_ws_urls = "ws://one" ∷ "ws://two" ∷ [];
  events = new_hub;
  upstream_seen = false;
  upstream_reconnects = 0;
  ws_selected = none;
  ws_active = 0;
  ws_unhealthy_until = 500 ∷ 0 ∷ [];
}

abbrev pub later : List (ℕ × Event)
later =
    (1_000, received (text "conf"))
    ∷ (2_000, ticked none)
    ∷ (3_000, received pong)
    ∷ (35_000_000_000, elapsed)
    ∷ []

abbrev silent : List (ℕ × Event)
silent =
    (1_000, received (text "conf"))
    ∷ (2_000, ticked none)
    ∷ (3_000, received ping)
    ∷ (4_000, ticked none)
    ∷ []

abbrev pub acked : List (ℕ × Event) → List (ℕ × Event)
acked events = (150, received (text "ack")) ∷ events

pub chooses : active_ws_url 100 bridge ≡ ok (1, "ws://two")
unfolding active_ws_url
chooses = refl

pub opens : open_socket network "ws://two" ≡ ok tt
unfolding open_socket
opens = refl

pub acknowledges :
    (events : List (ℕ × Event))
    → await_ack network.decoder 5_000_000_100 (acked events) ≡ some (ok events)
unfolding await_ack
acknowledges events = refl

run_ws_bridge-Served_example :
    (delivered : List Value) × Split network.decoder 30_000_000_000 later
      (fresh_listening network)
      (delivered, (run_ws_bridge network (acked later) bridge).0)
    × Served new_hub
        (run_ws_bridge network (acked later) bridge).1.events
        delivered
        (is_present (run_ws_bridge network (acked later) bridge).0)
run_ws_bridge-Served_example =
    run_ws_bridge-Served network (acked later) later bridge 1 "ws://two" chooses opens
      (acknowledges later)

run_ws_bridge-either_example :
    Untouched bridge (run_ws_bridge network (acked later) bridge).1
    ⊎ Begun network (acked later) bridge (run_ws_bridge network (acked later) bridge).1
run_ws_bridge-either_example = run_ws_bridge-either network (acked later) bridge

ends_starved : (run_ws_bridge network (acked later) bridge).0 ≡ some (err delivery_error)
unfolding run_ws_bridge
ends_starved = refl

bridge-IsSound : IsSound bridge
unfolding run_actions
bridge-IsSound = record {
  not_empty = omega arith;
  active = omega arith;
  cooldowns = refl;
  single = run_actions-IsSingle [];
}

run_ws_bridge-IsSound_example : IsSound (run_ws_bridge network (acked later) bridge).1
run_ws_bridge-IsSound_example = run_ws_bridge-IsSound network (acked later) bridge bridge-IsSound

first_again :
    active_ws_url 50_000_000_000 (run_ws_bridge network (acked later) bridge).1 ≡ ok (0, "ws://one")
unfolding run_ws_bridge active_ws_url
first_again = refl

run_ws_bridge-cooled_example : ◌≢◌ {A = ℕ} 0 1
run_ws_bridge-cooled_example =
    run_ws_bridge-cooled network (acked later) bridge 1 "ws://two" (err delivery_error)
      bridge-IsSound chooses ends_starved 50_000_000_000 0 "ws://one" (omega arith) first_again

later-Ascending : Ascending 200 later
unfolding Ascending
later-Ascending = (omega arith, (omega arith, (omega arith, (omega arith, tt))))

run_ws_bridge-Starved_example : Starved network.decoder 30_000_000_000 200 later
run_ws_bridge-Starved_example =
    run_ws_bridge-Starved network (acked later) later bridge 1 "ws://two" chooses opens
      (acknowledges later) later-Ascending ends_starved

not_pong : received ping ≢ received pong
not_pong e = cc

run_ws_bridge-heartbeat_example : (run_ws_bridge network (acked silent) bridge).0 ≢ none
run_ws_bridge-heartbeat_example =
    run_ws_bridge-heartbeat network (acked silent) silent bridge 1 "ws://two" chooses opens
      (acknowledges silent) ((1_000, received (text "conf")) ∷ []) ((3_000, received ping) ∷ []) []
      2_000 4_000 none none refl (not_pong, tt)

envelope-ack : member envelope "ack" ≡ none
unfolding member
envelope-ack = refl

envelope-topic : member_str envelope "topic" ≡ some "confirmation"
unfolding member_str
envelope-topic = refl

envelope-message : member envelope "message" ≡ some (object block_message)
unfolding member
envelope-message = refl
