-- ===== src/Bridge/Handshake.antt =====
-- The handshake of the bridge: what counts as the acknowledgement of the subscription, and what
-- has happened to the gateway without one.
use package.text.Mathlib.Text.{◌==◌ as str_eq}
use nano_rpc_gateway.Prelude.{
  ℕ, String, true, List, [], ◌∷◌, ◌++◌, Option, none, some, ◌≡◌, refl, arith, eq_iff, inl, inr, ◌⊎◌,
  ap, Bool-cases, leb, if◌then◌else◌, ◌+◌, ◌%◌, ◌^◌,
}
use nano_rpc_gateway.Prelude.Result.{Result, ok, err}
use nano_rpc_gateway.Json.{Value, member, member_str, and_then, is_some_and}
use nano_rpc_gateway.Error.{GatewayError}
use nano_rpc_gateway.Bridge.{
  Message, text, binary, Event, received, broken, ended, elapsed, ticked, Decoder, handshake_value,
  read_ack, greet, is_present, rejected_error,
}
use nano_rpc_gateway.Bridge.Run.{
  Bridge, Network, active_ws_url, open_socket, Waiting, handshake_timeout, awaited, await_ack, Ran,
  serve, acknowledged, attended, attend, clean_up, run_ws_bridge,
}

-- Among the events a message acknowledges the subscription, and `later` are those after it.
pub record Acknowledged (decoder : Decoder) (events later : List (ℕ × Event)) : Type 0 where
  pub front : List (ℕ × Event)
  pub at : ℕ
  pub message : Message
  pub value : Value
  pub whole : events ≡ front ++ (at, received message) ∷ later
  pub reads : handshake_value decoder message ≡ some value
  pub ack : member_str value "ack" ≡ some "subscribe"
  pub accepted : member value "error" ≡ none

decision-ok :
    (error : Option Value) (ack : Option String)
    → ◌≡◌ {A = Waiting (Unit {0})}
        (if is_present error
          then some (err rejected_error)
          else if is_some_and ack (str_eq "subscribe")
          then some (ok tt)
          else none)
        (some (ok tt))
    → (ack ≡ some "subscribe") × (error ≡ none)
decision-ok (some e) ack h = cc
decision-ok none none h = cc
decision-ok none (some s) h = ground (arith, eq_iff "subscribe" s)

awaited-ok :
    (g : Waiting (Unit {0})) (here later : List (ℕ × Event)) (rest : Waiting (List (ℕ × Event)))
    → awaited g here rest ≡ some (ok later)
    → ((g ≡ none) × (rest ≡ some (ok later))) ⊎ ((g ≡ some (ok tt)) × (here ≡ later))
awaited-ok none here later rest h = inl (refl, h)
awaited-ok (some (ok _)) here later rest h = inr (refl, cc)
awaited-ok (some (err e)) here later rest h = cc

module _ (decoder : Decoder) where
  read_ack_iff :
      (value : Value)
      → read_ack decoder value ≡ some (ok tt)
      → (member_str value "ack" ≡ some "subscribe") × (member value "error" ≡ none)
  unfolding read_ack
  read_ack_iff value h = decision-ok (member value "error") (member_str value "ack") h

  -- What an acknowledgement among the events is.
  Greeted : Event → Type 0
  Greeted event =
      (message : Message) × (value : Value) × (event ≡ received message)
      × (handshake_value decoder message ≡ some value)
      × (read_ack decoder value ≡ some (ok tt))

  read-value :
      (o : Option Value)
      → and_then o (read_ack decoder) ≡ some (ok tt)
      → (value : Value) × (o ≡ some value) × (read_ack decoder value ≡ some (ok tt))
  read-value none h = cc
  read-value (some value) h = (value, refl, h)

  greet-Greeted :
      (deadline t : ℕ) (event : Event)
      → greet decoder deadline t event ≡ some (ok tt)
      → Greeted event
  unfolding greet Greeted
  greet-Greeted deadline t (received message) h =
      let (value, reads, acks) = read-value (handshake_value decoder message) h in
      (message, value, refl, reads, acks)
  greet-Greeted deadline t elapsed h = elim (Bool-cases (leb deadline t)) [
    | inl due ↦ cc
    | inr early ↦ cc
  ]
  greet-Greeted deadline t _ h = cc

  await_ack-Acknowledged :
      (deadline : ℕ) (events later : List (ℕ × Event))
      → await_ack decoder deadline events ≡ some (ok later)
      → Acknowledged decoder events later
  unfolding await_ack Greeted
  await_ack-Acknowledged deadline [] later h = cc
  await_ack-Acknowledged deadline ((t, event) ∷ rest) later h =
      elim (awaited-ok (greet decoder deadline t event) rest later _ h) [
        | inl (on, found) ↦
            let a = await_ack-Acknowledged deadline rest later found in
            record {
              front = (t, event) ∷ a.front;
              at = a.at;
              message = a.message;
              value = a.value;
              whole = ap (λ es. (t, event) ∷ es) a.whole;
              reads = a.reads;
              ack = a.ack;
              accepted = a.accepted;
            }
        | inr (acked, here) ↦
            let (message, value, e, reads, acks) = greet-Greeted deadline t event acked in
            let (ack, accepted) = read_ack_iff value acks in
            record {
              front = [];
              at = t;
              message = message;
              value = value;
              whole = cc (e, here);
              reads = reads;
              ack = ack;
              accepted = accepted;
            }
      ]

-- What the gateway keeps until a subscription is acknowledged.
pub record Untouched (before after : Bridge) : Type 0 where
  pub events : after.events ≡ before.events
  pub seen : after.upstream_seen ≡ before.upstream_seen
  pub reconnects : after.upstream_reconnects ≡ before.upstream_reconnects

clean_up-Untouched :
    (now index : ℕ) (before : Bridge) (r : Ran)
    → Untouched before r.1
    → Untouched before (clean_up now index r).1
unfolding nano_rpc_gateway.Bridge.Run.mark_ws_unhealthy
clean_up-Untouched now index before (none, b) h = h
clean_up-Untouched now index before (some result, b) h = record {
  events = h.events;
  seen = h.seen;
  reconnects = h.reconnects;
}

-- The counter of reconnections after one more subscription.
abbrev pub counted : Bridge → ℕ
counted b = if b.upstream_seen then (b.upstream_reconnects + 1) % 2 ^ 64 else b.upstream_reconnects

-- What an acknowledged run leaves of the gateway's counters.
pub record Reconnected (before after : Bridge) : Type 0 where
  pub seen : after.upstream_seen ≡ true
  pub reconnects : after.upstream_reconnects ≡ counted before

clean_up-Reconnected :
    (now index : ℕ) (before : Bridge) (r : Ran)
    → Reconnected before r.1
    → Reconnected before (clean_up now index r).1
unfolding nano_rpc_gateway.Bridge.Run.mark_ws_unhealthy
clean_up-Reconnected now index before (none, b) h = h
clean_up-Reconnected now index before (some result, b) h = record {
  seen = h.seen;
  reconnects = h.reconnects;
}

abbrev pub Begun : Network → List (ℕ × Event) → Bridge → Bridge → Type 0
Begun w events before after =
    ((later : List (ℕ × Event)) × Acknowledged w.decoder events later) × Reconnected before after

module _ (w : Network) (events : List (ℕ × Event)) (b : Bridge) where
  acknowledged-either :
      (a : Waiting (List (ℕ × Event)))
      → await_ack w.decoder (w.ack_at + handshake_timeout) events ≡ a
      → Untouched b (acknowledged w a b).1 ⊎ Begun w events b (acknowledged w a b).1
  unfolding serve
  acknowledged-either none e = inl (record { events = refl; seen = refl; reconnects = refl })
  acknowledged-either (some (err error)) e =
      inl (record { events = refl; seen = refl; reconnects = refl })
  acknowledged-either (some (ok later)) e = inr (
    (later, await_ack-Acknowledged w.decoder _ events later e),
    record { seen = refl; reconnects = refl },
  )

  attended-either :
      (opened : Result GatewayError (Unit {0}))
      → Untouched b (attended w events opened b).1 ⊎ Begun w events b (attended w events opened b).1
  attended-either (err error) = inl (record { events = refl; seen = refl; reconnects = refl })
  attended-either (ok _) = acknowledged-either _ refl

clean_up-either :
    (w : Network) (events : List (ℕ × Event)) (index : ℕ) (before : Bridge) (r : Ran)
    → Untouched before r.1 ⊎ Begun w events before r.1
    → Untouched before (clean_up w.close_at index r).1
      ⊎ Begun w events before (clean_up w.close_at index r).1
clean_up-either w events index before r (inl h) =
    inl (clean_up-Untouched w.close_at index before r h)
clean_up-either w events index before r (inr (a, h)) =
    inr (a, clean_up-Reconnected w.close_at index before r h)

-- The address that is selected is neither kept nor counted.
by_selected :
    (w : Network) (events : List (ℕ × Event)) (b : Bridge) (url : Option String) (after : Bridge)
    → Untouched (record b { ws_selected = url }) after
      ⊎ Begun w events (record b { ws_selected = url }) after
    → Untouched b after ⊎ Begun w events b after
by_selected w events b url after (inl h) =
    inl (record { events = h.events; seen = h.seen; reconnects = h.reconnects })
by_selected w events b url after (inr (a, h)) =
    inr (a, record { seen = h.seen; reconnects = h.reconnects })

attend-either :
    (w : Network) (events : List (ℕ × Event)) (b : Bridge)
    (chosen : Result GatewayError (ℕ × String))
    → Untouched b (attend w events chosen b).1 ⊎ Begun w events b (attend w events chosen b).1
attend-either w events b (err error) =
    inl (record { events = refl; seen = refl; reconnects = refl })
attend-either w events b (ok (index, url)) =
    let selected = record b { ws_selected = some url } in
    let opened = attended-either w events selected (open_socket w url) in
    clean_up-either w events index b (attended w events (open_socket w url) selected)
      (by_selected w events b (some url) _ opened)

-- Either a run leaves the hub, and what is known of earlier upstreams, as it was; or one of the
-- messages it received acknowledges the subscription and reports no error, an upstream is known
-- now, and the reconnection is counted exactly if one was known before.
pub run_ws_bridge-either :
    (w : Network) (events : List (ℕ × Event)) (b : Bridge)
    → Untouched b (run_ws_bridge w events b).1 ⊎ Begun w events b (run_ws_bridge w events b).1
unfolding run_ws_bridge
run_ws_bridge-either w events b = attend-either w events b (active_ws_url w.select_at b)
