-- ===== src/Bridge/Invariant.antt =====
-- The invariant of the bridge's part of the state, and the cooldown of the upstream that a run used.
use native.Mathlib.Nat.{mod-lt}
use nano_rpc_gateway.Prelude.{
  ℕ, suc, ◌+◌, ◌<◌, ◌%◌, String, List, [], ◌∷◌, none, some, ◌≡◌, refl, ◌≢◌, arith, length, get_or,
  leb→le, ap, sym, ◌∙◌, length-set, get_or-set_self,
}
use nano_rpc_gateway.Prelude.Result.{Result, ok, err}
use nano_rpc_gateway.Error.{GatewayError}
use nano_rpc_gateway.Hub.{EventHub, started, lease_published, dropped, step}
use nano_rpc_gateway.Hub.Sessions.{IsSingle, step-IsSingle}
use nano_rpc_gateway.Upstream.Router.{upstream_cooldown}
use nano_rpc_gateway.Bridge.{Event, Decoder, Listening, Reaction, stop, go_on, deliver, react}
use nano_rpc_gateway.Bridge.Run.{
  Bridge, Network, active_ws_url, mark_ws_unhealthy, open_socket, Waiting, handshake_timeout,
  await_ack, nano_confirmation, Heard, follow, listen, leave, Ran, serve, acknowledged, attended,
  attend, clean_up, run_ws_bridge,
}
use nano_rpc_gateway.Bridge.Rotation.{active_ws_url-IsReady, acknowledged-Steady, attended-Steady}

-- The upstreams' part of the state: there is one, each has a cooldown, and the active one is one of
-- them; and the hub has one session at most that is not over.
pub record IsSound (b : Bridge) : Type 0 where
  pub not_empty : 0 < length b.node_ws_urls
  pub active : b.ws_active < length b.node_ws_urls
  pub cooldowns : length b.ws_unhealthy_until ≡ length b.node_ws_urls
  pub single : IsSingle b.events

module _ (decoder : Decoder) (liveness lease : ℕ) where
  follow-IsSingle :
      (r : Reaction) (hub : EventHub) (next : Listening → EventHub → Heard)
      → IsSingle hub
      → ((s : Listening) (h : EventHub) → IsSingle h → IsSingle (next s h).1)
      → IsSingle (follow decoder liveness lease r hub next).1
  unfolding step
  follow-IsSingle (stop result) hub next h k = h
  follow-IsSingle (go_on s) hub next h k = k s hub h
  follow-IsSingle (deliver data_ s) hub next h k =
      k s _ (step-IsSingle (lease_published lease (nano_confirmation data_)) hub h)

  listen-IsSingle :
      (events : List (ℕ × Event)) (s : Listening) (hub : EventHub)
      → IsSingle hub
      → IsSingle (listen decoder liveness lease events s hub).1
  unfolding listen
  listen-IsSingle [] s hub h = h
  listen-IsSingle ((t, event) ∷ later) s hub h =
      follow-IsSingle (react decoder liveness t event s) hub (listen decoder liveness lease later) h
        (listen-IsSingle later)

leave-IsSingle : (lease : ℕ) (h : Heard) → IsSingle h.1 → IsSingle (leave lease h)
unfolding step
leave-IsSingle lease (none, hub) h = h
leave-IsSingle lease (some r, hub) h = step-IsSingle (dropped lease) hub h

serve-IsSingle :
    (w : Network) (later : List (ℕ × Event)) (b : Bridge)
    → IsSingle b.events
    → IsSingle (serve w later b).1.events
unfolding serve step
serve-IsSingle w later b h =
    let begun = step-IsSingle started b.events h in
    leave-IsSingle _ _ (listen-IsSingle w.decoder w.liveness _ later _ _ begun)

acknowledged-IsSingle :
    (w : Network) (a : Waiting (List (ℕ × Event))) (b : Bridge)
    → IsSingle b.events
    → IsSingle (acknowledged w a b).1.events
acknowledged-IsSingle w none b h = h
acknowledged-IsSingle w (some (err e)) b h = h
acknowledged-IsSingle w (some (ok later)) b h = serve-IsSingle w later b h

attended-IsSound :
    (w : Network) (events : List (ℕ × Event)) (r : Result GatewayError (Unit {0})) (b : Bridge)
    → IsSound b
    → IsSound (attended w events r b).1
attended-IsSound w events (err e) b h = h
attended-IsSound w events (ok _) b h =
    let a = await_ack w.decoder (w.ack_at + handshake_timeout) events in
    let steady = acknowledged-Steady w events b a in
    record {
      not_empty = rw (steady.urls) h.not_empty;
      active = rw (steady.urls, steady.active) h.active;
      cooldowns = rw (steady.urls, steady.cooldowns) h.cooldowns;
      single = acknowledged-IsSingle w a b h.single;
    }

clean_up-IsSound : (now index : ℕ) (r : Ran) → IsSound r.1 → IsSound (clean_up now index r).1
unfolding mark_ws_unhealthy
clean_up-IsSound now index (none, b) h = h
clean_up-IsSound now index (some result, b) h = record {
  not_empty = h.not_empty;
  active = mod-lt (suc index) h.not_empty;
  cooldowns = length-set b.ws_unhealthy_until index _ ∙ h.cooldowns;
  single = h.single;
}

attend-IsSound :
    (w : Network) (events : List (ℕ × Event)) (c : Result GatewayError (ℕ × String)) (b : Bridge)
    → IsSound b
    → IsSound (attend w events c b).1
attend-IsSound w events (err e) b h = h
attend-IsSound w events (ok (index, url)) b h =
    let selected = record b { ws_selected = some url } in
    clean_up-IsSound w.close_at index (attended w events (open_socket w url) selected) (
      attended-IsSound w events (open_socket w url) selected (record {
        not_empty = h.not_empty;
        active = h.active;
        cooldowns = h.cooldowns;
        single = h.single;
      }))

-- Whatever the network and the upstream do, a run keeps the invariant: the active upstream is one
-- of the configured ones, each of them has a cooldown, and at most one session of the hub, its
-- current one, is not over.
pub run_ws_bridge-IsSound :
    (w : Network) (events : List (ℕ × Event)) (b : Bridge)
    → IsSound b
    → IsSound (run_ws_bridge w events b).1
unfolding run_ws_bridge
run_ws_bridge-IsSound w events b h = attend-IsSound w events (active_ws_url w.select_at b) b h

clean_up-cooldown :
    (now index : ℕ) (r : Ran) (result : Result GatewayError (Unit {0}))
    → r.0 ≡ some result
    → index < length r.1.ws_unhealthy_until
    → (get_or (clean_up now index r).1.ws_unhealthy_until index 0 ≡ now + upstream_cooldown)
      × ((clean_up now index r).1.ws_active ≡ suc index % length r.1.node_ws_urls)
unfolding mark_ws_unhealthy
clean_up-cooldown now index (none, b) result e h = cc
clean_up-cooldown now index (some r, b) result e h =
    (get_or-set_self b.ws_unhealthy_until index (now + upstream_cooldown) 0 h, refl)

clean_up-result : (now index : ℕ) (r : Ran) → (clean_up now index r).0 ≡ r.0
clean_up-result now index (none, b) = refl
clean_up-result now index (some r, b) = refl

module _ (w : Network) (events : List (ℕ × Event)) (b : Bridge) (index : ℕ) (url : String)
    (result : Result GatewayError (Unit {0})) (h : IsSound b)
    (chose : active_ws_url w.select_at b ≡ ok (index, url))
    (over : (run_ws_bridge w events b).0 ≡ some result) where
  attempt : Ran
  attempt = attended w events (open_socket w url) (record b { ws_selected = some url })

  run-clean_up : run_ws_bridge w events b ≡ clean_up w.close_at index attempt
  unfolding run_ws_bridge attempt
  run-clean_up = ap (λ c. attend w events c b) chose

  attempt-cooldown :
      (get_or (clean_up w.close_at index attempt).1.ws_unhealthy_until index 0
        ≡ w.close_at + upstream_cooldown)
      × ((clean_up w.close_at index attempt).1.ws_active
          ≡ suc index % length attempt.1.node_ws_urls)
  unfolding attempt
  attempt-cooldown =
      let selected = record b { ws_selected = some url } in
      let steady = attended-Steady w events selected (open_socket w url) in
      let (bounded, ready) = active_ws_url-IsReady w.select_at b index url h.not_empty chose in
      let ended : attempt.0 ≡ some result =
        sym (clean_up-result w.close_at index attempt)
        ∙ sym (ap (λ (r : Ran). r.0) run-clean_up)
        ∙ over in
      clean_up-cooldown w.close_at index attempt result ended
        (omega (arith, ap length steady.cooldowns, h.cooldowns, bounded))

  -- After a run that has ended, whatever its result, the upstream it used is not chosen again before
  -- 15 seconds have passed since its end.
  pub run_ws_bridge-cooled :
      (now other : ℕ) (address : String)
      → now < w.close_at + upstream_cooldown
      → active_ws_url now (run_ws_bridge w events b).1 ≡ ok (other, address)
      → other ≢ index
  run_ws_bridge-cooled now other address early again same =
      let sound = run_ws_bridge-IsSound w events b h in
      let (bounded, ready) =
        active_ws_url-IsReady now (run_ws_bridge w events b).1 other address sound.not_empty
          again in
      let until =
        ap (λ (r : Ran). get_or r.1.ws_unhealthy_until index 0) run-clean_up ∙ attempt-cooldown.0 in
      let due = leb→le _ _ ready in
      let here = ap (λ i. get_or (run_ws_bridge w events b).1.ws_unhealthy_until i 0) same in
      absurd (omega (arith, until, due, here, early))
