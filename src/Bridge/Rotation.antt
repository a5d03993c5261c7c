-- ===== src/Bridge/Rotation.antt =====
-- The choice of a WebSocket upstream, and what a run leaves of it.
use native.Mathlib.Nat.{mod-lt}
use nano_rpc_gateway.Prelude.{
  ℕ, zero, suc, ◌+◌, ◌<◌, ◌%◌, String, Bool, true, false, List, [], ◌∷◌, Option, none, some, ◌≡◌,
  refl, inl, inr, ◌⊎◌, subst, length, get_or, leb, Bool-cases, ap, if◌then◌else◌,
}
use nano_rpc_gateway.Prelude.Result.{Result, ok, err, ok-injective}
use nano_rpc_gateway.Error.{GatewayError}
use nano_rpc_gateway.Upstream.Router.Reference.{rotation, healthy}
use nano_rpc_gateway.Bridge.{Event}
use nano_rpc_gateway.Bridge.Run.{
  Bridge, Network, select_from, url_at, active_ws_url, Waiting, handshake_timeout, await_ack, serve,
  acknowledged, attended,
}

abbrev pub first : List ℕ → Option ℕ
first [] = none
first (i ∷ is) = some i

select_from-first :
    (n start now : ℕ) (unhealthy : List ℕ) (left offset : ℕ)
    → select_from n start now unhealthy left offset
      ≡ first (healthy now unhealthy (rotation n start left offset))
unfolding select_from healthy rotation
select_from-first n start now unhealthy zero offset = refl
select_from-first n start now unhealthy (suc left) offset =
    elim (Bool-cases (leb (get_or unhealthy ((start + offset) % n) 0) now)) [
      | inl over ↦ rw over refl
      | inr cooling ↦ rw cooling (select_from-first n start now unhealthy left (suc offset))
    ]

-- The addresses whose cooldown is over, in their order from the active one on.
abbrev pub ready_urls : ℕ → Bridge → List ℕ
ready_urls now b =
    let n = length b.node_ws_urls in healthy now b.ws_unhealthy_until (rotation n b.ws_active n 0)

-- The first of a list of indices, with its address.
abbrev pub url_at_first : Bridge → List ℕ → Result GatewayError (ℕ × String)
url_at_first b indices = url_at b.node_ws_urls (first indices)

-- The upstream that is chosen is the first, from the active one on and round the list once, whose
-- cooldown is over; when all are cooling down it is an error.
pub active_ws_url-first :
    (now : ℕ) (b : Bridge) → active_ws_url now b ≡ url_at_first b (ready_urls now b)
unfolding active_ws_url
active_ws_url-first now b =
    let n = length b.node_ws_urls in
    ap (url_at b.node_ws_urls) (select_from-first n b.ws_active now b.ws_unhealthy_until n 0)

chosen-either :
    (b : Bool) (here index : ℕ) (later : Option ℕ)
    → (if b then some here else later) ≡ some index
    → ((b ≡ true) × (here ≡ index)) ⊎ (later ≡ some index)
chosen-either true here index later h = inl (refl, cc h)
chosen-either false here index later h = inr h

url_at-ok :
    (urls : List String) (o : Option ℕ) (index : ℕ) (url : String)
    → url_at urls o ≡ ok (index, url)
    → o ≡ some index
url_at-ok urls none index url h = cc
url_at-ok urls (some i) index url h = ap some (ap (λ (p : ℕ × String). p.0) (ok-injective h))

-- An index of the list whose cooldown is over.
abbrev pub IsReady : ℕ → ℕ → List ℕ → ℕ → Type 0
IsReady n now unhealthy index = (index < n) × (leb (get_or unhealthy index 0) now ≡ true)

select_from-IsReady :
    (n start now : ℕ) (unhealthy : List ℕ) (left offset index : ℕ)
    → 0 < n
    → select_from n start now unhealthy left offset ≡ some index
    → IsReady n now unhealthy index
unfolding select_from
select_from-IsReady n start now unhealthy zero offset index pos h = cc
select_from-IsReady n start now unhealthy (suc left) offset index pos h =
    let here = (start + offset) % n in
    elim (chosen-either (leb (get_or unhealthy here 0) now) here index _ h) [
      | inl (over, same) ↦ subst (IsReady n now unhealthy) same (mod-lt (start + offset) pos, over)
      | inr found ↦ select_from-IsReady n start now unhealthy left (suc offset) index pos found
    ]

pub active_ws_url-IsReady :
    (now : ℕ) (b : Bridge) (index : ℕ) (url : String)
    → 0 < length b.node_ws_urls
    → active_ws_url now b ≡ ok (index, url)
    → IsReady (length b.node_ws_urls) now b.ws_unhealthy_until index
unfolding active_ws_url
active_ws_url-IsReady now b index url pos h =
    let n = length b.node_ws_urls in
    select_from-IsReady n b.ws_active now b.ws_unhealthy_until n 0 index pos
      (url_at-ok b.node_ws_urls _ index url h)

-- What a run does to the choice: nothing, or its upstream is put on cooldown and the next one is the
-- active one.
pub record Steady (before after : Bridge) : Type 0 where
  pub urls : after.node_ws_urls ≡ before.node_ws_urls
  pub active : after.ws_active ≡ before.ws_active
  pub cooldowns : after.ws_unhealthy_until ≡ before.ws_unhealthy_until

module _ (w : Network) (events : List (ℕ × Event)) (b : Bridge) where
  pub acknowledged-Steady : (a : Waiting (List (ℕ × Event))) → Steady b (acknowledged w a b).1
  unfolding serve
  acknowledged-Steady none = record { urls = refl; active = refl; cooldowns = refl }
  acknowledged-Steady (some (err e)) = record { urls = refl; active = refl; cooldowns = refl }
  acknowledged-Steady (some (ok later)) = record { urls = refl; active = refl; cooldowns = refl }

  pub attended-Steady : (r : Result GatewayError (Unit {0})) → Steady b (attended w events r b).1
  attended-Steady (err e) = record { urls = refl; active = refl; cooldowns = refl }
  attended-Steady (ok _) =
      acknowledged-Steady (await_ack w.decoder (w.ack_at + handshake_timeout) events)
