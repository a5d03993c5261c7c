-- ===== src/Bridge/Timers.antt =====
-- The two timers of the bridge: the heartbeat, and the deadline of confirmations.
use mathlib.Core.List.{append-nil}
use mathlib.Core.Option.{some-injective}
use nano_rpc_gateway.Prelude.{
  ℕ, ◌+◌, ◌≤◌, Bool, true, false, List, [], ◌∷◌, ◌++◌, Option, none, some, ◌≡◌, refl, ◌≢◌, arith,
  eq_iff, leb, leb→le, Bool-cases, inl, inr, ap, sym, ◌∙◌, subst, All, String, if◌then◌else◌,
}
use nano_rpc_gateway.Prelude.Result.{ok, err, err-injective}
use nano_rpc_gateway.Json.{Value}
use nano_rpc_gateway.Error.{upstream_transport}
use nano_rpc_gateway.Bridge.{
  pong, close, Event, received, broken, ended, elapsed, ticked, Decoder, Listening, delivery_error,
  heartbeat_error,
}
use nano_rpc_gateway.Bridge.Run.{
  Bridge, Network, active_ws_url, open_socket, Waiting, handshake_timeout, await_ack, run_ws_bridge,
}
use nano_rpc_gateway.Bridge.Delivery.{fresh_listening, run_ws_bridge-Served}
use nano_rpc_gateway.Bridge.Splits.{
  ends, carried, awaits, put_off, settled, settled_after, Passes, Ending, Split,
}

-- The instants of a list are in order, from `u` on.
unfoldable pub Ascending : ℕ → List (ℕ × Event) → Type 0
Ascending u [] = Unit
Ascending u ((t, event) ∷ later) = (u ≤ t) × Ascending t later

module _ (decoder : Decoder) (liveness : ℕ) where
  Passes-append :
      (xs ys : List (ℕ × Event)) (s : Listening)
      → Passes decoder liveness (xs ++ ys) s
      → Passes decoder liveness ys (settled_after decoder liveness s xs)
  unfolding Passes settled_after
  Passes-append [] ys s h = h
  Passes-append ((t, event) ∷ xs) ys s h =
      Passes-append xs ys (settled decoder liveness t event s) h.1

  -- Without a pong a ping stays unanswered.
  awaits-kept : (event : Event) → event ≢ received pong → awaits decoder true event ≡ true
  unfolding awaits
  awaits-kept (received pong) h = absurd (h refl)
  awaits-kept (received _) h = refl
  awaits-kept (ticked _) h = refl
  awaits-kept _ h = refl

  settled_after-awaits :
      (events : List (ℕ × Event)) (s : Listening)
      → All (λ (e : ℕ × Event). e.1 ≢ received pong) events
      → s.awaiting_pong ≡ true
      → (settled_after decoder liveness s events).awaiting_pong ≡ true
  unfolding settled_after settled
  settled_after-awaits [] s h e = e
  settled_after-awaits ((t, event) ∷ later) s h e =
      settled_after-awaits later (settled decoder liveness t event s) h.1
        (ap (λ b. awaits decoder b event) e ∙ awaits-kept event h.0)

  -- Each confirmation of a list came `liveness` before `due` at the latest.
  abbrev pub HeardBy : ℕ → List (ℕ × Event) → Type 0
  HeardBy due events =
      All (λ (e : ℕ × Event). carried decoder e.1 ≢ none → e.0 + liveness ≤ due) events

  put_off-bounds :
      (u t deadline : ℕ) (c : Option Value)
      → u ≤ t
      → deadline ≤ u + liveness
      → (deadline ≤ put_off decoder liveness t deadline c)
        × (put_off decoder liveness t deadline c ≤ t + liveness)
        × (c ≢ none → t + liveness ≤ put_off decoder liveness t deadline c)
  put_off-bounds u t deadline none h k = (omega arith, omega arith, λ some_. absurd (some_ refl))
  put_off-bounds u t deadline (some d) h k = (omega arith, omega arith, λ _. omega arith)

  settled_after-bounds :
      (events : List (ℕ × Event)) (s : Listening) (u : ℕ)
      → Ascending u events
      → s.deadline ≤ u + liveness
      → (s.deadline ≤ (settled_after decoder liveness s events).deadline)
        × HeardBy (settled_after decoder liveness s events).deadline events
  unfolding settled_after settled Ascending
  settled_after-bounds [] s u h k = (omega arith, tt)
  settled_after-bounds ((t, event) ∷ later) s u h k =
      let (grows, bounded, heard) = put_off-bounds u t s.deadline (carried decoder event) h.0 k in
      let rest = settled_after-bounds later (settled decoder liveness t event s) t h.1 bounded in
      let more = rest.0 in
      (omega (arith, grows, more), (λ some_. omega (arith, heard some_, more), rest.1))

-- A tick that finds a ping unanswered ends the loop.
ends-tick :
    (t : ℕ) (failure : Option String) (s : Listening)
    → s.awaiting_pong ≡ true
    → ends t (ticked failure) s ≢ none
unfolding ends
ends-tick t none s h e = ground arith
ends-tick t (some error) s h e = cc

timeouts_differ : delivery_error ≢ heartbeat_error
timeouts_differ e =
    ground (arith, eq_iff "confirmation delivery timed out" "websocket heartbeat timed out")

unanswered :
    (b : Bool)
    → ◌≢◌ {A = Waiting (Unit {0})}
        (if b then some (err heartbeat_error) else none)
        (some (err delivery_error))
unanswered true h = timeouts_differ (sym (err-injective (some-injective _ _ h)))
unanswered false h = cc

unsent :
    (b : Bool) (error : String)
    → ◌≢◌ {A = Waiting (Unit {0})}
        (some (err (if b then heartbeat_error else upstream_transport error)))
        (some (err delivery_error))
unsent true error h = timeouts_differ (sym (err-injective (some-injective _ _ h)))
unsent false error h = cc

-- Only the deadline ends a loop with this error.
ends-delivery_error :
    (t : ℕ) (event : Event) (s : Listening)
    → ends t event s ≡ some (err delivery_error)
    → (event ≡ elapsed) × (s.deadline ≤ t)
unfolding ends
ends-delivery_error t (received close) s h = cc
ends-delivery_error t (received _) s h = cc
ends-delivery_error t (broken error) s h = cc
ends-delivery_error t ended s h = cc
ends-delivery_error t elapsed s h = elim (Bool-cases (leb s.deadline t)) [
  | inl due ↦ (refl, leb→le _ _ due)
  | inr early ↦ absurd (cc (h, early))
]
ends-delivery_error t (ticked none) s h = absurd (unanswered s.awaiting_pong h)
ends-delivery_error t (ticked (some error)) s h = absurd (unsent s.awaiting_pong error h)

-- A list that a loop has passed has no two ticks without a pong between them.
two_ticks :
    (decoder : Decoder) (liveness : ℕ) (xs ys zs : List (ℕ × Event)) (t u : ℕ) (f g : Option String)
    (s : Listening)
    → All (λ (e : ℕ × Event). e.1 ≢ received pong) ys
    → Passes decoder liveness (xs ++ (t, ticked f) ∷ (ys ++ (u, ticked g) ∷ zs)) s
    → ⊥
unfolding Passes
two_ticks decoder liveness xs ys zs t u f g s quiet h =
    let s1 = settled_after decoder liveness s xs in
    let first =
      Passes-append decoder liveness xs ((t, ticked f) ∷ (ys ++ (u, ticked g) ∷ zs)) s h in
    let s2 = settled decoder liveness t (ticked f) s1 in
    let second = Passes-append decoder liveness ys ((u, ticked g) ∷ zs) s2 first.1 in
    let waiting = settled_after-awaits decoder liveness ys s2 quiet refl in
    ends-tick u g (settled_after decoder liveness s2 ys) waiting second.0

module _ (decoder : Decoder) (liveness : ℕ) where
  Ending-none :
      (back : List (ℕ × Event)) (s : Listening) → Ending decoder liveness back s none → back ≡ []
  unfolding Ending
  Ending-none [] s h = refl
  Ending-none ((t, event) ∷ back) s (r, over, same) = cc

  -- A loop that has not ended has passed every event.
  Split-Passes :
      (events : List (ℕ × Event)) (s : Listening) (delivered : List Value)
      → Split decoder liveness events s (delivered, none)
      → Passes decoder liveness events s
  Split-Passes events s delivered split =
      let nothing = Ending-none split.back _ split.ending in
      subst (λ es. Passes decoder liveness es s)
        (sym (split.whole ∙ ap (λ ys. split.front ++ ys) nothing ∙ append-nil split.front))
        split.passes

-- A loop that has ended for want of confirmations.
pub record Starved (decoder : Decoder) (liveness start : ℕ) (events : List (ℕ × Event))
    : Type 0 where
  pub front : List (ℕ × Event)
  pub at : ℕ
  pub rest : List (ℕ × Event)
  pub whole : events ≡ front ++ (at, elapsed) ∷ rest
  pub waited : start + liveness ≤ at
  pub heard : HeardBy decoder liveness at front

Ascending-front : (u : ℕ) (xs ys : List (ℕ × Event)) → Ascending u (xs ++ ys) → Ascending u xs
unfolding Ascending
Ascending-front u [] ys h = tt
Ascending-front u ((t, event) ∷ xs) ys h = (h.0, Ascending-front t xs ys h.1)

module _ (decoder : Decoder) (liveness : ℕ) where
  -- The event that a loop has ended with, for want of confirmations.
  Ending-delivery_error :
      (back : List (ℕ × Event)) (s : Listening)
      → Ending decoder liveness back s (some (err delivery_error))
      → (t : ℕ) × (rest : List (ℕ × Event)) × (back ≡ (t, elapsed) ∷ rest) × (s.deadline ≤ t)
  unfolding Ending
  Ending-delivery_error [] s h = cc
  Ending-delivery_error ((t, event) ∷ rest) s (r, over, same) =
      let (timer, due) = ends-delivery_error t event s (over ∙ sym same) in
      (t, rest, ap (λ e. (t, e) ∷ rest) timer, due)

  HeardBy-le :
      (due later : ℕ) (events : List (ℕ × Event))
      → due ≤ later
      → HeardBy decoder liveness due events
      → HeardBy decoder liveness later events
  HeardBy-le due later [] h k = tt
  HeardBy-le due later (e ∷ es) h k =
      ((λ some_. omega (arith, h, k.0 some_)), HeardBy-le due later es h k.1)

  Split-Starved :
      (events : List (ℕ × Event)) (start : ℕ) (delivered : List Value) (s : Listening)
      → s.deadline ≡ start + liveness
      → Ascending start events
      → Split decoder liveness events s (delivered, some (err delivery_error))
      → Starved decoder liveness start events
  Split-Starved events start delivered s set ordered split =
      let (t, rest, back, due) = Ending-delivery_error split.back _ split.ending in
      let in_order =
        Ascending-front start split.front split.back
          (subst (Ascending start) split.whole ordered) in
      let (grows, heard) =
        settled_after-bounds decoder liveness split.front s start in_order (omega (arith, set)) in
      record {
        front = split.front;
        at = t;
        rest = rest;
        whole = split.whole ∙ ap (λ ys. split.front ++ ys) back;
        waited = omega (arith, set, grows, due);
        heard = HeardBy-le _ t split.front due heard;
      }

module _ (w : Network) (events later : List (ℕ × Event)) (b : Bridge) (index : ℕ) (url : String)
    (chosen : active_ws_url w.select_at b ≡ ok (index, url)) (opened : open_socket w url ≡ ok tt)
    (acked : await_ack w.decoder (w.ack_at + handshake_timeout) events ≡ some (ok later)) where
  -- A run whose subscription is acknowledged ends when the heartbeat ticks twice with no pong in
  -- between, whatever else happens.
  pub run_ws_bridge-heartbeat :
      (xs ys zs : List (ℕ × Event)) (t u : ℕ) (f g : Option String)
      → later ≡ xs ++ (t, ticked f) ∷ (ys ++ (u, ticked g) ∷ zs)
      → All (λ (e : ℕ × Event). e.1 ≢ received pong) ys
      → (run_ws_bridge w events b).0 ≢ none
  run_ws_bridge-heartbeat xs ys zs t u f g whole quiet e =
      let (delivered, split, _) =
        run_ws_bridge-Served w events later b index url chosen opened acked in
      let waiting =
        subst (λ r. Split w.decoder w.liveness later (fresh_listening w) (delivered, r)) e split in
      let passed = Split-Passes w.decoder w.liveness later _ delivered waiting in
      two_ticks w.decoder w.liveness xs ys zs t u f g (fresh_listening w) quiet
        (subst (λ es. Passes w.decoder w.liveness es (fresh_listening w)) whole passed)

  -- If the instants of the events are in order and such a run ends with the error that confirmations
  -- are not delivered, then the deadline had elapsed: the loop had run for the whole period, and
  -- every confirmation before had come the whole period ago, or earlier.
  pub run_ws_bridge-Starved :
      Ascending w.start_at later
      → (run_ws_bridge w events b).0 ≡ some (err delivery_error)
      → Starved w.decoder w.liveness w.start_at later
  run_ws_bridge-Starved ordered e =
      let (delivered, split, _) =
        run_ws_bridge-Served w events later b index url chosen opened acked in
      Split-Starved w.decoder w.liveness later w.start_at delivered (fresh_listening w) refl ordered
        (subst (λ r. Split w.decoder w.liveness later (fresh_listening w) (delivered, r)) e split)
