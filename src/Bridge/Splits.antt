-- ===== src/Bridge/Splits.antt =====
-- The loop of the bridge against a description of it: which event ends it, what is delivered before
-- that, and what the two timers have come to by then.
use nano_rpc_gateway.Prelude.{
  ℕ, ◌+◌, Bool, true, false, List, [], ◌∷◌, ◌++◌, Option, none, some, ◌≡◌, refl, inl, inr,
  Bool-cases, leb, if◌then◌else◌, Option-cases, ap, sym, ◌∙◌,
}
use nano_rpc_gateway.Prelude.Result.{Result, ok, err}
use nano_rpc_gateway.Json.{Value}
use nano_rpc_gateway.Error.{GatewayError, upstream_transport}
use nano_rpc_gateway.Bridge.{
  Message, text, binary, ping, pong, close, frame, Event, received, broken, ended, elapsed, ticked,
  Decoder, Listening, Reaction, stop, go_on, deliver, confirmation, delivery_error, heartbeat_error,
  react,
}
use nano_rpc_gateway.Bridge.Run.{Waiting}
use nano_rpc_gateway.Bridge.Course.{HeardOf, course}

-- The result that an event ends the loop with, if it does.
unfoldable pub ends : ℕ → Event → Listening → Waiting (Unit {0})
ends t (received close) s = some (ok tt)
ends t (received _) s = none
ends t (broken error) s = some (err (upstream_transport error))
ends t ended s = some (ok tt)
ends t elapsed s = if leb s.deadline t then some (err delivery_error) else none
ends t (ticked (some error)) s =
    some (err (if s.awaiting_pong then heartbeat_error else upstream_transport error))
ends t (ticked none) s = if s.awaiting_pong then some (err heartbeat_error) else none

module _ (decoder : Decoder) where
  -- The confirmation that an event brings.
  unfoldable pub carried : Event → Option Value
  unfolding confirmation
  carried (received message) = confirmation decoder message
  carried _ = none

  abbrev pub add : Option Value → List Value → List Value
  add none ds = ds
  add (some d) ds = d ∷ ds

  unfoldable pub confirmations : List (ℕ × Event) → List Value
  unfolding carried
  confirmations [] = []
  confirmations ((t, event) ∷ later) = add (carried event) (confirmations later)

  -- Whether the last of the ticks and pongs was a tick.
  unfoldable pub awaits : Bool → Event → Bool
  awaits b (received pong) = false
  awaits b (ticked _) = true
  awaits b _ = b

  module _ (liveness : ℕ) where
    abbrev pub put_off : ℕ → ℕ → Option Value → ℕ
    put_off t deadline none = deadline
    put_off t deadline (some _) = t + liveness

    -- The pong that is waited for, and the deadline, after an event that does not end the loop.
    unfoldable pub settled : ℕ → Event → Listening → Listening
    unfolding carried awaits
    settled t event s = record {
      awaiting_pong = awaits s.awaiting_pong event;
      deadline = put_off t s.deadline (carried event);
    }

    unfoldable pub settled_after : Listening → List (ℕ × Event) → Listening
    unfolding settled
    settled_after s [] = s
    settled_after s ((t, event) ∷ later) = settled_after (settled t event s) later

    -- No event of a list ends the loop.
    unfoldable pub Passes : List (ℕ × Event) → Listening → Type 0
    unfolding ends settled
    Passes [] s = Unit
    Passes ((t, event) ∷ later) s = (ends t event s ≡ none) × Passes later (settled t event s)

    -- The first of the events that are left ends the loop, or none is left and it has not ended.
    unfoldable pub Ending : List (ℕ × Event) → Listening → Waiting (Unit {0}) → Type 0
    unfolding ends
    Ending [] s result = result ≡ none
    Ending ((t, event) ∷ later) s result =
        (r : Result GatewayError (Unit {0})) × (ends t event s ≡ some r) × (result ≡ some r)

    -- The events of a loop: those before its end, and the rest from the one that ends it.
    pub record Split (events : List (ℕ × Event)) (s : Listening) (heard : HeardOf) : Type 0 where
      pub front : List (ℕ × Event)
      pub back : List (ℕ × Event)
      pub whole : events ≡ front ++ back
      pub passes : Passes front s
      pub delivered : heard.0 ≡ confirmations front
      pub ending : Ending back (settled_after s front) heard.1

    abbrev reaction_of : Waiting (Unit {0}) → Option Value → Listening → Reaction
    reaction_of (some r) c s = stop r
    reaction_of none (some d) s = deliver d s
    reaction_of none none s = go_on s

    react-message :
        (t : ℕ) (s : Listening) (c : Option Value)
        → nano_rpc_gateway.Bridge.hear decoder liveness t s c
          ≡ reaction_of none c
              (record { awaiting_pong = s.awaiting_pong; deadline = put_off t s.deadline c })
    react-message t s none = refl
    react-message t s (some d) = refl

    react-reaction_of :
        (t : ℕ) (event : Event) (s : Listening)
        → react decoder liveness t event s
          ≡ reaction_of (ends t event s) (carried event) (settled t event s)
    unfolding react ends carried settled awaits confirmation
    react-reaction_of t (received (text m)) s = react-message t s (confirmation decoder (text m))
    react-reaction_of t (received (binary m)) s =
        react-message t s (confirmation decoder (binary m))
    react-reaction_of t (received ping) s = refl
    react-reaction_of t (received pong) s = refl
    react-reaction_of t (received close) s = refl
    react-reaction_of t (received frame) s = refl
    react-reaction_of t (broken error) s = refl
    react-reaction_of t ended s = refl
    react-reaction_of t elapsed s = elim (Bool-cases (leb s.deadline t)) [
      | inl due ↦ rw due refl
      | inr early ↦ rw early refl
    ]
    react-reaction_of t (ticked none) s = elim (Bool-cases s.awaiting_pong) [
      | inl awaiting ↦ rw awaiting refl
      | inr heard ↦ rw heard refl
    ]
    react-reaction_of t (ticked (some error)) s = elim (Bool-cases s.awaiting_pong) [
      | inl awaiting ↦ rw awaiting refl
      | inr heard ↦ rw heard refl
    ]

    -- The events of a loop fall in two parts: none of the first part ends it, exactly the
    -- confirmations of the first part are delivered, in their order, and the second part either
    -- begins with the event whose error or end is the result, or is empty and there is no result.
    pub course-Split :
        (events : List (ℕ × Event)) (s : Listening)
        → Split events s (course decoder liveness events s)
    unfolding course react confirmations settled_after Passes Ending
    course-Split [] s = record {
      front = [];
      back = [];
      whole = refl;
      passes = tt;
      delivered = refl;
      ending = refl;
    }
    course-Split ((t, event) ∷ later) s =
        let rest = course-Split later (settled t event s) in
        let next = settled t event s in
        let step = react-reaction_of t event s in
        elim (Option-cases (ends t event s)) [
          | inr (r, over) ↦
              let stops = step ∙ ap (λ o. reaction_of o (carried event) next) over in
              rw stops (record {
                front = [];
                back = (t, event) ∷ later;
                whole = refl;
                passes = tt;
                delivered = refl;
                ending = (r, over, refl);
              })
          | inl passed ↦
              let runs = step ∙ ap (λ o. reaction_of o (carried event) next) passed in
              elim (Option-cases (carried event)) [
                | inl nothing ↦ rw (runs ∙ ap (λ c. reaction_of none c next) nothing) (record {
                  front = (t, event) ∷ rest.front;
                  back = rest.back;
                  whole = ap (λ es. (t, event) ∷ es) rest.whole;
                  passes = (passed, rest.passes);
                  delivered =
                      rest.delivered ∙ ap (λ c. add c (confirmations rest.front)) (sym nothing);
                  ending = rest.ending;
                })
                | inr (d, brought) ↦ rw (runs ∙ ap (λ c. reaction_of none c next) brought) (record {
                  front = (t, event) ∷ rest.front;
                  back = rest.back;
                  whole = ap (λ es. (t, event) ∷ es) rest.whole;
                  passes = (passed, rest.passes);
                  delivered =
                      ap (λ ds. d ∷ ds) rest.delivered
                      ∙ ap (λ c. add c (confirmations rest.front)) (sym brought);
                  ending = rest.ending;
                })
              ]
        ]
