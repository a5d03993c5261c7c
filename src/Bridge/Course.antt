-- ===== src/Bridge/Course.antt =====
-- The loop of the bridge without the hub: what it delivers and how it ends, and where it ends.
use mathlib.Core.List.{append-nil, append_assoc}
use nano_rpc_gateway.Prelude.{
  ℕ, Bool, false, List, [], ◌∷◌, ◌++◌, Option, none, some, ◌≡◌, refl, length, set, map, ap, sym,
  ◌∙◌,
}
use nano_rpc_gateway.Json.{Value}
use nano_rpc_gateway.Stream.{NanoEvent}
use nano_rpc_gateway.Hub.{ConfirmationSession, EventHub, no_session, lease_publish}
use nano_rpc_gateway.Hub.Sessions.{get_or-append_last}
use nano_rpc_gateway.Bridge.{Event, Decoder, Listening, Reaction, stop, go_on, deliver, react}
use nano_rpc_gateway.Bridge.Run.{Waiting, nano_confirmation, Heard, follow, listen}

pub set-append_last :
    {A : Type 0} (xs : List A) (a b : A) → set (xs ++ a ∷ []) (length xs) b ≡ xs ++ b ∷ []
set-append_last [] a b = refl
set-append_last (x ∷ xs) a b = ap (λ ys. x ∷ ys) (set-append_last xs a b)

-- What the loop delivers, and its result.
abbrev pub HeardOf : Type 0
HeardOf = List Value × Waiting (Unit {0})

module _ (decoder : Decoder) (liveness : ℕ) where
  abbrev pub heard_with : Reaction → (Listening → HeardOf) → HeardOf
  heard_with (stop result) next = ([], some result)
  heard_with (go_on s) next = next s
  heard_with (deliver data_ s) next = let rest = next s in (data_ ∷ rest.0, rest.1)

  unfoldable pub course : List (ℕ × Event) → Listening → HeardOf
  unfolding react
  course [] s = ([], none)
  course ((t, event) ∷ later) s = heard_with (react decoder liveness t event s) (course later)

-- A hub whose last session is the given one.
abbrev pub hub_with : List ConfirmationSession → Option ℕ → ℕ → ConfirmationSession → EventHub
hub_with before current next session = record {
  sessions = before ++ session ∷ [];
  current = current;
  next_generation = next;
}

abbrev pub session_with : ℕ → List NanoEvent → Bool → ConfirmationSession
session_with generation sent over = record {
  generation = generation;
  sent = sent;
  is_cancelled = over;
}

module _ (before : List ConfirmationSession) (current : Option ℕ) (next generation : ℕ) where
  abbrev hub_of : List NanoEvent → EventHub
  hub_of sent = hub_with before current next (session_with generation sent false)

  lease_publish-last :
      (sent : List NanoEvent) (item : NanoEvent)
      → lease_publish (length before) item (hub_of sent) ≡ hub_of (sent ++ item ∷ [])
  unfolding lease_publish
  lease_publish-last sent item =
      let session = session_with generation sent false in
      let found = get_or-append_last before session no_session in
      rw found (
        ap
          (λ (sessions : List ConfirmationSession). record {
            sessions = sessions;
            current = current;
            next_generation = next;
          })
          (set-append_last before session (session_with generation (sent ++ item ∷ []) false)))

  module _ (decoder : Decoder) (liveness : ℕ) where
    -- What the loop with the lease of the last session does: it adds to that session what it
    -- delivers, and nothing else.
    abbrev Agree : (Listening → EventHub → Heard) → (Listening → HeardOf) → Type 0
    Agree loop pure =
        (s : Listening) (sent : List NanoEvent)
        → loop s (hub_of sent) ≡ ((pure s).1, hub_of (sent ++ map nano_confirmation (pure s).0))

    follow-heard_with :
        (loop : Listening → EventHub → Heard) (pure : Listening → HeardOf)
        → Agree loop pure
        → (r : Reaction) (sent : List NanoEvent)
        → follow decoder liveness (length before) r (hub_of sent) loop ≡ (
          (heard_with decoder liveness r pure).1,
          hub_of (sent ++ map nano_confirmation (heard_with decoder liveness r pure).0),
        )
    unfolding lease_publish
    follow-heard_with loop pure h (stop result) sent =
        ap (λ ys. (some result, hub_of ys)) (sym (append-nil sent))
    follow-heard_with loop pure h (go_on s) sent = h s sent
    follow-heard_with loop pure h (deliver data_ s) sent =
        let rest = map nano_confirmation (pure s).0 in
        ap (loop s) (lease_publish-last sent (nano_confirmation data_))
        ∙ h s (sent ++ nano_confirmation data_ ∷ [])
        ∙ ap (λ ys. ((pure s).1, hub_of ys)) (append_assoc sent (nano_confirmation data_ ∷ []) rest)

    pub listen-course :
        (events : List (ℕ × Event))
        → Agree (listen decoder liveness (length before) events) (course decoder liveness events)
    unfolding listen course react
    listen-course [] s sent = ap (λ ys. (none, hub_of ys)) (sym (append-nil sent))
    listen-course ((t, event) ∷ later) s sent =
        follow-heard_with (listen decoder liveness (length before) later)
          (course decoder liveness later) (listen-course later) (react decoder liveness t event s)
          sent
