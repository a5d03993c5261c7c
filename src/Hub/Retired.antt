-- ===== src/Hub/Retired.antt =====
-- What becomes of a session that is over.
use nano_rpc_gateway.Prelude.{
  ℕ, zero, suc, ◌<◌, Bool, true, false, List, [], ◌∷◌, ◌++◌, Option, none, some, ◌≡◌, refl, ◌≢◌,
  arith, length, get_or, length-set, length-append, get_or-set_self, get_or-set_ne, if◌then◌else◌,
  ap, sym, ◌∙◌,
}
use native.Mathlib.Decide.{ℕ_discrete}
use nano_rpc_gateway.Stream.{NanoEvent}
use nano_rpc_gateway.Hub.{
  ConfirmationSession, EventHub, no_session, session_at, cancel, cancel_at, send_at,
  cancel_previous, start_session, send_current, publish, lease_publish, drop_lease, Action, started,
  published, lease_published, dropped, step, run_actions,
}
use nano_rpc_gateway.Hub.Sessions.{IsSingle, step-IsSingle, length-cancel_previous}

-- The session `i` has begun, and is over.
pub record IsRetired (hub : EventHub) (i : ℕ) : Type 0 where
  pub begun : i < length hub.sessions
  pub over : (session_at hub i).is_cancelled ≡ true

-- What is left of the session `i` by a step.
record Frozen (before after : EventHub) (i : ℕ) : Type 0 where
  begun : i < length after.sessions
  same : session_at after i ≡ session_at before i

get_or-append :
    {A : Type 0} (xs ys : List A) (d : A) (i : ℕ)
    → i < length xs
    → get_or (xs ++ ys) i d ≡ get_or xs i d
get_or-append [] ys d i h = absurd (omega arith)
get_or-append (x ∷ xs) ys d zero h = refl
get_or-append (x ∷ xs) ys d (suc i) h = get_or-append xs ys d i (omega arith)

cancel_over : (s : ConfirmationSession) → s.is_cancelled ≡ true → cancel s ≡ s
cancel_over s h = ap (λ b. record s { is_cancelled = b }) (sym h)

-- A cancellation leaves a session that is over as it was.
cancel_at-over :
    (sessions : List ConfirmationSession) (i j : ℕ)
    → i < length sessions
    → (get_or sessions i no_session).is_cancelled ≡ true
    → get_or (cancel_at j sessions) i no_session ≡ get_or sessions i no_session
cancel_at-over sessions i j h over = elim (ℕ_discrete j i) [
  | yes e ↦
      let same : get_or (cancel_at i sessions) i no_session ≡ get_or sessions i no_session =
        get_or-set_self sessions i _ no_session h
        ∙ cancel_over (get_or sessions i no_session) over in
      rw e same
  | no other ↦ get_or-set_ne sessions j i _ no_session other
]

cancel_previous-over :
    (c : Option ℕ) (sessions : List ConfirmationSession) (i : ℕ)
    → i < length sessions
    → (get_or sessions i no_session).is_cancelled ≡ true
    → get_or (cancel_previous c sessions) i no_session ≡ get_or sessions i no_session
cancel_previous-over none sessions i h over = refl
cancel_previous-over (some j) sessions i h over = cancel_at-over sessions i j h over

start_session-Frozen :
    (hub : EventHub) (i : ℕ) → IsRetired hub i → Frozen hub (start_session hub).1 i
unfolding start_session
start_session-Frozen hub i r =
    let size = length-cancel_previous hub.current hub.sessions in
    record {
      begun =
          omega (
            arith,
            length-append (cancel_previous hub.current hub.sessions) (_ ∷ []),
            size,
            r.begun,
          );
      same =
          get_or-append (cancel_previous hub.current hub.sessions) _ no_session i
            (omega (arith, size, r.begun))
          ∙ cancel_previous-over hub.current hub.sessions i r.begun r.over;
    }

send_at-Frozen :
    (hub : EventHub) (i j : ℕ) (item : NanoEvent)
    → IsRetired hub i
    → j ≢ i
    → Frozen hub (record hub { sessions = send_at j item hub.sessions }) i
send_at-Frozen hub i j item r other =
    let begun = r.begun in
    record {
      begun = omega (arith, length-set hub.sessions j (_), begun);
      same = get_or-set_ne hub.sessions j i _ no_session other;
    }

-- A session that is alive is another one.
alive-ne :
    (hub : EventHub) (i j : ℕ) → IsRetired hub i → (session_at hub j).is_cancelled ≡ false → j ≢ i
alive-ne hub i j r alive e = let over : (session_at hub j).is_cancelled ≡ true = rw e r.over in cc

send_current-Frozen :
    (hub : EventHub) (i : ℕ) (item : NanoEvent) (c : Option ℕ)
    → IsSingle hub
    → IsRetired hub i
    → hub.current ≡ c
    → Frozen hub (send_current c item hub) i
send_current-Frozen hub i item none h r e = record { begun = r.begun; same = refl }
send_current-Frozen hub i item (some j) h r e =
    send_at-Frozen hub i j item r (alive-ne hub i j r (h.live j e))

either-Frozen :
    (hub x y : EventHub) (i : ℕ) (b : Bool)
    → Frozen hub x i
    → (b ≡ false → Frozen hub y i)
    → Frozen hub (if b then x else y) i
either-Frozen hub x y i true h k = h
either-Frozen hub x y i false h k = k refl

step-Frozen :
    (a : Action) (hub : EventHub) (i : ℕ)
    → IsSingle hub
    → IsRetired hub i
    → Frozen hub (step a hub) i
unfolding step publish lease_publish drop_lease
step-Frozen started hub i h r = start_session-Frozen hub i r
step-Frozen (published item) hub i h r = send_current-Frozen hub i item hub.current h r refl
step-Frozen (lease_published j item) hub i h r =
    either-Frozen hub hub (record hub { sessions = send_at j item hub.sessions }) i
      (session_at hub j).is_cancelled (record { begun = r.begun; same = refl })
      (λ alive. send_at-Frozen hub i j item r (alive-ne hub i j r alive))
step-Frozen (dropped j) hub i h r =
    let begun = r.begun in
    record {
      begun = omega (arith, length-set hub.sessions j (cancel (session_at hub j)), begun);
      same = cancel_at-over hub.sessions i j r.begun r.over;
    }

-- Once a session is over it stays so, and nothing is sent in it any more, whatever happens to the
-- hub: the stream of a lost upstream subscription is not continued by a later one.
pub run_actions-retired :
    (actions : List Action) (hub : EventHub) (i : ℕ)
    → IsSingle hub
    → IsRetired hub i
    → session_at (run_actions actions hub) i ≡ session_at hub i
unfolding run_actions
run_actions-retired [] hub i h r = refl
run_actions-retired (a ∷ later) hub i h r =
    let frozen = step-Frozen a hub i h r in
    let still : IsRetired (step a hub) i = record {
      begun = frozen.begun;
      over = ap (λ (s : ConfirmationSession). s.is_cancelled) frozen.same ∙ r.over;
    } in
    run_actions-retired later (step a hub) i (step-IsSingle a hub h) still ∙ frozen.same
