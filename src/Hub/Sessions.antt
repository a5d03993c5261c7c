-- ===== src/Hub/Sessions.antt =====
-- The sessions of a hub over any sequence of what happens to it.
use nano_rpc_gateway.Prelude.{
  ℕ, zero, suc, Bool, true, false, List, [], ◌∷◌, ◌++◌, Option, none, some, ◌≡◌, refl, ◌≢◌, inl,
  inr, arith, length, get_or, length-set, get_or-set_ne, Bool-cases, Option-cases, ◌==◌,
  if◌then◌else◌, ap, sym, ◌∙◌, subst,
}
use nano_rpc_gateway.Stream.{NanoEvent}
use nano_rpc_gateway.Hub.{
  ConfirmationSession, EventHub, no_session, new_hub, session_at, cancel_at, send_at,
  cancel_previous, start_session, send_current, publish, lease_publish, without, drop_lease, Action,
  started, published, lease_published, dropped, step, run_actions,
}

-- The last of a list that grew by one.
pub get_or-append_last :
    {A : Type 0} (xs : List A) (a d : A) → get_or (xs ++ a ∷ []) (length xs) d ≡ a
get_or-append_last [] a d = refl
get_or-append_last (x ∷ xs) a d = get_or-append_last xs a d

-- If the session at `i` was over, and is not once one more has come, then it is the one.
last_only :
    (before : List ConfirmationSession) (fresh : ConfirmationSession) (i : ℕ)
    → (get_or before i no_session).is_cancelled ≡ true
    → (get_or (before ++ fresh ∷ []) i no_session).is_cancelled ≡ false
    → length before ≡ i
last_only [] fresh zero h alive = refl
last_only [] fresh (suc i) h alive = cc
last_only (x ∷ xs) fresh zero h alive = cc
last_only (x ∷ xs) fresh (suc i) h alive = ap suc (last_only xs fresh i h alive)

-- The sessions that are not over: the current one, if there is one, and no other.
pub record IsSingle (hub : EventHub) : Type 0 where
  pub live : (i : ℕ) → hub.current ≡ some i → (session_at hub i).is_cancelled ≡ false
  pub only : (i : ℕ) → (session_at hub i).is_cancelled ≡ false → hub.current ≡ some i

-- A write of a session reads back, within the store.
flag-cancel_at :
    (sessions : List ConfirmationSession) (i j : ℕ)
    → (get_or (cancel_at i sessions) j no_session).is_cancelled
      ≡ (if i == j then true else (get_or sessions j no_session).is_cancelled)
flag-cancel_at [] i j = ground arith
flag-cancel_at (s ∷ ss) zero zero = refl
flag-cancel_at (s ∷ ss) zero (suc j) = ground arith
flag-cancel_at (s ∷ ss) (suc i) zero = ground arith
flag-cancel_at (s ∷ ss) (suc i) (suc j) = ground (arith, flag-cancel_at ss i j)

flag-send_at :
    (sessions : List ConfirmationSession) (i j : ℕ) (item : NanoEvent)
    → (get_or (send_at i item sessions) j no_session).is_cancelled
      ≡ (get_or sessions j no_session).is_cancelled
flag-send_at [] i j item = refl
flag-send_at (s ∷ ss) zero zero item = refl
flag-send_at (s ∷ ss) zero (suc j) item = refl
flag-send_at (s ∷ ss) (suc i) zero item = refl
flag-send_at (s ∷ ss) (suc i) (suc j) item = flag-send_at ss i j item

pub length-cancel_previous :
    (c : Option ℕ) (sessions : List ConfirmationSession)
    → length (cancel_previous c sessions) ≡ length sessions
length-cancel_previous none sessions = refl
length-cancel_previous (some i) sessions = length-set sessions i _

-- Where one session is single, the cancellation of the current one leaves none.
cancel_previous-none :
    (hub : EventHub) (j : ℕ)
    → IsSingle hub
    → (get_or (cancel_previous hub.current hub.sessions) j no_session).is_cancelled ≡ true
cancel_previous-none hub j h = elim (Option-cases hub.current) [
  | inl idle ↦ elim (Bool-cases (session_at hub j).is_cancelled) [
    | inl over ↦ rw idle over
    | inr alive ↦ let found = h.only j alive in absurd (cc (idle, found))
  ]
  | inr (i, busy) ↦ elim (Bool-cases (session_at hub j).is_cancelled) [
    | inl over ↦ rw busy (ground (arith, flag-cancel_at hub.sessions i j, over))
    | inr alive ↦
        let found = h.only j alive in
        let agree : ◌≡◌ {A = Option ℕ} (some i) (some j) = sym busy ∙ found in
        let here : i ≡ j = cc agree in
        rw busy (ground (arith, flag-cancel_at hub.sessions i j, here))
  ]
]

start_session-IsSingle : (hub : EventHub) → IsSingle hub → IsSingle (start_session hub).1
unfolding start_session
start_session-IsSingle hub h =
    let before = cancel_previous hub.current hub.sessions in
    let fresh : ConfirmationSession = record {
      generation = hub.next_generation;
      sent = [];
      is_cancelled = false;
    } in
    let size = length-cancel_previous hub.current hub.sessions in
    let last : get_or (before ++ fresh ∷ []) (length hub.sessions) no_session ≡ fresh =
      subst (λ n. get_or (before ++ fresh ∷ []) n no_session ≡ fresh) size
        (get_or-append_last before fresh no_session) in
    record {
      live = λ i e.
          let same : length hub.sessions ≡ i = cc e in
          rw (← same) (ap (λ (s : ConfirmationSession). s.is_cancelled) last);
      only = λ i alive.
          ap some (sym size ∙ last_only before fresh i (cancel_previous-none hub i h) alive);
    }

-- Sending ends no session and begins none.
send_at-IsSingle :
    (i : ℕ) (item : NanoEvent) (hub : EventHub)
    → IsSingle hub
    → IsSingle (record hub { sessions = send_at i item hub.sessions })
send_at-IsSingle i item hub h = record {
  live = λ j e. flag-send_at hub.sessions i j item ∙ h.live j e;
  only = λ j alive. h.only j (sym (flag-send_at hub.sessions i j item) ∙ alive);
}

send_current-IsSingle :
    (c : Option ℕ) (item : NanoEvent) (hub : EventHub)
    → IsSingle hub
    → IsSingle (send_current c item hub)
send_current-IsSingle none item hub h = h
send_current-IsSingle (some i) item hub h = send_at-IsSingle i item hub h

publish-IsSingle : (item : NanoEvent) (hub : EventHub) → IsSingle hub → IsSingle (publish item hub)
unfolding publish
publish-IsSingle item hub h = send_current-IsSingle hub.current item hub h

either-IsSingle :
    (b : Bool) (x y : EventHub) → IsSingle x → IsSingle y → IsSingle (if b then x else y)
either-IsSingle true x y h k = h
either-IsSingle false x y h k = k

lease_publish-IsSingle :
    (i : ℕ) (item : NanoEvent) (hub : EventHub) → IsSingle hub → IsSingle (lease_publish i item hub)
unfolding lease_publish
lease_publish-IsSingle i item hub h =
    either-IsSingle (session_at hub i).is_cancelled hub
      (record hub { sessions = send_at i item hub.sessions }) h (send_at-IsSingle i item hub h)

without_ne : (i j : ℕ) (c : Option ℕ) → without i c ≡ some j → (c ≡ some j) × ((i == j) ≡ false)
without_ne i j none h = cc
without_ne i j (some k) h = ground arith

without_of_ne : (i j : ℕ) (c : Option ℕ) → c ≡ some j → (i == j) ≡ false → without i c ≡ some j
without_of_ne i j none h g = cc
without_of_ne i j (some k) h g = ground arith

alive_before :
    (after b before : Bool)
    → after ≡ (if b then true else before)
    → after ≡ false
    → (b ≡ false) × (before ≡ false)
alive_before after true before e h = cc
alive_before after false before e h = (refl, sym e ∙ h)

drop_lease-IsSingle : (i : ℕ) (hub : EventHub) → IsSingle hub → IsSingle (drop_lease i hub)
unfolding drop_lease
drop_lease-IsSingle i hub h = record {
  live = λ j e.
      let (there, other) = without_ne i j hub.current e in
      let alive = h.live j there in ground (arith, flag-cancel_at hub.sessions i j, alive, other);
  only = λ j alive.
      let (other, was_alive) = alive_before _ (i == j) _ (flag-cancel_at hub.sessions i j) alive in
      without_of_ne i j hub.current (h.only j was_alive) other;
}

pub step-IsSingle : (a : Action) (hub : EventHub) → IsSingle hub → IsSingle (step a hub)
unfolding step
step-IsSingle started hub h = start_session-IsSingle hub h
step-IsSingle (published item) hub h = publish-IsSingle item hub h
step-IsSingle (lease_published i item) hub h = lease_publish-IsSingle i item hub h
step-IsSingle (dropped i) hub h = drop_lease-IsSingle i hub h

new_hub-IsSingle : IsSingle new_hub
new_hub-IsSingle = record { live = λ i e. cc; only = λ i alive. cc }

run_actions-IsSingle_from :
    (actions : List Action) (hub : EventHub) → IsSingle hub → IsSingle (run_actions actions hub)
unfolding run_actions
run_actions-IsSingle_from [] hub h = h
run_actions-IsSingle_from (a ∷ later) hub h =
    run_actions-IsSingle_from later (step a hub) (step-IsSingle a hub h)

-- Whatever happens to a new hub, in whatever order sessions start, leases publish and leases are
-- dropped: the current session is not cancelled, and every other session is.
pub run_actions-IsSingle : (actions : List Action) → IsSingle (run_actions actions new_hub)
run_actions-IsSingle actions = run_actions-IsSingle_from actions new_hub new_hub-IsSingle

-- The drop of the lease of a session that has been replaced does not retire its replacement: the
-- hub's current session stays, is not cancelled, and keeps what it has sent.
pub drop_lease-stale :
    (i j : ℕ) (hub : EventHub)
    → hub.current ≡ some j
    → i ≢ j
    → ((drop_lease i hub).current ≡ some j) × (session_at (drop_lease i hub) j ≡ session_at hub j)
unfolding drop_lease
drop_lease-stale i j hub busy other =
    let differs : (i == j) ≡ false = ground arith in
    (without_of_ne i j hub.current busy differs, get_or-set_ne hub.sessions i j _ no_session other)
