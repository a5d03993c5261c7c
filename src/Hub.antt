-- ===== src/Hub.antt =====
-- `EventHub` of src/lib.rs: the sessions of the upstream subscription and the leases that own them.
-- Sessions are shared objects: they stand in a store, and a lease, or the hub's current session, is
-- an index into it. What a session has sent is all that its channel was given; how far a receiver
-- lags behind is left to the channel. Each operation is one step: the lock on the hub's current
-- session makes it so for the operations of the hub, while the look at the cancelled flag and the
-- send in a lease's `publish`, which holds no lock, are taken together.
pub mod Sessions
pub mod Retired
use nano_rpc_gateway.Prelude.{
  ℕ, ◌+◌, ◌%◌, ◌^◌, Bool, true, false, List, [], ◌∷◌, ◌++◌, Option, none, some, length, get_or, set,
  if◌then◌else◌, ◌==◌,
}
use nano_rpc_gateway.Stream.{NanoEvent}

pub record ConfirmationSession : Type 0 where
  pub generation : ℕ
  pub sent : List NanoEvent
  pub is_cancelled : Bool

pub record EventHub : Type 0 where
  pub sessions : List ConfirmationSession
  pub current : Option ℕ
  pub next_generation : ℕ

-- `EventHub::new`
abbrev pub new_hub : EventHub
new_hub = record { sessions = []; current = none; next_generation = 1 }

-- What an index past the store reads as: a session that is over.
abbrev pub no_session : ConfirmationSession
no_session = record { generation = 0; sent = []; is_cancelled = true }

abbrev pub session_at : EventHub → ℕ → ConfirmationSession
session_at hub i = get_or hub.sessions i no_session

abbrev pub cancel : ConfirmationSession → ConfirmationSession
cancel session = record session { is_cancelled = true }

abbrev pub cancel_at : ℕ → List ConfirmationSession → List ConfirmationSession
cancel_at i sessions = set sessions i (cancel (get_or sessions i no_session))

-- `tx.send(item)`
abbrev pub send_at : ℕ → NanoEvent → List ConfirmationSession → List ConfirmationSession
send_at i item sessions =
    let session = get_or sessions i no_session in
    set sessions i (record session { sent = session.sent ++ item ∷ [] })

abbrev pub cancel_previous : Option ℕ → List ConfirmationSession → List ConfirmationSession
cancel_previous none sessions = sessions
cancel_previous (some i) sessions = cancel_at i sessions

-- The lease of the new session is its index.
unfoldable pub start_session : EventHub → ℕ × EventHub
start_session hub = (
  length hub.sessions,
  record {
    sessions =
        cancel_previous hub.current hub.sessions
        ++ record { generation = hub.next_generation; sent = []; is_cancelled = false } ∷ [];
    current = some (length hub.sessions);
    next_generation = (hub.next_generation + 1) % 2 ^ 64;
  },
)

abbrev pub is_ready : EventHub → Bool
is_ready hub = elim hub.current [ none ↦ false | some _ ↦ true ]

abbrev pub send_current : Option ℕ → NanoEvent → EventHub → EventHub
send_current none item hub = hub
send_current (some i) item hub = record hub { sessions = send_at i item hub.sessions }

-- `EventHub::publish`
unfoldable pub publish : NanoEvent → EventHub → EventHub
publish item hub = send_current hub.current item hub

-- `subscribe`: the session whose events the subscriber gets, with its generation.
unfoldable pub subscribe : EventHub → Option (ℕ × ℕ)
subscribe hub = elim hub.current [ none ↦ none | some i ↦ some (i, (session_at hub i).generation) ]

-- `ConfirmationSessionLease::publish`
unfoldable pub lease_publish : ℕ → NanoEvent → EventHub → EventHub
lease_publish i item hub =
    if (session_at hub i).is_cancelled
    then hub
    else record hub { sessions = send_at i item hub.sessions }

abbrev pub without : ℕ → Option ℕ → Option ℕ
without i none = none
without i (some j) = if i == j then none else some j

-- The drop of a lease.
unfoldable pub drop_lease : ℕ → EventHub → EventHub
drop_lease i hub = record hub {
  sessions = cancel_at i hub.sessions;
  current = without i hub.current;
}

-- What happens to a hub.
pub data Action : Type 0 where
  started : Action
  published : NanoEvent → Action
  lease_published : ℕ → NanoEvent → Action
  dropped : ℕ → Action

unfoldable pub step : Action → EventHub → EventHub
unfolding start_session publish lease_publish drop_lease
step started hub = (start_session hub).1
step (published item) hub = publish item hub
step (lease_published i item) hub = lease_publish i item hub
step (dropped i) hub = drop_lease i hub

unfoldable pub run_actions : List Action → EventHub → EventHub
unfolding step
run_actions [] hub = hub
run_actions (a ∷ as_) hub = run_actions as_ (step a hub)
