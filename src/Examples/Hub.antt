-- ===== src/Examples/Hub.antt =====
-- A session that is replaced by another, and whose lease is dropped after that.
use nano_rpc_gateway.Prelude.{ℕ, true, false, List, [], ◌∷◌, some, ◌≡◌, refl, ◌≢◌, arith}
use nano_rpc_gateway.Json.{null}
use nano_rpc_gateway.Stream.{NanoEvent}
use nano_rpc_gateway.Hub.{
  EventHub, new_hub, session_at, start_session, publish, lease_publish, Action, started, published,
  lease_published, dropped, step, run_actions,
}
use nano_rpc_gateway.Hub.Sessions.{IsSingle, run_actions-IsSingle}
use nano_rpc_gateway.Hub.Retired.{IsRetired, run_actions-retired}

abbrev item : NanoEvent
item = record { event = "nano.confirmation"; payload = null }

abbrev replaced : List Action
replaced = started ∷ published item ∷ started ∷ lease_published 0 item ∷ []

run_actions-IsSingle_example : IsSingle (run_actions replaced new_hub)
run_actions-IsSingle_example = run_actions-IsSingle replaced

abbrev hub : EventHub
hub = record {
  sessions =
      record { generation = 1; sent = item ∷ []; is_cancelled = true }
      ∷ record { generation = 2; sent = []; is_cancelled = false }
      ∷ [];
  current = some 1;
  next_generation = 3;
}

hub-reached : run_actions replaced new_hub ≡ hub
unfolding run_actions step start_session publish lease_publish
hub-reached = refl

hub-IsSingle : IsSingle hub
unfolding run_actions step start_session publish lease_publish
hub-IsSingle = run_actions-IsSingle replaced

abbrev stale : ℕ
stale = 0

zero-ne_one : stale ≢ 1
zero-ne_one e = absurd (omega arith)

hub-IsRetired : IsRetired hub 0
hub-IsRetired = record { begun = omega arith; over = refl }

run_actions-retired_example :
    session_at (run_actions (published item ∷ lease_published 0 item ∷ dropped 0 ∷ []) hub) 0
    ≡ session_at hub 0
run_actions-retired_example =
    run_actions-retired (published item ∷ lease_published 0 item ∷ dropped 0 ∷ []) hub 0
      hub-IsSingle hub-IsRetired
