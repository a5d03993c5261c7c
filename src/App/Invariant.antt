-- ===== src/App/Invariant.antt =====
-- The invariant of the state of `AppState`.
use text.Mathlib.Text.{◌==◌ as str_eq}
use nano_rpc_gateway.Prelude.Text.{to_ascii_uppercase}
use nano_rpc_gateway.Prelude.{
  Bool-cases, inl, inr, ◌==◌, ◌||◌, ℕ, List, String, Bool, Option, none, some,
}
use nano_rpc_gateway.Prelude.Result.{Result, ok, err}
use nano_rpc_gateway.Json.{Value, member_str, unwrap_or}
use nano_rpc_gateway.Error.{GatewayError}
use nano_rpc_gateway.Rpc.{RpcRequest, TransportRejection}
use nano_rpc_gateway.Registry.{Scope, MethodSpec}
use nano_rpc_gateway.Upstream.Router.{NativeRouter}
use nano_rpc_gateway.Upstream.Router.Invariant.{IsWellFormed, call-IsWellFormed}
use nano_rpc_gateway.Guards.{ConfirmGuards}
use nano_rpc_gateway.App.{AppState, Config, World, ask, is_remote, has_job}
use nano_rpc_gateway.App.Bounds.{IsBounded, guard-IsBounded, record_accepted-IsBounded}
use nano_rpc_gateway.App.Work.{generate_local_work, run_prepared, run_job, prepare, has_local_job}
use nano_rpc_gateway.App.Dispatch.{
  Answer, admit, guard, run, respond, guarded, dispatch_admitted, dispatch, call_native, call_peers,
  generate_remote, cancel_work, after_success, record_hash, asks_node,
}

-- Both pools are well formed, and the guards are bounded.
pub record IsSound (s : AppState) : Type 0 where
  pub native_pool : IsWellFormed s.native_pool
  pub work_peers : IsWellFormed s.work_peers
  pub confirm_guards : IsBounded s.confirm_guards

ask-IsWellFormed :
    (w : World) (action : String) (params : Value) (r : NativeRouter)
    → IsWellFormed r
    → IsWellFormed (ask w action params r).1
unfolding ask
ask-IsWellFormed w action params r h = (call-IsWellFormed _ w.failure_at w.call_at r h).0

module _ (config : Config) (w : World) where
  run_job-IsSound :
      (hash : String) (bytes : List ℕ) (threshold : ℕ) (s : AppState)
      (start : Result String (Unit {0}))
      → IsSound s
      → IsSound (run_job w hash bytes threshold s start).1
  unfolding run_job
  run_job-IsSound hash bytes threshold s (ok _) h = record {
    native_pool = h.native_pool;
    work_peers = h.work_peers;
    confirm_guards = h.confirm_guards;
  }
  run_job-IsSound hash bytes threshold s (err _) h = record {
    native_pool = h.native_pool;
    work_peers = h.work_peers;
    confirm_guards = h.confirm_guards;
  }

  run_prepared-IsSound :
      (s : AppState) (p : Result GatewayError (String × List ℕ × ℕ))
      → IsSound s
      → IsSound (run_prepared w s p).1
  unfolding run_prepared
  run_prepared-IsSound s (err e) h = h
  run_prepared-IsSound s (ok (hash, bytes, threshold)) h =
      let jobs = s.local_work_jobs in
      elim (Bool-cases (s.local_work_slots == 0)) [
        | inl busy ↦ rw busy h
        | inr free ↦ elim (Bool-cases (has_local_job (to_ascii_uppercase hash) jobs)) [
          | inl running ↦ rw (free, running) h
          | inr fresh ↦ rw (free, fresh) (run_job-IsSound hash bytes threshold s w.generator h)
        ]
      ]

  generate_local_work-IsSound :
      (params : Value) (s : AppState) → IsSound s → IsSound (generate_local_work w params s).1
  unfolding generate_local_work
  generate_local_work-IsSound params s h = run_prepared-IsSound s (prepare w params) h

  call_peers-IsSound :
      (method : String) (params : Value) (s : AppState)
      → IsSound s
      → IsSound (call_peers w method params s).1
  call_peers-IsSound method params s h = record {
    native_pool = h.native_pool;
    work_peers = ask-IsWellFormed w method params s.work_peers h.work_peers;
    confirm_guards = h.confirm_guards;
  }

  generate_remote-IsSound :
      (hash : List ℕ) (params : Value) (s : AppState)
      → IsSound s
      → IsSound (generate_remote w hash params s).1
  generate_remote-IsSound hash params s h = record {
    native_pool = h.native_pool;
    work_peers = ask-IsWellFormed w "work_generate" params s.work_peers h.work_peers;
    confirm_guards = h.confirm_guards;
  }

  cancel_work-IsSound :
      (hash : List ℕ) (params : Value) (s : AppState)
      → IsSound s
      → IsSound (cancel_work config w hash params s).1
  cancel_work-IsSound hash params s h =
      elim (Bool-cases (is_remote config.work_provider || has_job hash s.remote_work_jobs)) [
        | inl at_peers ↦ rw at_peers (call_peers-IsSound "work_cancel" params s h)
        | inr here ↦ rw here (record {
          native_pool = h.native_pool;
          work_peers = h.work_peers;
          confirm_guards = h.confirm_guards;
        })
      ]

  call_native-IsSound :
      (method : String) (params : Value) (s : AppState)
      → IsSound s
      → IsSound (call_native w method params s).1
  call_native-IsSound method params s h = record {
    native_pool = ask-IsWellFormed w method params s.native_pool h.native_pool;
    work_peers = h.work_peers;
    confirm_guards = h.confirm_guards;
  }

  run-IsSound :
      (method : String) (params : Value) (s : AppState)
      → IsSound s
      → IsSound (run config w method params s).1
  unfolding run
  run-IsSound method params s h =
      let hash = to_ascii_uppercase (unwrap_or (member_str params "hash") "") in
      elim (Bool-cases (str_eq method "work_generate")) [
        | inl generates ↦ elim (Bool-cases (is_remote config.work_provider || asks_node params)) [
          | inl at_peers ↦ rw (generates, at_peers) (generate_remote-IsSound hash params s h)
          | inr here ↦ rw (generates, here) (generate_local_work-IsSound params s h)
        ]
        | inr other ↦ elim (Bool-cases (str_eq method "work_cancel")) [
          | inl cancels ↦ rw (other, cancels) (cancel_work-IsSound hash params s h)
          | inr passed ↦ rw (other, passed) (call_native-IsSound method params s h)
        ]
      ]

  record_hash-IsSound :
      (hash : Option String) (s : AppState) → IsSound s → IsSound (record_hash w hash s)
  record_hash-IsSound none s h = h
  record_hash-IsSound (some hash) s h = record {
    native_pool = h.native_pool;
    work_peers = h.work_peers;
    confirm_guards = record_accepted-IsBounded w.accepted_at hash s.confirm_guards h.confirm_guards;
  }

  after_success-IsSound :
      (method : String) (params : Value) (s : AppState)
      → IsSound s
      → IsSound (after_success w method params s)
  after_success-IsSound method params s h = elim (Bool-cases (str_eq method "block_confirm")) [
    | inl confirm ↦ rw confirm (record_hash-IsSound (member_str params "hash") s h)
    | inr other ↦ rw other h
  ]

  respond-IsSound :
      (id : Option Value) (method : String) (params : Value)
      (ran : Result GatewayError Value × AppState)
      → IsSound ran.1
      → IsSound (respond w id method params ran).1
  unfolding respond
  respond-IsSound id method params (ok result, s) h = after_success-IsSound method params s h
  respond-IsSound id method params (err e, s) h = h

  guarded-IsSound :
      (id : Option Value) (spec : MethodSpec) (params : Value) (s : AppState)
      (checked : Result TransportRejection (Unit {0}) × ConfirmGuards)
      → IsSound s
      → IsBounded checked.1
      → IsSound (guarded config w id spec params s checked).1
  guarded-IsSound id spec params s (ok _, g) h b =
      let taken : AppState = record s { confirm_guards = g } in
      let sound : IsSound taken = record {
        native_pool = h.native_pool;
        work_peers = h.work_peers;
        confirm_guards = b;
      } in
      respond-IsSound id spec.name params (run config w spec.name params taken)
        (run-IsSound spec.name params taken sound)
  guarded-IsSound id spec params s (err _, g) h b = record {
    native_pool = h.native_pool;
    work_peers = h.work_peers;
    confirm_guards = b;
  }

  -- Every request keeps the state sound, whatever it asks and whatever the upstreams answer: the
  -- pools stay well formed, the bucket within its burst, and the cache within its bound.
  pub dispatch-IsSound :
      (check : Scope → Bool) (request : RpcRequest) (s : AppState)
      → IsSound s
      → IsSound (dispatch config w check request s).1
  unfolding dispatch
  dispatch-IsSound check request s h = go (admit config w check request)
    where
      go :
          (admitted : Result Answer (MethodSpec × Value))
          → IsSound (dispatch_admitted config w request.id s admitted).1
      go (err answer) = h
      go (ok (spec, params)) =
          guarded-IsSound request.id spec params s (guard w spec.name params s.confirm_guards) h
            (guard-IsBounded w spec.name params s.confirm_guards h.confirm_guards)
