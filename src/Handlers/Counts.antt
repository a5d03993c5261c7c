-- ===== src/Handlers/Counts.antt =====
-- What every call does to the counters and to the state.
use nano_rpc_gateway.Prelude.{
  ℕ, ◌%◌, ◌^◌, Bool, true, false, not, List, ◌≡◌, refl, inl, inr, ◌⊎◌, if◌then◌else◌, ap, sym,
  subst,
}
use nano_rpc_gateway.Prelude.Result.{
  Result, ok, err, Errs, Errs-ok, Errs->>=, Errs->>, Errs-fail_if, Errs-map_err, Result-cases,
}
use nano_rpc_gateway.Json.{Value, is_object}
use nano_rpc_gateway.Rpc.{RpcRequest, RpcResponse}
use nano_rpc_gateway.Registry.{Scope}
use nano_rpc_gateway.App.{AppState, Config, World}
use nano_rpc_gateway.App.Dispatch.{dispatch}
use nano_rpc_gateway.App.Invariant.{IsSound, dispatch-IsSound}
use nano_rpc_gateway.Handlers.Metrics.{Metrics, fetch_add, count_request, drop_request}
use nano_rpc_gateway.Handlers.Call.{
  Readers, is_batch, first_byte, batch_refusal, parse_refusal, object_refusal, request_refusal,
  is_failure, count_if, read_value, read_request, answer_request, rpc_handler,
}

-- The counters after a call that took `elapsed` milliseconds.
pub record Counted (before after : Metrics) (failed : Bool) (elapsed : ℕ) : Type 0 where
  pub requests : after.requests ≡ fetch_add before.requests 1
  pub errors : after.errors ≡ (if failed then fetch_add before.errors 1 else before.errors)
  pub duration_sum :
      after.request_duration_ms_sum ≡ fetch_add before.request_duration_ms_sum (elapsed % 2 ^ 64)
  pub duration_count :
      after.request_duration_ms_count ≡ fetch_add before.request_duration_ms_count 1
  pub streams : after.active_streams ≡ before.active_streams
  pub overflow_resets : after.overflow_resets ≡ before.overflow_resets
  pub reconnects : after.upstream_reconnects ≡ before.upstream_reconnects

count_if-Counted :
    (failed : Bool) (elapsed : ℕ) (m : Metrics)
    → Counted m (drop_request elapsed (count_if failed (count_request m))) failed elapsed
unfolding drop_request
count_if-Counted true elapsed m = record {
  requests = refl;
  errors = refl;
  duration_sum = refl;
  duration_count = refl;
  streams = refl;
  overflow_resets = refl;
  reconnects = refl;
}
count_if-Counted false elapsed m = record {
  requests = refl;
  errors = refl;
  duration_sum = refl;
  duration_count = refl;
  streams = refl;
  overflow_resets = refl;
  reconnects = refl;
}

module _ (r : Readers) (config : Config) (w : World) (check : Scope → Bool) (elapsed : ℕ) where
  -- A refusal of the body is an error response.
  abbrev Refuses : RpcResponse → Type 0
  Refuses response = is_failure (ok response) ≡ true

  read_value-Errs : (value : Value) → Errs Refuses (read_value r value)
  unfolding read_value
  read_value-Errs value =
      Errs->> Refuses _ _ (Errs-fail_if Refuses (not (is_object value)) object_refusal refl) (
        Errs->>= Refuses _ _ (Errs-map_err Refuses request_refusal (r.from_value value) (λ e. refl))
          (λ request. Errs-ok Refuses _))

  read_request-Errs : (body : List ℕ) → Errs Refuses (read_request r body)
  unfolding read_request
  read_request-Errs body =
      Errs->> Refuses _ _ (Errs-fail_if Refuses (is_batch (first_byte body)) batch_refusal refl) (
        Errs->>= Refuses _ _ (Errs-map_err Refuses parse_refusal (r.from_slice body) (λ e. refl))
          read_value-Errs)

  answer_request-Counted :
      (read : Result RpcResponse RpcRequest) (s : AppState) (m : Metrics)
      → Errs Refuses read
      → Counted m
          (drop_request elapsed (answer_request config w check read s (count_request m)).1.1)
          (is_failure (answer_request config w check read s (count_request m)).0)
          elapsed
  answer_request-Counted (err response) s m h =
      rw (h.each response refl) (count_if-Counted true elapsed m)
  answer_request-Counted (ok request) s m h = count_if-Counted _ elapsed m

  -- Every call is counted as one request with its duration, and as one error exactly when its answer
  -- is an error response or a transport rejection; the other counters stay.
  pub rpc_handler-Counted :
      (body : List ℕ) (s : AppState) (m : Metrics)
      → Counted m
          (rpc_handler r config w check elapsed body s m).1.1
          (is_failure (rpc_handler r config w check elapsed body s m).0)
          elapsed
  unfolding rpc_handler
  rpc_handler-Counted body s m =
      answer_request-Counted (read_request r body) s m (read_request-Errs body)

  -- The two ways of a call, by what was read.
  pub rpc_handler-either :
      (body : List ℕ) (s : AppState) (m : Metrics)
      → ((response : RpcResponse) × (read_request r body ≡ err response)
          × ((rpc_handler r config w check elapsed body s m).0 ≡ ok response)
          × ((rpc_handler r config w check elapsed body s m).1.0 ≡ s))
        ⊎ ((request : RpcRequest) × (read_request r body ≡ ok request)
            × ((rpc_handler r config w check elapsed body s m).0
                ≡ (dispatch config w check request s).0)
            × ((rpc_handler r config w check elapsed body s m).1.0
                ≡ (dispatch config w check request s).1))
  unfolding rpc_handler
  rpc_handler-either body s m = elim (Result-cases (read_request r body)) [
    | inl (request, h) ↦ inr (
      request,
      h,
      ap (λ q. (answer_request config w check q s (count_request m)).0) h,
      ap (λ q. (answer_request config w check q s (count_request m)).1.0) h,
    )
    | inr (response, h) ↦ inl (
      response,
      h,
      ap (λ q. (answer_request config w check q s (count_request m)).0) h,
      ap (λ q. (answer_request config w check q s (count_request m)).1.0) h,
    )
  ]

  -- Every call keeps the state sound.
  pub rpc_handler-IsSound :
      (body : List ℕ) (s : AppState) (m : Metrics)
      → IsSound s
      → IsSound (rpc_handler r config w check elapsed body s m).1.0
  rpc_handler-IsSound body s m h = elim (rpc_handler-either body s m) [
    | inl (response, _, _, same) ↦ subst IsSound (sym same) h
    | inr (request, _, _, same) ↦
        subst IsSound (sym same) (dispatch-IsSound config w check request s h)
  ]
