-- ===== src/App/Guarded.antt =====
-- What stands behind an error under the node's code, and behind a transport rejection.
use nano_rpc_gateway.Prelude.{
  String, Bool, true, false, Option, none, some, ◌≡◌, refl, ◌≢◌, ◌⊎◌, inl, inr, ap, ◌∙◌, subst,
  Bool-cases,
}
use nano_rpc_gateway.Prelude.Int.{ℤ}
use nano_rpc_gateway.Prelude.Result.{Result, ok, err, Result-cases}
use nano_rpc_gateway.Json.{Value}
use nano_rpc_gateway.Error.{
  GatewayError, node_rejected, node_rate_limited, node_error_code, config, config_value, io,
  upstream, upstream_rejected, upstream_unavailable, upstream_transport, invalid_request, auth,
  rate_limited,
}
use nano_rpc_gateway.Rpc.{
  RpcRequest, RpcResponse, RpcError, TransportRejection, response_err, invalid_request_code,
}
use nano_rpc_gateway.Registry.{Scope, MethodSpec}
use nano_rpc_gateway.Validate.Outcome.{validate_result, normalize_work_generate_result}
use nano_rpc_gateway.Guards.{ConfirmGuards}
use nano_rpc_gateway.App.{AppState, Config, World}
use nano_rpc_gateway.App.Dispatch.{
  Answer, admit, guard, run, respond, guarded, success_response, failure_response,
  dispatch_admitted, dispatch,
}
use nano_rpc_gateway.App.Admission.{Admitted, admit_iff}
use nano_rpc_gateway.App.Sources.{Source, run-Source}
use nano_rpc_gateway.App.Refusals.{EveryErr, every-admit, is_node_code}

-- The run hands the message on as the node's.
abbrev Reported : String → Result GatewayError Value → Type 0
Reported message result =
    (result ≡ err (node_rejected message)) ⊎ (result ≡ err (node_rate_limited message))

-- An error under the node's code has a message that the run handed on as the node's.
abbrev Blamed : Result GatewayError Value → Answer → Type 0
Blamed result (ok response) =
    (e : RpcError) → response.error ≡ some e → e.code ≡ node_error_code → Reported e.message result
Blamed result (err rejection) = Unit

not-is_node_code : (code : ℤ) → is_node_code code ≡ false → code ≢ node_error_code
not-is_node_code code h e = let same : is_node_code code ≡ true = rw e refl in cc

abbrev code_from : ℤ → Option RpcError → ℤ
code_from code none = code
code_from code (some e) = e.code

abbrev message_from : String → Option RpcError → String
message_from message none = message
message_from message (some e) = e.message

never-response_err :
    (id : Option Value) (code : ℤ) (message : String) (e : RpcError)
    → is_node_code code ≡ false
    → (response_err id code message).error ≡ some e
    → e.code ≡ node_error_code
    → ⊥
never-response_err id code message e h same node =
    not-is_node_code code h (ap (code_from code) same ∙ node)

Blamed-err :
    (result : Result GatewayError Value) (id : Option Value) (code : ℤ) (message : String)
    → is_node_code code ≡ false
    → Blamed result (ok (response_err id code message))
Blamed-err result id code message h e same node =
    absurd (never-response_err id code message e h same node)

success-Blamed :
    (ran : Result GatewayError Value) (id : Option Value) (method : String) (result : Value)
    → Blamed ran (ok (success_response id method result))
success-Blamed ran id method result = elim (Bool-cases (validate_result method result)) [
  | inl valid ↦ rw valid (λ e same node. cc same)
  | inr invalid ↦ rw invalid (Blamed-err ran id _ _ refl)
]

failure-Blamed :
    (id : Option Value) (e : GatewayError) → Blamed (err e) (ok (failure_response id e))
failure-Blamed id (node_rejected reason) =
    λ e same node. inl (ap (λ m. err (node_rejected m)) (ap (message_from reason) same))
failure-Blamed id (node_rate_limited reason) =
    λ e same node. inr (ap (λ m. err (node_rate_limited m)) (ap (message_from reason) same))
failure-Blamed id (upstream message) = Blamed-err _ id _ _ refl
failure-Blamed id (upstream_unavailable message) = Blamed-err _ id _ _ refl
failure-Blamed id (upstream_transport message) = Blamed-err _ id _ _ refl
failure-Blamed id (invalid_request message) = Blamed-err _ id _ _ refl
failure-Blamed id (config message) = Blamed-err _ id _ _ refl
failure-Blamed id (config_value message) = Blamed-err _ id _ _ refl
failure-Blamed id (io message) = Blamed-err _ id _ _ refl
failure-Blamed id (upstream_rejected message) = Blamed-err _ id _ _ refl
failure-Blamed id (auth message) = Blamed-err _ id _ _ refl
failure-Blamed id (rate_limited message) = Blamed-err _ id _ _ refl

respond-Blamed :
    (w : World) (id : Option Value) (method : String) (params : Value)
    (ran : Result GatewayError Value × AppState)
    → Blamed ran.0 (respond w id method params ran).0
unfolding respond
respond-Blamed w id method params (ok result, s) =
    success-Blamed (ok result) id method (normalize_work_generate_result method params result).0
respond-Blamed w id method params (err e, s) = failure-Blamed id e

respond-ok :
    (w : World) (id : Option Value) (method : String) (params : Value)
    (ran : Result GatewayError Value × AppState) (rejection : TransportRejection)
    → (respond w id method params ran).0 ≡ err rejection
    → ⊥
unfolding respond
respond-ok w id method params (ok result, s) rejection h = cc
respond-ok w id method params (err e, s) rejection h = cc

module _ (settings : Config) (w : World) (check : Scope → Bool) (request : RpcRequest)
    (s : AppState) where
  -- The run of an admitted method, past the guards.
  abbrev ran : MethodSpec → Value → Result GatewayError Value × AppState
  ran spec params =
      run settings w spec.name params
        (record s { confirm_guards = (guard w spec.name params s.confirm_guards).1 })

  guarded-Blamed :
      (spec : MethodSpec) (params : Value)
      (checked : Result TransportRejection (Unit {0}) × ConfirmGuards)
      → Blamed
          (run settings w spec.name params (record s { confirm_guards = checked.1 })).0
          (guarded settings w request.id spec params s checked).0
  guarded-Blamed spec params (ok _, g) =
      respond-Blamed w request.id spec.name params
        (run settings w spec.name params (record s { confirm_guards = g }))
  guarded-Blamed spec params (err rejection, g) = tt

  -- No error under the node's code.
  abbrev NeverNode : Answer → Type 0
  NeverNode (ok response) = (e : RpcError) → response.error ≡ some e → e.code ≡ node_error_code → ⊥
  NeverNode (err rejection) = Unit

  dispatch-ran :
      (response : RpcResponse) (e : RpcError)
      → (dispatch settings w check request s).0 ≡ ok response
      → response.error ≡ some e
      → e.code ≡ node_error_code
      → (spec : MethodSpec) × (params : Value) × Admitted settings check request spec params
        × Reported e.message (ran spec params).0
  unfolding dispatch
  dispatch-ran response e answered same node =
      elim (Result-cases (admit settings w check request)) [
        | inl ((spec, params), passed) ↦
            let blamed = guarded-Blamed spec params (guard w spec.name params s.confirm_guards) in
            let here = subst (Blamed (ran spec params).0) (rw passed at answered) blamed in
            (
              spec,
              params,
              (admit_iff settings w check request spec params).0 passed,
              here e same node,
            )
        | inr (answer, refused) ↦
            let never = subst (EveryErr NeverNode) refused (
              every-admit settings w check request NeverNode
                (λ code message h. λ x kept. never-response_err request.id code message x h kept)
                (λ message missing.
                  λ x kept. never-response_err none invalid_request_code message x refl kept)
                tt (λ named. λ x missing _. cc missing)) in
            absurd ((subst NeverNode (rw refused at answered) never) e same node)
      ]

  -- Under the code -32000 stands one of two things, and the request got past the checks: what an
  -- upstream of one of the pools wrote as the `error` of its answer to this call, word for word if
  -- that is a text and else as JSON; or, for `work_generate`, the gateway's own text "Work generation
  -- was cancelled", after a local generation that was cancelled. The second is there although the
  -- documentation of the code says that the code never carries a message of the gateway.
  pub dispatch-Source :
      (response : RpcResponse) (e : RpcError)
      → (dispatch settings w check request s).0 ≡ ok response
      → response.error ≡ some e
      → e.code ≡ node_error_code
      → (spec : MethodSpec) × (params : Value) × Admitted settings check request spec params
        × Source w spec.name params s e.message
  dispatch-Source response e answered same node =
      let (spec, params, admitted, reported) = dispatch-ran response e answered same node in
      let g = (guard w spec.name params s.confirm_guards).1 in
      (
        spec,
        params,
        admitted,
        run-Source w spec.name params (record s { confirm_guards = g }) settings e.message reported,
      )

  -- A request that is answered at the transport layer has reached no upstream and no job: at most
  -- the guards have changed.
  pub dispatch_rejected :
      (rejection : TransportRejection)
      → (dispatch settings w check request s).0 ≡ err rejection
      → (dispatch settings w check request s).1
        ≡ record s { confirm_guards = (dispatch settings w check request s).1.confirm_guards }
  unfolding dispatch
  dispatch_rejected rejection answered = go (admit settings w check request) answered
    where
      inner :
          (spec : MethodSpec) (params : Value)
          (checked : Result TransportRejection (Unit {0}) × ConfirmGuards)
          → (guarded settings w request.id spec params s checked).0 ≡ err rejection
          → (guarded settings w request.id spec params s checked).1 ≡ record s {
            confirm_guards = (guarded settings w request.id spec params s checked).1.confirm_guards;
          }
      inner spec params (ok _, g) h = absurd (
          respond-ok w request.id spec.name params
            (run settings w spec.name params (record s { confirm_guards = g })) rejection h)
      inner spec params (err _, g) h = refl

      go :
          (admitted : Result Answer (MethodSpec × Value))
          → (dispatch_admitted settings w request.id s admitted).0 ≡ err rejection
          → (dispatch_admitted settings w request.id s admitted).1 ≡ record s {
            confirm_guards = (dispatch_admitted settings w request.id s admitted).1.confirm_guards;
          }
      go (ok (spec, params)) h = inner spec params (guard w spec.name params s.confirm_guards) h
      go (err answer) h = refl
