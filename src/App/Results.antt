-- ===== src/App/Results.antt =====
-- The results that a caller gets from `dispatch`.
use nano_rpc_gateway.Prelude.{
  String, Bool, true, Option, none, some, ◌≡◌, ◌≢◌, inl, inr, subst, Bool-cases,
}
use nano_rpc_gateway.Prelude.Result.{Result, ok, err, Result-cases}
use nano_rpc_gateway.Json.{Value}
use nano_rpc_gateway.Error.{GatewayError, node_rejected, node_rate_limited}
use nano_rpc_gateway.Rpc.{RpcRequest, RpcResponse, TransportRejection}
use nano_rpc_gateway.Registry.{Scope, MethodSpec, registry}
use nano_rpc_gateway.Registry.Laws.{find_method-name}
use nano_rpc_gateway.Validate.Outcome.{validate_result, normalize_work_generate_result}
use nano_rpc_gateway.Guards.{ConfirmGuards}
use nano_rpc_gateway.App.{AppState, Config, World}
use nano_rpc_gateway.App.Dispatch.{
  Answer, admit, guard, run, respond, guarded, success_response, failure_response, dispatch,
}
use nano_rpc_gateway.App.Admission.{admit_iff}
use nano_rpc_gateway.App.Refusals.{EveryErr, every-admit}

-- The result, if there is one, passes the check of the method's results.
abbrev Validated : String → Answer → Type 0
Validated method (ok response) =
    (v : Value) → response.result ≡ some v → validate_result method v ≡ true
Validated method (err rejection) = Unit

success-Validated :
    (id : Option Value) (method : String) (result : Value)
    → Validated method (ok (success_response id method result))
success-Validated id method result v e = elim (Bool-cases (validate_result method result)) [
  | inl valid ↦
      let same : ◌≡◌ {A = Option Value} (some result) (some v) = rw valid at e in cc (same, valid)
  | inr invalid ↦ let gone : ◌≡◌ {A = Option Value} none (some v) = rw invalid at e in cc gone
]

failure-Validated :
    (id : Option Value) (method : String) (e : GatewayError)
    → Validated method (ok (failure_response id e))
failure-Validated id method (node_rejected reason) v e = cc
failure-Validated id method (node_rate_limited reason) v e = cc
failure-Validated id method _ v e = cc

respond-Validated :
    (w : World) (id : Option Value) (method : String) (params : Value)
    (ran : Result GatewayError Value × AppState)
    → Validated method (respond w id method params ran).0
unfolding respond
respond-Validated w id method params (ok result, s) =
    success-Validated id method (normalize_work_generate_result method params result).0
respond-Validated w id method params (err e, s) = failure-Validated id method e

module _ (settings : Config) (w : World) (check : Scope → Bool) (request : RpcRequest)
    (s : AppState) where
  guarded-Validated :
      (spec : MethodSpec) (params : Value)
      (checked : Result TransportRejection (Unit {0}) × ConfirmGuards)
      → Validated spec.name (guarded settings w request.id spec params s checked).0
  guarded-Validated spec params (ok _, g) =
      respond-Validated w request.id spec.name params
        (run settings w spec.name params (record s { confirm_guards = g }))
  guarded-Validated spec params (err rejection, g) = tt

  answers-Validated :
      request.method ≢ "rpc.discover"
      → Validated request.method (dispatch settings w check request s).0
  unfolding dispatch
  answers-Validated other = elim (Result-cases (admit settings w check request)) [
    | inl ((spec, params), e) ↦
        let admitted = (admit_iff settings w check request spec params).0 e in
        let name = find_method-name request.method registry spec admitted.listed in
        let valid = guarded-Validated spec params (guard w spec.name params s.confirm_guards) in
        rw e (
          subst
            (λ m.
              Validated m
                (guarded settings w request.id spec params s
                  (guard w spec.name params s.confirm_guards)).0)
            name valid)
    | inr (answer, e) ↦ rw e (
        subst (EveryErr (Validated request.method)) e (
          every-admit settings w check request (Validated request.method)
            (λ code message _. λ v same. cc same) (λ message missing. λ v same. cc same) tt
            (λ named. absurd (other named))))
  ]

  -- A result that a caller gets, of any method but `rpc.discover`, passes the check of the method's
  -- results.
  pub dispatch-Validated :
      (response : RpcResponse) (v : Value)
      → request.method ≢ "rpc.discover"
      → (dispatch settings w check request s).0 ≡ ok response
      → response.result ≡ some v
      → validate_result request.method v ≡ true
  dispatch-Validated response v other answered result =
      subst (Validated request.method) answered (answers-Validated other) v result
