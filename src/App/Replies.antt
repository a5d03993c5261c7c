-- ===== src/App/Replies.antt =====
-- The shape of the answers of `dispatch`, and a request that does not get past its checks.
use nano_rpc_gateway.Prelude.{
  String, Bool, false, Option, none, some, ◌≡◌, refl, ◌⊎◌, inl, inr, Bool-cases,
}
use nano_rpc_gateway.Prelude.Int.{ℤ}
use nano_rpc_gateway.Prelude.Result.{Result, ok, err, Result-cases}
use nano_rpc_gateway.Json.{Value, null, unwrap_or}
use nano_rpc_gateway.Error.{GatewayError, node_rejected, node_rate_limited}
use nano_rpc_gateway.Rpc.{
  RpcRequest, RpcResponse, RpcError, TransportRejection, response_ok, response_err,
}
use nano_rpc_gateway.Registry.{Scope, MethodSpec}
use nano_rpc_gateway.Validate.Outcome.{validate_result, normalize_work_generate_result}
use nano_rpc_gateway.Guards.{ConfirmGuards}
use nano_rpc_gateway.App.{AppState, Config, World}
use nano_rpc_gateway.App.Dispatch.{
  Answer, admit, guard, run, respond, guarded, success_response, failure_response, dispatch,
  dispatch_admitted,
}
use nano_rpc_gateway.App.Admission.{Admitted, admit_iff}
use nano_rpc_gateway.App.Refusals.{EveryErr, every-admit}

-- A result or an error, and not both.
abbrev pub ExactlyOne : Option Value → Option RpcError → Type 0
ExactlyOne (some _) none = Unit
ExactlyOne none (some _) = Unit
ExactlyOne _ _ = ⊥

-- A response to the request: its id is the request's, or `null` for a request that has none.
pub record Responds (request : RpcRequest) (response : RpcResponse) : Type 0 where
  pub version : response.jsonrpc ≡ "2.0"
  pub one_of : ExactlyOne response.result response.error
  pub id :
      (response.id ≡ unwrap_or request.id null)
      ⊎ ((request.id_present ≡ false) × (response.id ≡ null))

abbrev pub Shaped : RpcRequest → Answer → Type 0
Shaped request (ok response) = Responds request response
Shaped request (err rejection) = Unit

shaped-ok : (request : RpcRequest) (v : Value) → Responds request (response_ok request.id v)
shaped-ok request v = record { version = refl; one_of = tt; id = inl refl }

shaped-err :
    (request : RpcRequest) (code : ℤ) (message : String)
    → Responds request (response_err request.id code message)
shaped-err request code message = record { version = refl; one_of = tt; id = inl refl }

module _ (config : Config) (w : World) (check : Scope → Bool) (request : RpcRequest) where
  admit-Shaped : EveryErr (Shaped request) (admit config w check request)
  admit-Shaped =
      every-admit config w check request (Shaped request)
        (λ code message _. shaped-err request code message)
        (λ message missing. record { version = refl; one_of = tt; id = inr (missing, refl) }) tt
        (λ _. shaped-ok request w.document)

  success-Shaped :
      (method : String) (result : Value)
      → Responds request (success_response request.id method result)
  success-Shaped method result = elim (Bool-cases (validate_result method result)) [
    | inl valid ↦ rw valid (shaped-ok request result)
    | inr invalid ↦ rw invalid (shaped-err request _ _)
  ]

  failure-Shaped : (e : GatewayError) → Responds request (failure_response request.id e)
  failure-Shaped (node_rejected reason) = shaped-err request _ _
  failure-Shaped (node_rate_limited reason) = shaped-err request _ _
  failure-Shaped _ = shaped-err request _ _

  respond-Shaped :
      (method : String) (params : Value) (ran : Result GatewayError Value × AppState)
      → Shaped request (respond w request.id method params ran).0
  unfolding respond
  respond-Shaped method params (ok result, s) =
      success-Shaped method (normalize_work_generate_result method params result).0
  respond-Shaped method params (err e, s) = failure-Shaped e

  guarded-Shaped :
      (spec : MethodSpec) (params : Value) (s : AppState)
      (checked : Result TransportRejection (Unit {0}) × ConfirmGuards)
      → Shaped request (guarded config w request.id spec params s checked).0
  guarded-Shaped spec params s (ok _, g) =
      respond-Shaped spec.name params
        (run config w spec.name params (record s { confirm_guards = g }))
  guarded-Shaped spec params s (err rejection, g) = tt

  -- Whatever the request and the upstreams do, a response is of JSON-RPC 2.0, carries a result or an
  -- error and not both, and has the id of the request, or `null` for a request without an id.
  pub dispatch-Shaped : (s : AppState) → Shaped request (dispatch config w check request s).0
  unfolding dispatch
  dispatch-Shaped s = go (admit config w check request) admit-Shaped
    where
      go :
          (admitted : Result Answer (MethodSpec × Value))
          → EveryErr (Shaped request) admitted
          → Shaped request (dispatch_admitted config w request.id s admitted).0
      go (ok (spec, params)) h =
          guarded-Shaped spec params s (guard w spec.name params s.confirm_guards)
      go (err answer) h = h

  -- A request that does not get past the checks changes nothing: no upstream is called, no token is
  -- taken from the bucket, and no job is entered or cancelled.
  pub dispatch_unadmitted :
      (s : AppState)
      → ((spec : MethodSpec) (params : Value) → ¬ Admitted config check request spec params)
      → (dispatch config w check request s).1 ≡ s
  unfolding dispatch
  dispatch_unadmitted s h = elim (Result-cases (admit config w check request)) [
    | inl ((spec, params), e) ↦
        absurd (h spec params ((admit_iff config w check request spec params).0 e))
    | inr (answer, e) ↦ rw e refl
  ]
