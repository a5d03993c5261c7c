-- ===== src/App/Dispatch.antt =====
-- `dispatch` and `guard` of src/lib.rs: the checks before a method runs, the upstream that each
-- method goes to, and the response to what comes back. A check that answers the request at once is
-- an error of `admit`, whose payload is that answer.
use text.Mathlib.Text.{◌==◌ as str_eq}
use nano_rpc_gateway.Prelude.{
  ℕ, String, Bool, true, not, ◌&&◌, ◌||◌, List, ◌∷◌, Option, none, some, if◌then◌else◌,
}
use nano_rpc_gateway.Prelude.Text.{is_blank, to_ascii_uppercase}
use nano_rpc_gateway.Prelude.Result.{Result, ok, err, ◌>>=◌, ◌>>◌, ok_or, fail_if, map_err}
use nano_rpc_gateway.Json.{
  Value, object, string, end, insert, is_string, is_number, is_null, is_some_and, member,
  member_str, unwrap_or,
}
use nano_rpc_gateway.Error.{
  GatewayError, node_rejected, node_rate_limited, upstream, upstream_unavailable,
  upstream_transport, invalid_request, node_error_code, gateway_error_code,
}
use nano_rpc_gateway.Rpc.{
  TransportRejection, RpcRequest, RpcResponse, unauthorized, forbidden, response_ok, response_err,
  invalid_request_code, method_not_found_code, invalid_params_code, disabled_code,
}
use nano_rpc_gateway.Registry.{
  Scope, MethodSpec, registry, find_method, is_base, is_common, is_work, is_control,
}
use nano_rpc_gateway.Validate.Params.{validate_params}
use nano_rpc_gateway.Validate.Outcome.{validate_result, normalize_work_generate_result}
use nano_rpc_gateway.Guards.{ConfirmGuards, reserve, check_cooldown, record_accepted, is_block_hash}
use nano_rpc_gateway.Auth.{Crypto, authorized}
use nano_rpc_gateway.App.{AppState, Config, World, is_remote, ask, nano_bool, has_job, drop_job}
use nano_rpc_gateway.App.Work.{generate_local_work, cancel_local_job}

abbrev pub Answer : Type 0
Answer = Result TransportRejection RpcResponse

-- `id.is_string() || id.is_number() || id.is_null()`
abbrev pub is_id : Value → Bool
is_id id = is_string id || is_number id || is_null id

abbrev pub discover_answer : Config → World → Option Value → Answer
discover_answer config w id =
    if config.enable_discovery
    then ok (response_ok id w.document)
    else ok (response_err id method_not_found_code "Discovery is disabled; fetch /openrpc.json")

abbrev pub needs_auth : Config → Scope → Bool
needs_auth config scope =
    not (is_base scope) && (not (is_common scope) || config.require_common_auth)

-- `check` is `authorized` for the headers of the request.
module _ (config : Config) (w : World) (check : Scope → Bool) where
  abbrev pub admit_method : Option Value → MethodSpec → Value → Result Answer (MethodSpec × Value)
  admit_method id spec params = do
    fail_if (is_work spec.scope && not config.allow_work)
        (ok (response_err id disabled_code "Work generation is disabled"))
    fail_if (is_control spec.scope && not config.allow_control)
        (ok (response_err id disabled_code "Control methods are disabled"))
    fail_if (needs_auth config spec.scope && not (check spec.scope)) (err unauthorized)
    map_err (λ message. ok (response_err id invalid_params_code message))
        (validate_params spec.name params)
    ok (spec, params)

  unfoldable pub admit : RpcRequest → Result Answer (MethodSpec × Value)
  admit request = do
    fail_if (not (str_eq request.jsonrpc "2.0") || is_blank request.method)
        (ok (response_err request.id invalid_request_code "Invalid Request"))
    fail_if (request.id_present && is_some_and request.id (λ id. not (is_id id))) (
        ok (
          response_err request.id invalid_request_code
            "Invalid Request: id must be string, number, or null"))
    fail_if (not request.id_present)
        (ok (response_err none invalid_request_code "Notifications are not supported"))
    fail_if (str_eq request.method "rpc.discover") (discover_answer config w request.id)
    spec ←
        ok_or (find_method request.method registry)
          (ok (response_err request.id method_not_found_code "Method not found"))
    admit_method request.id spec (unwrap_or request.params (object end))

abbrev Checked : Type 0
Checked = Result TransportRejection (Unit {0}) × ConfirmGuards

-- `self.confirm_guards.reserve().await?; self.confirm_guards.check_cooldown(hash).await`
abbrev pub then_cooldown : World → String → Checked → Checked
then_cooldown w hash (ok _, g) = check_cooldown w.cooldown_at hash g
then_cooldown w hash (err rejection, g) = (err rejection, g)

abbrev pub guard_hash : World → Option String → ConfirmGuards → Checked
guard_hash w none g = (err (forbidden "invalid parameter: hash"), g)
guard_hash w (some hash) g =
    if not (is_block_hash hash)
    then (err (forbidden "invalid parameter: hash must be 64 hexadecimal characters"), g)
    else then_cooldown w hash (reserve w.reserve_at g)

unfoldable pub guard : World → String → Value → ConfirmGuards → Checked
guard w method params g =
    if str_eq method "block_confirm" then guard_hash w (member_str params "hash") g else (ok tt, g)

abbrev Ran : Type 0
Ran = Result GatewayError Value × AppState

abbrev pub call_native : World → String → Value → AppState → Ran
call_native w method params s =
    let (result, pool) = ask w method params s.native_pool in
    (result, record s { native_pool = pool })

abbrev pub call_peers : World → String → Value → AppState → Ran
call_peers w method params s =
    let (result, pool) = ask w method params s.work_peers in
    (result, record s { work_peers = pool })

-- The hash is in the table of remote jobs until the call is over, and then in it no more.
abbrev pub generate_remote : World → List ℕ → Value → AppState → Ran
generate_remote w hash params s =
    let (result, pool) = ask w "work_generate" params s.work_peers in
    (
      result,
      record s { work_peers = pool; remote_work_jobs = drop_job hash (hash ∷ s.remote_work_jobs) },
    )

-- `params.get(name).is_some()`
abbrev is_given : Value → String → Bool
is_given params name = is_some_and (member params name) (λ _. true)

abbrev pub asks_node : Value → Bool
asks_node params =
    nano_bool (member params "use_peers")
    || (is_given params "block"
        && (not (is_given params "difficulty") && not (is_given params "multiplier")))

abbrev pub success_object : Value
success_object = object (insert "success" (string "") end)

abbrev pub cancel_work : Config → World → List ℕ → Value → AppState → Ran
cancel_work config w hash params s =
    if is_remote config.work_provider || has_job hash s.remote_work_jobs
    then call_peers w "work_cancel" params s
    else (ok success_object, record s { local_work_jobs = cancel_local_job hash s.local_work_jobs })

-- The `match` on the method.
unfoldable pub run : Config → World → String → Value → AppState → Ran
run config w method params s =
    let hash = to_ascii_uppercase (unwrap_or (member_str params "hash") "") in
    if str_eq method "work_generate"
    then (if is_remote config.work_provider || asks_node params
        then generate_remote w hash params s
        else generate_local_work w params s)
    else if str_eq method "work_cancel"
    then cancel_work config w hash params s
    else call_native w method params s

-- Only a hash that the node took starts a cooldown.
abbrev pub record_hash : World → Option String → AppState → AppState
record_hash w none s = s
record_hash w (some hash) s = record s {
  confirm_guards = record_accepted w.accepted_at hash s.confirm_guards;
}

abbrev pub after_success : World → String → Value → AppState → AppState
after_success w method params s =
    if str_eq method "block_confirm" then record_hash w (member_str params "hash") s else s

abbrev pub success_response : Option Value → String → Value → RpcResponse
success_response id method result =
    if validate_result method result
    then response_ok id result
    else response_err id gateway_error_code
        "Upstream result does not match the selected profile schema"

abbrev pub failure_response : Option Value → GatewayError → RpcResponse
failure_response id (node_rejected reason) = response_err id node_error_code reason
failure_response id (node_rate_limited reason) = response_err id node_error_code reason
failure_response id (upstream _) = response_err id gateway_error_code "Upstream request failed"
failure_response id (upstream_unavailable _) =
    response_err id gateway_error_code "Upstream unavailable"
failure_response id (upstream_transport _) =
    response_err id gateway_error_code "Upstream unavailable"
failure_response id (invalid_request message) = response_err id invalid_params_code message
failure_response id _ = response_err id gateway_error_code "Internal error"

-- The `match` on the result.
unfoldable pub respond : World → Option Value → String → Value → Ran → Answer × AppState
respond w id method params (ok result, s) = (
  ok (success_response id method (normalize_work_generate_result method params result).0),
  after_success w method params s,
)
respond w id method params (err e, s) = (ok (failure_response id e), s)

abbrev pub guarded :
    Config → World → Option Value → MethodSpec → Value → AppState → Checked → Answer × AppState
guarded config w id spec params s (err rejection, g) =
    (err rejection, record s { confirm_guards = g })
guarded config w id spec params s (ok _, g) =
    respond w id spec.name params (run config w spec.name params (record s { confirm_guards = g }))

abbrev pub dispatch_admitted :
    Config
    → World
    → Option Value
    → AppState
    → Result Answer (MethodSpec × Value)
    → Answer × AppState
dispatch_admitted config w id s (err answer) = (answer, s)
dispatch_admitted config w id s (ok (spec, params)) =
    guarded config w id spec params s (guard w spec.name params s.confirm_guards)

unfoldable pub dispatch :
    Config → World → (Scope → Bool) → RpcRequest → AppState → Answer × AppState
unfolding admit
dispatch config w check request s =
    dispatch_admitted config w request.id s (admit config w check request)

-- With the check of the Authorization header for the key that is configured.
abbrev pub dispatch_authorized :
    (crypto : Crypto)
    → ℕ
    → Option crypto.VerifyingKey
    → Config
    → World
    → Option String
    → RpcRequest
    → AppState
    → Answer × AppState
dispatch_authorized crypto now key config w header =
    dispatch config w (λ scope. authorized crypto now key header scope)
