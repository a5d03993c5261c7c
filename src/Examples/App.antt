-- ===== src/Examples/App.antt =====
-- Requests to a gateway with one node, which answers `version` and refuses `block_info`.
use text.Mathlib.Text.{◌==◌ as str_eq}
use nano_rpc_gateway.Prelude.{
  String, Bool, true, false, [], ◌∷◌, Option, none, some, ◌≡◌, refl, ◌≢◌, ◌↔◌, arith, eq_iff,
}
use nano_rpc_gateway.Prelude.Result.{ok, err}
use nano_rpc_gateway.Json.{Value, null, string, object, field, end, get, member}
use nano_rpc_gateway.Json.{contains_key, insert, member_str, get_str}
use nano_rpc_gateway.Validate.Params.{
  validate_params, validate_known, validate_options, validate_required, required_parameter,
  valid_required,
}
use nano_rpc_gateway.Validate.Outcome.{validate_object, has_string, normalize_work_generate_result}
use nano_rpc_gateway.Upstream.Router.{call, call_from, settle, mark_unhealthy, active_index}
use nano_rpc_gateway.Upstream.Client.{
  call_with_response_logging, read_reply, read_body, read_answer, native_request_body,
  is_rate_limited_error, native_error_reason,
}
use nano_rpc_gateway.Error.{node_error_code}
use nano_rpc_gateway.Rpc.{RpcRequest, RpcError, response_ok, response_err, unauthorized}
use nano_rpc_gateway.Registry.{Scope, MethodSpec, registry, find_method}
use nano_rpc_gateway.Validate.Outcome.{validate_result}
use nano_rpc_gateway.Upstream.Client.{NativeClient, Reply, response}
use nano_rpc_gateway.Upstream.Router.{NativeRouter}
use nano_rpc_gateway.Guards.{ConfirmGuards}
use nano_rpc_gateway.App.{AppState, Config, World, local_work, timed_out, ask}
use nano_rpc_gateway.App.Work.{generate_local_work, cancel_local_job}
use nano_rpc_gateway.App.Dispatch.{
  admit, dispatch, run, guard, respond, generate_remote, cancel_work, success_object,
}
use nano_rpc_gateway.App.Admission.{Admitted, admit_iff}
use nano_rpc_gateway.App.Replies.{dispatch_unadmitted}
use nano_rpc_gateway.App.Results.{dispatch-Validated}
use nano_rpc_gateway.App.Guarded.{dispatch-Source, dispatch_rejected}
use nano_rpc_gateway.App.Sources.{Source}
use nano_rpc_gateway.App.Invariant.{IsSound, dispatch-IsSound}
use nano_rpc_gateway.App.Jobs.{Restored, generate_local_work-Restored, cancel_work-generate_remote}

abbrev pub config : Config
config = record {
  enable_discovery = true;
  allow_work = true;
  allow_control = false;
  require_common_auth = true;
  work_provider = local_work;
}

abbrev node : NativeClient
node = record { endpoint = "http://[::1]:7076"; label = "[::1]:7076"; basic_auth = none }

abbrev one_pool : NativeRouter
one_pool = record { clients = node ∷ []; active = 0; unhealthy_until = 0 ∷ [] }

abbrev guards : ConfirmGuards
guards = record { tokens = 4_000_000_000; last_refill = 0; cooldown = [] }

abbrev pub state : AppState
state = record {
  native_pool = one_pool;
  work_peers = one_pool;
  local_work_jobs = [];
  remote_work_jobs = [];
  local_work_slots = 1;
  confirm_guards = guards;
}

abbrev version_result : Value
version_result = object (field "rpc_version" (string "1") end)

abbrev refusal : Value
refusal = object (field "error" (string "Block not found") end)

abbrev answer_to : Option Value → Reply
answer_to (some (string action)) = response 200 (ok (node_says (str_eq action "version")))
  where
    node_says : Bool → Value
    node_says true = version_result
    node_says false = refusal
answer_to _ = response 500 (err "no action")

abbrev pub world : World
world = record {
  send = λ c body. answer_to (get body "action");
  print = λ v. "{}";
  status_text = λ status. "status";
  call_at = 5;
  failure_at = λ i. 6;
  reserve_at = 5;
  cooldown_at = 5;
  accepted_at = 6;
  document = null;
  generator = ok tt;
  generate = λ bytes threshold. timed_out;
  send_threshold = 0xfffffff800000000;
  threshold_of_multiplier = λ n. 0;
}

abbrev pub nobody : Scope → Bool
nobody scope = false

abbrev request : String → Value → RpcRequest
request method params = record {
  jsonrpc = "2.0";
  method = method;
  params = some params;
  id_present = true;
  id = some (string "a");
}

abbrev version_request : RpcRequest
version_request = request "version" (object end)

abbrev block_request : RpcRequest
block_request = request "block_info" (object (field "hash" (string "AB") end))

abbrev work_request : RpcRequest
work_request = request "work_generate" (object (field "hash" (string "AB") end))

state-IsSound : IsSound state
state-IsSound = record {
  native_pool = record { not_empty = omega arith; in_pool = omega arith; cooldowns = refl };
  work_peers = record { not_empty = omega arith; in_pool = omega arith; cooldowns = refl };
  confirm_guards = record { bucket = omega arith; cache = omega arith };
}

dispatch-IsSound_example : IsSound (dispatch config world nobody block_request state).1
dispatch-IsSound_example = dispatch-IsSound config world nobody block_request state state-IsSound

abbrev version_spec : MethodSpec
version_spec = record {
  name = "version";
  scope = Scope.base;
  params = "EmptyParams";
  result = "VersionResult";
  description = "Read the upstream node version.";
  schema_provenance = "profiles/nano-node-v28.2.yaml";
}

admit_iff_example :
    (admit config world nobody version_request ≡ ok (version_spec, object end))
    ↔ Admitted config nobody version_request version_spec (object end)
admit_iff_example = admit_iff config world nobody version_request version_spec (object end)

abbrev version_name : String
version_name = "version"

version-ne_discover : version_name ≢ "rpc.discover"
version-ne_discover e = cc ((eq_iff version_name "rpc.discover").1 e)

version_dispatched :
    (dispatch config world nobody version_request state).0
    ≡ ok (response_ok (some (string "a")) version_result)
unfolding dispatch admit find_method registry validate_params validate_required required_parameter
    contains_key guard run ask call call_from settle mark_unhealthy active_index
    call_with_response_logging read_reply native_request_body insert get read_body read_answer
    member member_str get_str respond normalize_work_generate_result validate_result validate_object
    has_string is_rate_limited_error native_error_reason
version_dispatched = refl

dispatch-Validated_example : validate_result "version" version_result ≡ true
dispatch-Validated_example =
    dispatch-Validated config world nobody version_request state
      (response_ok (some (string "a")) version_result) version_result version-ne_discover
      version_dispatched refl

abbrev not_found : RpcError
not_found = record { code = node_error_code; message = "Block not found"; details = none }

block_dispatched :
    (dispatch config world nobody block_request state).0
    ≡ ok (response_err (some (string "a")) node_error_code "Block not found")
unfolding dispatch admit find_method registry validate_params validate_required required_parameter
    validate_known valid_required validate_options contains_key guard run ask call call_from settle
    mark_unhealthy active_index call_with_response_logging read_reply native_request_body insert get
    read_body read_answer member member_str get_str respond is_rate_limited_error
    native_error_reason
block_dispatched = refl

dispatch-Source_example :
    (spec : MethodSpec) × (params : Value) × Admitted config nobody block_request spec params
    × Source world spec.name params state "Block not found"
dispatch-Source_example =
    dispatch-Source config world nobody block_request state
      (response_err (some (string "a")) node_error_code "Block not found") not_found
      block_dispatched refl refl

work_dispatched : (dispatch config world nobody work_request state).0 ≡ err unauthorized
unfolding dispatch admit find_method registry
work_dispatched = refl

dispatch_rejected_example : (dispatch config world nobody work_request state).1 ≡ record state {
  confirm_guards = (dispatch config world nobody work_request state).1.confirm_guards;
}
dispatch_rejected_example =
    dispatch_rejected config world nobody work_request state unauthorized work_dispatched

abbrev old_version : String
old_version = "1.0"

abbrev old_request : RpcRequest
old_request = record version_request { jsonrpc = old_version }

old-unadmitted :
    (spec : MethodSpec) (params : Value) → ¬ Admitted config nobody old_request spec params
old-unadmitted spec params admitted = cc ((eq_iff old_version "2.0").1 admitted.version)

dispatch_unadmitted_example : (dispatch config world nobody old_request state).1 ≡ state
dispatch_unadmitted_example =
    dispatch_unadmitted config world nobody old_request state old-unadmitted

abbrev root : Value
root =
    object
      (field "hash" (string "991CF190094C00F0B68E2E5F75F6BEE95A2E0BD93CEAA4A6734DB9F19B728948") end)

generate_local_work-Restored_example : Restored state (generate_local_work world root state).1
generate_local_work-Restored_example = generate_local_work-Restored world root state

abbrev twice : AppState
twice = record state { remote_work_jobs = (65 ∷ []) ∷ [] }

cancel_work-generate_remote_example :
    cancel_work config world (65 ∷ []) root (generate_remote world (65 ∷ []) root twice).1 ≡ (
      ok success_object,
      record (generate_remote world (65 ∷ []) root twice).1 {
        local_work_jobs = cancel_local_job (65 ∷ []) [];
      },
    )
cancel_work-generate_remote_example =
    cancel_work-generate_remote config world world (65 ∷ []) root root twice refl
