-- ===== src/Handlers/Call.antt =====
-- `rpc_handler` of src/lib.rs: from the bytes of a body to the answer, with its counters. The
-- readers of serde are parameters; the text of a parse error is theirs.
use Prim.Native.String.{◌++◌}
use nano_rpc_gateway.Prelude.{
  ℕ, String, Bool, true, false, not, ◌||◌, List, [], ◌∷◌, Option, none, some, ◌==◌, if◌then◌else◌,
}
use nano_rpc_gateway.Prelude.Int.{ℤ, negsuc}
use nano_rpc_gateway.Prelude.Result.{Result, ok, err, ◌>>=◌, ◌>>◌, fail_if, map_err}
use nano_rpc_gateway.Json.{Value, is_object, member}
use nano_rpc_gateway.Rpc.{RpcRequest, RpcResponse, response_err, invalid_request_code}
use nano_rpc_gateway.Registry.{Scope}
use nano_rpc_gateway.App.{AppState, Config, World}
use nano_rpc_gateway.App.Dispatch.{Answer, dispatch}
use nano_rpc_gateway.Bridge.{is_present}
use nano_rpc_gateway.Handlers.Metrics.{Metrics, count_request, count_error, drop_request}

-- `serde_json::from_slice::<Value>` and `serde_json::from_value::<RpcRequest>`
pub record Readers : Type 0 where
  pub from_slice : List ℕ → Result String Value
  pub from_value : Value → Result String RpcRequest

-- -32700
abbrev pub parse_error_code : ℤ
parse_error_code = negsuc 32699

-- `u8::is_ascii_whitespace`
abbrev pub is_ascii_whitespace : ℕ → Bool
is_ascii_whitespace byte = byte == 32 || byte == 9 || byte == 10 || byte == 12 || byte == 13

-- `body.iter().find(|byte| !byte.is_ascii_whitespace())`
unfoldable pub first_byte : List ℕ → Option ℕ
first_byte [] = none
first_byte (b ∷ bs) = let later = first_byte bs in if is_ascii_whitespace b then later else some b

abbrev pub is_batch : Option ℕ → Bool
is_batch none = false
is_batch (some b) = b == b'['

abbrev pub refusal : ℤ → String → RpcResponse
refusal code message = response_err none code message

abbrev pub batch_refusal : RpcResponse
batch_refusal = refusal invalid_request_code "Batch requests are not supported"

abbrev pub parse_refusal : String → RpcResponse
parse_refusal error = refusal parse_error_code ("Parse error: " ++ error)

abbrev pub object_refusal : RpcResponse
object_refusal = refusal invalid_request_code "Invalid Request"

abbrev pub request_refusal : String → RpcResponse
request_refusal error = refusal invalid_request_code ("Invalid Request: " ++ error)

abbrev pub with_id : Value → RpcRequest → Result RpcResponse RpcRequest
with_id value request = ok (record request { id_present = is_present (member value "id") })

unfoldable pub read_value : Readers → Value → Result RpcResponse RpcRequest
unfolding member
read_value r value = do
  fail_if (not (is_object value)) object_refusal
  map_err request_refusal (r.from_value value) >>= with_id value

-- The request that a body holds, or the response that refuses it.
unfoldable pub read_request : Readers → List ℕ → Result RpcResponse RpcRequest
unfolding first_byte read_value
read_request r body = do
  fail_if (is_batch (first_byte body)) batch_refusal
  map_err parse_refusal (r.from_slice body) >>= read_value r

abbrev pub is_failure : Answer → Bool
is_failure (ok response) = is_present response.error
is_failure (err rejection) = true

abbrev pub count_if : Bool → Metrics → Metrics
count_if true m = count_error m
count_if false m = m

abbrev pub Served : Type 0
Served = Answer × (AppState × Metrics)

abbrev pub answer_request :
    Config → World → (Scope → Bool) → Result RpcResponse RpcRequest → AppState → Metrics → Served
answer_request config w check (err response) s m = (ok response, (s, count_error m))
answer_request config w check (ok request) s m =
    let (answer, after) = dispatch config w check request s in
    (answer, (after, count_if (is_failure answer) m))

-- `check` tells whether the headers authorize a scope; the handler takes `elapsed` milliseconds.
unfoldable pub rpc_handler :
    Readers → Config → World → (Scope → Bool) → ℕ → List ℕ → AppState → Metrics → Served
unfolding dispatch read_request drop_request
rpc_handler r config w check elapsed body s m =
    let (answer, (after, counted)) =
      answer_request config w check (read_request r body) s (count_request m) in
    (answer, (after, drop_request elapsed counted))
