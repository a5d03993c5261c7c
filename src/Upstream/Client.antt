-- ===== src/Upstream/Client.antt =====
-- `NativeClient` of src/lib.rs: the request body, the call, and the reading of the node's answer.
-- The network, the text form of a JSON value and of a status code are parameters; logging is left
-- out.
pub mod Laws
use Prim.Native.String.{◌++◌}
use nano_rpc_gateway.Prelude.{
  ℕ, String, Bool, true, false, not, ◌&&◌, ◌||◌, List, Option, none, some, ltb, leb, ◌==◌,
  if◌then◌else◌,
}
use nano_rpc_gateway.Prelude.Text.{codes, trim, to_ascii_lowercase, contains, same}
use nano_rpc_gateway.Prelude.Result.{Result, ok, err}
use nano_rpc_gateway.Json.{
  Value, Fields, string, number, end, insert, as_str, as_object, as_u64, member, unwrap_or,
}
use nano_rpc_gateway.Error.{
  GatewayError, upstream, node_rejected, node_rate_limited, upstream_unavailable,
  upstream_transport,
}

pub record NativeClient : Type 0 where
  pub endpoint : String
  pub label : String
  pub basic_auth : Option (String × String)

-- What comes back from `request.send()`: a failure, of the connection or later, or a status with a
-- body that may be JSON.
pub data Reply : Type 0 where
  failed : (is_connect : Bool) → String → Reply
  response : (status : ℕ) → Result String Value → Reply

-- `params` with the action of the authorized method.
unfoldable pub native_request_body : String → Value → Fields
native_request_body action params =
    insert "action" (string action) (unwrap_or (as_object params) end)

-- The texts that a provider writes for a rate limit.
unfoldable pub is_rate_limited_error : Value → Bool
unfolding same contains to_ascii_lowercase trim
is_rate_limited_error (number n) = elim (as_u64 (number n)) [ none ↦ false | some k ↦ k == 429 ]
is_rate_limited_error (string text) =
    let message = to_ascii_lowercase (trim text) in
    same message (codes "429")
    || contains message (codes "too many requests")
    || contains message (codes "rate limit")
    || contains message (codes "rate-limit")
    || contains message (codes "ratelimit")
is_rate_limited_error _ = false

abbrev pub is_success : ℕ → Bool
is_success status = leb 200 status && ltb status 300

abbrev pub is_server_error : ℕ → Bool
is_server_error status = leb 500 status && ltb status 600

module _ (print : Value → String) where
  unfoldable pub native_error_reason : Value → String
  native_error_reason error = unwrap_or (as_str error) (print error)

  -- A JSON answer with a 2xx status.
  unfoldable pub read_answer : Value → Option Value → Result GatewayError Value
  read_answer value none = ok value
  read_answer value (some error) =
      if is_rate_limited_error error
      then err (node_rate_limited (native_error_reason error))
      else err (node_rejected (native_error_reason error))

  unfoldable pub read_body : Result String Value → Result GatewayError Value
  unfolding member
  read_body (ok value) = read_answer value (member value "error")
  read_body (err error) = err (upstream_transport error)

module _ (print : Value → String) (status_text : ℕ → String) where
  unfoldable pub read_reply : Reply → Result GatewayError Value
  read_reply (failed is_connect message) =
      if is_connect then err (upstream_unavailable message) else err (upstream_transport message)
  read_reply (response status body) =
      if not (is_success status)
      then (if is_server_error status || status == 429
          then err (upstream_unavailable ("HTTP " ++ status_text status))
          else err (upstream ("HTTP " ++ status_text status)))
      else read_body print body

  -- `call_with_response_logging`, over what the network answers to a client's POST.
  unfoldable pub call_with_response_logging :
      (NativeClient → Fields → Reply) → NativeClient → String → Value → Result GatewayError Value
  call_with_response_logging send client action params =
      read_reply (send client (native_request_body action params))
