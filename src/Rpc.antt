-- ===== src/Rpc.antt =====
-- Requests, responses and transport rejections of src/lib.rs. A status code is its number.
use nano_rpc_gateway.Prelude.{ℕ, String, Bool, Option, none, some}
use nano_rpc_gateway.Prelude.Int.{ℤ, negsuc}
use nano_rpc_gateway.Json.{Value, null, unwrap_or}

pub record TransportRejection : Type 0 where
  pub status : ℕ
  pub message : String
  pub retry_after : Option ℕ

abbrev pub unauthorized : TransportRejection
unauthorized = record { status = 401; message = "Unauthorized"; retry_after = none }

abbrev pub forbidden : String → TransportRejection
forbidden message = record { status = 403; message = message; retry_after = none }

abbrev pub rate_limited : String → ℕ → TransportRejection
rate_limited message retry_after = record {
  status = 429;
  message = message;
  retry_after = some retry_after;
}

pub record RpcRequest : Type 0 where
  pub jsonrpc : String
  pub method : String
  pub params : Option Value
  pub id_present : Bool
  pub id : Option Value

pub record RpcError : Type 0 where
  pub code : ℤ
  pub message : String
  pub details : Option Value

pub record RpcResponse : Type 0 where
  pub jsonrpc : String
  pub result : Option Value
  pub error : Option RpcError
  pub id : Value

-- `RpcResponse::ok`
abbrev pub response_ok : Option Value → Value → RpcResponse
response_ok id value = record {
  jsonrpc = "2.0";
  result = some value;
  error = none;
  id = unwrap_or id null;
}

-- `RpcResponse::err_with_data`
abbrev pub response_err_with_data : Option Value → ℤ → String → Option Value → RpcResponse
response_err_with_data id code message details = record {
  jsonrpc = "2.0";
  result = none;
  error = some (record { code = code; message = message; details = details });
  id = unwrap_or id null;
}

-- `RpcResponse::err`
abbrev pub response_err : Option Value → ℤ → String → RpcResponse
response_err id code message = response_err_with_data id code message none

-- -32600, -32601, -32602 and -32604
abbrev pub invalid_request_code : ℤ
invalid_request_code = negsuc 32599

abbrev pub method_not_found_code : ℤ
method_not_found_code = negsuc 32600

abbrev pub invalid_params_code : ℤ
invalid_params_code = negsuc 32601

abbrev pub disabled_code : ℤ
disabled_code = negsuc 32603
