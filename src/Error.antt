-- ===== src/Error.antt =====
-- `GatewayError` of src/lib.rs, and the two error codes of the translation layer. The payload of
-- `Config` and `Io`, errors of other crates, is their message.
use Prim.Native.String.{◌++◌}
use nano_rpc_gateway.Prelude.{String}
use nano_rpc_gateway.Prelude.Int.{ℤ, negsuc}

pub data GatewayError : Type 0 where
  config : String → GatewayError
  config_value : String → GatewayError
  io : String → GatewayError
  upstream : String → GatewayError
  upstream_rejected : String → GatewayError
  node_rejected : String → GatewayError
  node_rate_limited : String → GatewayError
  upstream_unavailable : String → GatewayError
  upstream_transport : String → GatewayError
  invalid_request : String → GatewayError
  auth : String → GatewayError
  rate_limited : String → GatewayError

-- -32000
abbrev pub node_error_code : ℤ
node_error_code = negsuc 31999

-- -32603
abbrev pub gateway_error_code : ℤ
gateway_error_code = negsuc 32602

-- The text of an error, from its attribute `error`.
abbrev pub display : GatewayError → String
display (config e) = "configuration: " ++ e
display (config_value m) = "configuration: " ++ m
display (io e) = "io: " ++ e
display (upstream m) = "upstream: " ++ m
display (upstream_rejected m) = "upstream rejected request: " ++ m
display (node_rejected m) = "node reported an error: " ++ m
display (node_rate_limited m) = "node rate limited the request: " ++ m
display (upstream_unavailable m) = "upstream unavailable: " ++ m
display (upstream_transport m) = "upstream transport: " ++ m
display (invalid_request m) = "invalid request: " ++ m
display (auth m) = "authentication: " ++ m
display (rate_limited m) = "rate limited: " ++ m
