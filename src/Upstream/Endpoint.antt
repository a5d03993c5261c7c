-- ===== src/Upstream/Endpoint.antt =====
-- The checks of an upstream's address in src/lib.rs: `validate_upstream_url` and `upstream_label`.
-- A `Url` is what the accessors of the crate `url` answer about an address; its parser is a
-- parameter.
use Prim.Native.String.{◌++◌}
use nano_rpc_gateway.Prelude.{ℕ, String, Bool, not, ◌||◌, List, [], ◌∷◌, Option, none, some}
use nano_rpc_gateway.Prelude.Text.{is_blank}
use nano_rpc_gateway.Prelude.Result.{Result, ◌>>=◌, ◌>>◌, map_err, fail_if}
use nano_rpc_gateway.Json.{is_some_and, unwrap_or}
use nano_rpc_gateway.Error.{GatewayError, invalid_request}
use nano_rpc_gateway.Validate.Params.{is_one_of}

pub record Url : Type 0 where
  pub scheme : String
  pub username : String
  pub password : Option String
  pub host_str : Option String
  pub port : Option ℕ

abbrev pub is_none {ℓ} : {A : Type ℓ} → Option A → Bool
is_none none = Bool.true
is_none (some _) = Bool.false

-- `{schemes:?}`, for names that need no escape
abbrev debug_more : List String → String
debug_more [] = "]"
debug_more (s ∷ ss) = ", \"" ++ s ++ "\"" ++ debug_more ss

abbrev pub debug_list : List String → String
debug_list [] = "[]"
debug_list (s ∷ ss) = "[\"" ++ s ++ "\"" ++ debug_more ss

abbrev pub scheme_error : List String → GatewayError
scheme_error schemes =
    invalid_request ("upstream URL must use one of " ++ debug_list schemes ++ " and include a host")

abbrev pub password_error : GatewayError
password_error =
    invalid_request
      "upstream URL password must be empty; use the username for Nano.to API-key authentication"

abbrev pub url_error : String → GatewayError
url_error error = invalid_request ("invalid upstream URL: " ++ error)

unfoldable pub validate_upstream_url :
    (String → Result String Url) → String → List String → Result GatewayError (Unit {0})
validate_upstream_url parse endpoint schemes = do
  parsed ← map_err url_error (parse endpoint)
  fail_if (not (is_one_of schemes parsed.scheme) || is_none parsed.host_str) (scheme_error schemes)
  fail_if (is_some_and parsed.password (λ password. not (is_blank password))) password_error

-- The second argument prints a port.
unfoldable pub upstream_label : (ℕ → String) → Url → String
upstream_label print url =
    let host = unwrap_or url.host_str "(missing host)" in
    elim url.port [
      | some port ↦ url.scheme ++ "://" ++ host ++ ":" ++ print port
      | none ↦ url.scheme ++ "://" ++ host
    ]
