-- ===== src/Settings.antt =====
-- The configuration of src/lib.rs: `Config` with its defaults, its check and its file. The parsers of
-- addresses, of header values and of YAML, the file system and the environment are parameters.
pub mod Expand
pub mod Dotenv
pub mod Load
pub mod Addresses
pub mod Valid
pub mod Ends
pub mod Expansion
pub mod Names
use Prim.Native.String.{◌++◌}
use nano_rpc_gateway.Prelude.{
  ℕ, String, Bool, true, false, not, ◌&&◌, ◌||◌, List, [], ◌∷◌, Option, none, some, is_empty, leb,
  if◌then◌else◌,
}
use nano_rpc_gateway.Prelude.Result.{Result, ok, err, ◌>>=◌, ◌>>◌, fail_if, for_each, map_err}
use nano_rpc_gateway.Error.{GatewayError, invalid_request, display}
use nano_rpc_gateway.App.{WorkProvider, remote_work}
use nano_rpc_gateway.Bridge.{is_present}
use nano_rpc_gateway.Upstream.Endpoint.{Url, validate_upstream_url}

pub record Config : Type 0 where
  pub listen : String
  pub node_rpc_urls : List String
  pub node_ws_urls : List String
  pub profile : String
  pub require_common_auth : Bool
  pub allow_work : Bool
  pub work_provider : WorkProvider
  pub work_peer_urls : List String
  pub local_work_timeout_ms : ℕ
  pub allow_control : Bool
  pub auth_public_key : Option String
  pub enable_discovery : Bool
  pub enable_browser_ui : Bool
  pub log_rpc : Bool
  pub cors_origins : List String
  pub public_url : Option String
  pub tls_cert : Option String
  pub tls_key : Option String

-- The value of each field that a file leaves out, by the `default_*` functions and `Default`.
abbrev pub default_config : Config
default_config = record {
  listen = "127.0.0.1:8090";
  node_rpc_urls = "http://127.0.0.1:7076" ∷ [];
  node_ws_urls = "ws://127.0.0.1:7078" ∷ [];
  profile = "nano-node/V28.2";
  require_common_auth = true;
  allow_work = false;
  work_provider = remote_work;
  work_peer_urls = [];
  local_work_timeout_ms = 30_000;
  allow_control = false;
  auth_public_key = none;
  enable_discovery = true;
  enable_browser_ui = false;
  log_rpc = false;
  cors_origins = "*" ∷ [];
  public_url = none;
  tls_cert = none;
  tls_key = none;
}

-- The part that a request depends on.
abbrev pub request_config : Config → nano_rpc_gateway.App.Config
request_config c = record {
  enable_discovery = c.enable_discovery;
  allow_work = c.allow_work;
  allow_control = c.allow_control;
  require_common_auth = c.require_common_auth;
  work_provider = c.work_provider;
}

abbrev pub with_peers : Config → Config
with_peers c = record c {
  work_peer_urls = if is_empty c.work_peer_urls then c.node_rpc_urls else c.work_peer_urls;
}

abbrev pub same_bool : Bool → Bool → Bool
same_bool true b = b
same_bool false b = not b

abbrev pub empty_error : GatewayError
empty_error = invalid_request "node_rpc_urls and node_ws_urls must each be non-empty"

abbrev pub timeout_error : GatewayError
timeout_error = invalid_request "local_work_timeout_ms must be between 100 and 300000"

abbrev pub tls_error : GatewayError
tls_error = invalid_request "tls_cert and tls_key must be configured together"

abbrev pub cors_error : String → GatewayError
cors_error error = invalid_request ("invalid CORS origin: " ++ error)

abbrev pub public_error : GatewayError → GatewayError
public_error error = invalid_request ("invalid public_url: " ++ display error)

module _ (parse_url : String → Result String Url)
    (header_value : String → Result String (Unit {0})) where
  abbrev pub check_rpc_url : String → Result GatewayError (Unit {0})
  check_rpc_url url = validate_upstream_url parse_url url ("http" ∷ "https" ∷ [])

  abbrev pub check_ws_url : String → Result GatewayError (Unit {0})
  check_ws_url url = validate_upstream_url parse_url url ("ws" ∷ "wss" ∷ [])

  abbrev pub check_origin : String → Result GatewayError (Unit {0})
  check_origin origin = map_err cors_error (header_value origin)

  abbrev pub check_public_url : Option String → Result GatewayError (Unit {0})
  check_public_url none = ok tt
  check_public_url (some url) = map_err public_error (check_rpc_url url)

  -- The checks, over the configuration with its peers filled in.
  abbrev pub check_rest : Config → Result GatewayError (Unit {0})
  check_rest c = do
    for_each check_rpc_url c.work_peer_urls
    fail_if (not (leb 100 c.local_work_timeout_ms && leb c.local_work_timeout_ms 300_000))
        timeout_error
    fail_if (not (same_bool (is_present c.tls_cert) (is_present c.tls_key))) tls_error
    for_each check_origin c.cors_origins
    check_public_url c.public_url

  -- `Config::validate`
  unfoldable pub validate : Config → Result GatewayError Config
  unfolding validate_upstream_url
  validate c = do
    fail_if (is_empty c.node_rpc_urls || is_empty c.node_ws_urls) empty_error
    for_each check_rpc_url c.node_rpc_urls
    for_each check_ws_url c.node_ws_urls
    check_rest (with_peers c)
    ok (with_peers c)
