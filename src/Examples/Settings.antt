-- ===== src/Examples/Settings.antt =====
-- A file with one variable, set in the environment.
use package.text.Mathlib.Text.{◌==◌ as str_eq}
use nano_rpc_gateway.Prelude.{
  String, Option, none, some, ◌≡◌, refl, ◌↔◌, ◌≢◌, ◌⊎◌, arith, if◌then◌else◌,
}
use nano_rpc_gateway.Prelude.Result.{Result, ok, err}
use nano_rpc_gateway.Upstream.Endpoint.{Url}
use nano_rpc_gateway.Settings.{default_config, with_peers, validate}
use nano_rpc_gateway.Settings.Expand.{expand_config_variables}
use nano_rpc_gateway.Settings.Ends.{expand_config_variables-ends}
use nano_rpc_gateway.Settings.Expansion.{Expands, expand_config_variables_iff}
use nano_rpc_gateway.Settings.Load.{Machine, load}
use nano_rpc_gateway.Settings.Valid.{Valid}
use nano_rpc_gateway.Settings.Names.{load-Valid}

abbrev lookup : String → Option String
lookup name = if str_eq name "NODE" then some "node" else none

abbrev contents : String
contents = "url: ${NODE}:7076"

expanded : expand_config_variables lookup 20 contents ≡ some (ok "url: node:7076")
unfolding expand_config_variables
expanded = refl

expand_config_variables_iff_example :
    (expand_config_variables lookup 20 contents ≡ some (ok "url: node:7076"))
    ↔ Expands lookup contents "url: node:7076"
expand_config_variables_iff_example =
    expand_config_variables_iff lookup 20 contents "url: node:7076" (omega arith)

expand_config_variables-ends_example : expand_config_variables lookup 20 contents ≢ none
expand_config_variables-ends_example = expand_config_variables-ends lookup 20 contents (omega arith)

abbrev scheme_of : String → String
scheme_of address = if str_eq address "ws://127.0.0.1:7078" then "ws" else "http"

abbrev parse_url : String → Result String Url
parse_url address = ok (record {
  scheme = scheme_of address;
  username = "";
  password = none;
  host_str = some "127.0.0.1";
  port = some 7076;
})

abbrev header_value : String → Result String (Unit {0})
header_value value = ok tt

validates : validate parse_url header_value default_config ≡ ok (with_peers default_config)
unfolding validate
validates = refl

abbrev machine : Machine
machine = record {
  file = ok contents;
  dotenv = err none;
  create_parent = ok tt;
  write_default = ok tt;
  environment = lookup;
  from_yaml = λ text. ok default_config;
  parse_url = parse_url;
  header_value = header_value;
  print = λ n. "1";
}

loads : load machine 20 ≡ some (ok (with_peers default_config))
unfolding load
loads = refl

load-Valid_example :
    Valid parse_url header_value (with_peers default_config)
    ⊎ ((machine.file ≡ err none) × (with_peers default_config ≡ default_config))
load-Valid_example = load-Valid machine 20 (with_peers default_config) loads
