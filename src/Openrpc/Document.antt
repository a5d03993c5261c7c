-- ===== src/Openrpc/Document.antt =====
-- `build_openrpc_document` of src/lib.rs with `openrpc_method` and `openrpc_params`. The version of
-- the release and the order of the hash set are parameters.
use Prim.Native.String.{◌++◌}
use package.text.Mathlib.Text.{◌==◌ as str_eq}
use nano_rpc_gateway.Prelude.{
  ℕ, String, Bool, true, false, not, ◌||◌, ◌&&◌, List, [], ◌∷◌, Option, none, some, any, map,
  if◌then◌else◌,
}
use nano_rpc_gateway.Json.{
  Value, Fields, string, bool, object, get, insert, entries, as_array, as_object, member, and_then,
  unwrap_or,
}
use nano_rpc_gateway.Stream.{texts_of}
use nano_rpc_gateway.Registry.{Scope, work, control, MethodSpec, registry}
use nano_rpc_gateway.Openrpc.Refs.{reachable_component_schemas}
use nano_rpc_gateway.Openrpc.Schemas.{component_schemas}
use nano_rpc_gateway.Json.Macro.{obj, arr, negative, insert_all}

abbrev pub component_ref : String → Value
component_ref name = obj (("$ref", string ("#/components/schemas/" ++ name)) ∷ [])

abbrev pub error_ref : String → Value
error_ref name = obj (("$ref", string ("#/components/errors/" ++ name)) ∷ [])

-- One entry of the parameter list.
abbrev pub param_of : List String → String × Value → Value
param_of required (name, definition) = obj (
    ("name", string name)
    ∷ ("required", bool (any (λ r. str_eq r name) required))
    ∷ ("schema", definition)
    ∷ [])

abbrev pub params_of : List String → Option Fields → List Value
params_of required none = []
params_of required (some properties) = map (param_of required) (entries properties)

abbrev pub schema_params : Option Value → List Value
schema_params none = []
schema_params (some schema) =
    params_of
      (unwrap_or
        (and_then (and_then (member schema "required") as_array) (λ vs. some (texts_of vs))) [])
      (and_then (member schema "properties") as_object)

unfoldable pub openrpc_params : String → List Value
unfolding get component_schemas member insert_all
openrpc_params params_schema = schema_params (get component_schemas params_schema)

abbrev pub is_work : Scope → Bool
is_work work = true
is_work _ = false

abbrev pub is_control : Scope → Bool
is_control control = true
is_control _ = false

abbrev pub capability : String → Bool → List String → List (String × Value) → Value
capability name browser_safe requires more = obj (
    ("name", string name)
    ∷ ("browser_safe", bool browser_safe)
    ∷ ("requires", arr (map string requires))
    ∷ more)

abbrev pub with_capability : MethodSpec → Fields → Fields
with_capability method document =
    if str_eq method.name "process" || str_eq method.name "work_validate"
    then insert "x-nano-capability"
        (capability method.name (str_eq method.name "process") ("authenticated" ∷ "common" ∷ []) [])
        document
    else if is_work method.scope
    then insert "x-nano-capability"
        (capability "work" false ("authenticated" ∷ "work" ∷ [])
          (("enabled_by", string "allow_work") ∷ []))
        document
    else if is_control method.scope
    then insert "x-nano-capability"
        (capability "control" false ("authenticated" ∷ "control" ∷ [])
          (("enabled_by", string "allow_control") ∷ []))
        document
    else document

unfoldable pub method_fields : MethodSpec → Fields
unfolding openrpc_params insert_all
method_fields method =
    insert_all
      (("name", string method.name)
        ∷ ("summary", string method.description)
        ∷ ("x-nano-schema-provenance", string method.schema_provenance)
        ∷ ("x-nano-params-schema", component_ref method.params)
        ∷ ("paramStructure", string "by-name")
        ∷ ("params", arr (openrpc_params method.params))
        ∷ ("result", obj (("name", string "result") ∷ ("schema", component_ref method.result) ∷ []))
        ∷ (
          "errors",
          arr (
              error_ref "InvalidRequest"
              ∷ error_ref "MethodNotFound"
              ∷ error_ref "NodeError"
              ∷ error_ref "InternalError"
              ∷ []),
        )
        ∷ [])
      Fields.end

unfoldable pub openrpc_method : MethodSpec → Value
unfolding method_fields insert insert_all
openrpc_method method = object (with_capability method (method_fields method))

-- The filter on the registry.
abbrev pub is_included : Bool → Bool → Scope → Bool
is_included include_work include_control work = include_work
is_included include_work include_control control = include_control
is_included include_work include_control _ = true

unfoldable pub documented : Bool → Bool → List MethodSpec → List MethodSpec
documented include_work include_control [] = []
documented include_work include_control (m ∷ ms) =
    let rest = documented include_work include_control ms in
    if is_included include_work include_control m.scope then m ∷ rest else rest

abbrev pub discover_method : Value
discover_method = obj (
    ("name", string "rpc.discover")
    ∷ ("summary", string "Return the OpenRPC document.")
    ∷ ("params", arr [])
    ∷ (
      "result",
      obj (
          ("name", string "result")
          ∷ (
            "schema",
            obj (
                ("type", string "object")
                ∷ ("properties", obj [])
                ∷ ("additionalProperties", bool true)
                ∷ []),
          )
          ∷ []),
    )
    ∷ [])

abbrev pub and_discover : Bool → List Value → List Value
and_discover true methods = nano_rpc_gateway.Prelude.◌++◌ methods (discover_method ∷ [])
and_discover false methods = methods

unfoldable pub document_methods : Bool → Bool → Bool → List Value
unfolding openrpc_method documented registry insert_all
document_methods include_work include_control include_discovery =
    and_discover include_discovery
      (map openrpc_method (documented include_work include_control registry))

abbrev pub error_component : ℕ → String → Value
error_component minus_code message =
    obj (("code", negative minus_code) ∷ ("message", string message) ∷ [])

abbrev pub components : Fields → Value
components schemas = obj (
    ("schemas", object schemas)
    ∷ (
      "errors",
      obj (
          ("InvalidRequest", error_component 32601 "Invalid method parameters")
          ∷ ("MethodNotFound", error_component 32600 "Method not found")
          ∷ (
            "NodeError",
            error_component 31999
                "The node reported an error. This code is reserved for node-reported errors, and the message is the node's own string unchanged.",
          )
          ∷ (
            "InternalError",
            error_component 32602
                "The gateway could not complete the call. The node may not have been reached, or its response did not match the pinned profile. The call may or may not have been processed.",
          )
          ∷ []),
    )
    ∷ [])

-- The document over the schemas that are kept.
abbrev pub document_of : String → String → String → List Value → Fields → Value
document_of version profile gateway_url methods schemas = obj (
    ("openrpc", string "1.3.2")
    ∷ (
      "info",
      obj (
          ("title", string "Nano Gateway JSON-RPC 2.0 API")
          ∷ ("version", string version)
          ∷ (
            "description",
            string
                "This OpenRPC document describes the gateway's JSON-RPC 2.0 API. The gateway translates ledger methods into actions on the pinned Nano node profile's separate custom JSON RPC interface.",
          )
          ∷ []),
    )
    ∷ (
      "servers",
      arr (
          obj (
            ("name", string "gateway")
            ∷ ("url", string gateway_url)
            ∷ ("variables", obj (("gatewayUrl", obj (("default", string gateway_url) ∷ [])) ∷ []))
            ∷ [])
          ∷ []),
    )
    ∷ ("methods", arr methods)
    ∷ ("components", components schemas)
    ∷ ("x-nano-profile", string profile)
    ∷ [])

abbrev pub map_some : {A B : Type 0} → (A → B) → Option A → Option B
map_some f none = none
map_some f (some a) = some (f a)

-- With the fuel of the search for the reachable schemas.
unfoldable pub build_openrpc_document :
    (List String → ℕ) → ℕ → String → String → Bool → Bool → Bool → String → Option Value
unfolding document_methods reachable_component_schemas component_schemas insert_all
build_openrpc_document order fuel version profile include_work include_control include_discovery
      gateway_url =
    let methods = document_methods include_work include_control include_discovery in
    map_some (document_of version profile gateway_url methods)
      (reachable_component_schemas order fuel methods component_schemas)
