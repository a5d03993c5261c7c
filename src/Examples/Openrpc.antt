-- ===== src/Examples/Openrpc.antt =====
-- One method that refers to a component, which refers to another, and a component that nothing
-- refers to.
use nano_rpc_gateway.Prelude.{
  ℕ, ◌≤◌, String, true, false, List, [], ◌∷◌, Option, none, some, ◌≡◌, refl, ◌≢◌, ◌↔◌, arith,
}
use nano_rpc_gateway.Json.{Value, Fields, string, object, field, end, get}
use nano_rpc_gateway.Openrpc.Refs.{reachable_component_schemas}
use nano_rpc_gateway.Openrpc.Search.{refs_of_methods, weight}
use nano_rpc_gateway.Openrpc.Reach.{Reach}
use nano_rpc_gateway.Registry.{Scope, MethodSpec}
use nano_rpc_gateway.App.{Config, local_work}
use nano_rpc_gateway.Openrpc.Schemas.{component_schemas}
use nano_rpc_gateway.Openrpc.Document.{document_methods}
use nano_rpc_gateway.Openrpc.Closure.{
  all_refs, reachable_component_schemas-ends, reachable_component_schemas_iff,
}

abbrev refers : String → Value
refers target = object (field "$ref" (string target) end)

abbrev methods : List Value
methods = refers "#/components/schemas/A" ∷ []

abbrev schemas : Fields
schemas =
    field "A" (object (field "items" (refers "#/components/schemas/B") end)) (
      field "B" (refers "#/components/schemas/A") (field "C" (refers "#/components/schemas/A") end))

abbrev kept : Fields
kept =
    field "A" (object (field "items" (refers "#/components/schemas/B") end))
      (field "B" (refers "#/components/schemas/A") end)

abbrev first_place : List String → ℕ
first_place names = 0

abbrev last_place : List String → ℕ
last_place names = 1

enough : all_refs methods schemas ≤ 10
unfolding refs_of_methods weight
enough = omega arith

reachable_component_schemas-ends_example :
    reachable_component_schemas first_place 10 methods schemas ≢ none
reachable_component_schemas-ends_example =
    reachable_component_schemas-ends first_place 10 methods schemas enough

keeps : reachable_component_schemas first_place 10 methods schemas ≡ some kept
unfolding reachable_component_schemas
keeps = refl

also_keeps : reachable_component_schemas last_place 10 methods schemas ≡ some kept
unfolding reachable_component_schemas
also_keeps = refl

reachable_component_schemas_iff_example :
    (get kept "B" ≡ some (refers "#/components/schemas/A"))
    ↔ ((get schemas "B" ≡ some (refers "#/components/schemas/A")) × Reach methods schemas "B")
reachable_component_schemas_iff_example =
    reachable_component_schemas_iff first_place 10 methods schemas kept "B"
      (refers "#/components/schemas/A") keeps

abbrev no_work : Config
no_work = record {
  enable_discovery = true;
  allow_work = false;
  allow_control = false;
  require_common_auth = true;
  work_provider = local_work;
}

abbrev version_spec : MethodSpec
version_spec = record {
  name = "version";
  scope = Scope.base;
  params = "EmptyParams";
  result = "VersionResult";
  description = "Read the upstream node version.";
  schema_provenance = "profiles/nano-node-v28.2.yaml";
}

-- The components of the document with nothing switched on.
abbrev searched : Option Fields
searched =
    reachable_component_schemas first_place 200 (document_methods false false false)
      component_schemas

abbrev or_empty : Option Fields → Fields
or_empty none = end
or_empty (some fs) = fs
