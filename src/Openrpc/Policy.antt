-- ===== src/Openrpc/Policy.antt =====
-- `openrpc_document_with_auth` of src/lib.rs: the document with the policy on Common methods. The digest
-- of the document is a parameter.
use package.text.Mathlib.Text.{◌==◌ as str_eq}
use nano_rpc_gateway.Prelude.{ℕ, String, Bool, ◌||◌, List, [], ◌∷◌, Option, map, if◌then◌else◌}
use nano_rpc_gateway.Json.{
  Value, Fields, null, string, bool, object, array, insert, contains_key, items, member_str,
  is_some_and,
}
use nano_rpc_gateway.Stream.{modify}
use nano_rpc_gateway.Json.Macro.{obj, arr, insert_all}
use nano_rpc_gateway.Openrpc.Document.{map_some, build_openrpc_document}

-- `method["name"] == name`
abbrev is_named : Value → String → Bool
is_named method name = is_some_and (member_str method "name") (str_eq name)

-- `value[key] = …`: a key that is missing is inserted, and a missing value becomes an object.
unfoldable pub index_mut : String → (Value → Value) → Fields → Fields
unfolding contains_key modify insert
index_mut k f fs = if contains_key fs k then modify k f fs else insert k (f null) fs

abbrev no_requirement : Value → Value
no_requirement null = object (insert "requires" (arr []) Fields.end)
no_requirement (object fs) = object (insert "requires" (arr []) fs)
no_requirement v = v

abbrev open_method : Value → Value
open_method (object fs) =
    if is_named (object fs) "process" || is_named (object fs) "work_validate"
    then object (index_mut "x-nano-capability" no_requirement fs)
    else object fs
open_method v = v

abbrev open_methods : Value → Value
open_methods (array vs) = arr (map open_method (items vs))
open_methods v = v

abbrev with_auth : String → Bool → Value → Value
with_auth digest require_common_auth (object fs) =
    let marked =
      insert "x-nano-common-authentication" (obj (("required", bool require_common_auth) ∷ []))
        fs in
    let opened = if require_common_auth then marked else modify "methods" open_methods marked in
    object (insert "x-nano-artifact-sha256" (string digest) opened)
with_auth digest require_common_auth v = v

unfoldable pub openrpc_document_with_auth :
    (List String → ℕ)
    → ℕ
    → String
    → String
    → String
    → Bool
    → Bool
    → Bool
    → String
    → Bool
    → Option Value
unfolding build_openrpc_document index_mut modify insert member_str insert_all
openrpc_document_with_auth order fuel digest version profile include_work include_control
      include_discovery gateway_url require_common_auth =
    map_some (with_auth digest require_common_auth) (
      build_openrpc_document order fuel version profile include_work include_control
        include_discovery gateway_url)
