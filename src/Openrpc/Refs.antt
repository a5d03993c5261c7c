-- ===== src/Openrpc/Refs.antt =====
-- `collect_schema_refs` and `reachable_component_schemas` of src/lib.rs. A `HashSet<String>` is the
-- list of its members, with none twice; the order of its iteration is a parameter, which says
-- for a set that is not empty at which place its first member stands.
use package.text.Mathlib.Text.{◌==◌ as str_eq}
use nano_rpc_gateway.Prelude.{
  ℕ, zero, suc, ◌%◌, String, Bool, true, false, List, [], ◌∷◌, Option, none, some, length, get_or,
  if◌then◌else◌,
}
use nano_rpc_gateway.Prelude.Text.{strip_prefix}
use nano_rpc_gateway.Json.{
  Value, Values, Fields, object, array, nil, cons, end, field, get, get_str, and_then,
}

-- `HashSet::contains`, `insert` and `remove`
unfoldable pub has : String → List String → Bool
has name [] = false
has name (n ∷ ns) = if str_eq n name then true else has name ns

unfoldable pub add : String → List String → List String
unfolding has
add name names = if has name names then names else name ∷ names

unfoldable pub without : String → List String → List String
without name [] = []
without name (n ∷ ns) = let rest = without name ns in if str_eq n name then rest else n ∷ rest

-- The component that an object refers to.
unfoldable pub reference : Fields → Option String
unfolding get_str strip_prefix
reference fs = and_then (get_str fs "$ref") (λ r. strip_prefix r "#/components/schemas/")

abbrev pub add_given : Option String → List String → List String
add_given none names = names
add_given (some name) names = add name names

unfoldable mutual
  unfolding reference add

  pub collect_schema_refs : Value → List String → List String
  collect_schema_refs (object fs) refs = collect_fields fs (add_given (reference fs) refs)
  collect_schema_refs (array vs) refs = collect_values vs refs
  collect_schema_refs _ refs = refs

  pub collect_fields : Fields → List String → List String
  collect_fields end refs = refs
  collect_fields (field k v fs) refs = collect_fields fs (collect_schema_refs v refs)

  pub collect_values : Values → List String → List String
  collect_values nil refs = refs
  collect_values (cons v vs) refs = collect_values vs (collect_schema_refs v refs)

unfoldable pub collect_methods : List Value → List String → List String
unfolding collect_schema_refs
collect_methods [] refs = refs
collect_methods (m ∷ ms) refs = collect_methods ms (collect_schema_refs m refs)

-- `schemas.retain(|name, _| reachable.contains(name))`
unfoldable pub retain : List String → Fields → Fields
unfolding has
retain names end = end
retain names (field k v fs) =
    let rest = retain names fs in if has k names then field k v rest else rest

abbrev pub visit : Option Value → List String → List String
visit none pending = pending
visit (some schema) pending = collect_schema_refs schema pending

module _ (order : List String → ℕ) (schemas : Fields) where
  -- `pending.iter().next()`
  abbrev pub next_of : String → List String → String
  next_of n ns = get_or (n ∷ ns) (order (n ∷ ns) % suc (length ns)) n

  -- One round: what is pending, and what has been reached.
  abbrev pub round : Bool → String → List String → List String → List String × List String
  round true name rest reached = (rest, reached)
  round false name rest reached = (visit (get schemas name) rest, name ∷ reached)

  -- The loop; with no fuel left it has no result.
  unfoldable pub search : ℕ → List String → List String → Option (List String)
  unfolding has without collect_schema_refs get
  search fuel [] reached = some reached
  search zero (n ∷ ns) reached = none
  search (suc fuel) (n ∷ ns) reached =
      let name = next_of n ns in
      let after = round (has name reached) name (without name (n ∷ ns)) reached in
      search fuel after.0 after.1

abbrev pub retained : Fields → Option (List String) → Option Fields
retained schemas none = none
retained schemas (some names) = some (retain names schemas)

unfoldable pub reachable_component_schemas :
    (List String → ℕ) → ℕ → List Value → Fields → Option Fields
unfolding search retain collect_methods
reachable_component_schemas order fuel methods schemas =
    retained schemas (search order schemas fuel (collect_methods methods []) [])
