-- ===== src/Json/Macro.antt =====
-- Values as the macro `json!` of `serde_json` writes them: the members of an object are inserted in the
-- order in which they stand.
use nano_rpc_gateway.Prelude.{ℕ, String, List, [], ◌∷◌}
use nano_rpc_gateway.Json.{
  Value, Fields, object, array, number, pos_int, neg_int, of_items, insert, end,
}

unfoldable pub insert_all : List (String × Value) → Fields → Fields
unfolding insert
insert_all [] fs = fs
insert_all ((k, v) ∷ later) fs = insert_all later (insert k v fs)

abbrev pub obj : List (String × Value) → Value
obj members = object (insert_all members end)

abbrev pub arr : List Value → Value
arr vs = array (of_items vs)

abbrev pub int : ℕ → Value
int n = number (pos_int n)

-- -(n + 1)
abbrev pub negative : ℕ → Value
negative n = number (neg_int n)
