-- ===== src/Json/Laws.antt =====
-- The laws of the map of `serde_json`: what `get` finds after `insert` and `remove`.
use text.Mathlib.Text.{◌==◌ as str_eq}
use nano_rpc_gateway.Prelude.{
  String, false, ◌≡◌, ◌↔◌, refl, none, some, arith, eq_iff, if◌then◌else◌,
}
use nano_rpc_gateway.Json.{Value, Fields, end, field, get, contains_key, insert, remove}

pub get-insert :
    (k j : String) (v : Value) (fs : Fields)
    → get (insert k v fs) j ≡ (if str_eq k j then some v else get fs j)
unfolding get insert
get-insert k j v end = refl
get-insert k j v (field i w fs) =
    ground (arith, eq_iff k j, eq_iff i k, eq_iff i j, get-insert k j v fs)

pub get-remove :
    (k j : String) (fs : Fields) → get (remove k fs) j ≡ (if str_eq k j then none else get fs j)
unfolding get remove
get-remove k j end = ground arith
get-remove k j (field i w fs) =
    ground (arith, eq_iff k j, eq_iff i k, eq_iff i j, get-remove k j fs)

pub contains_key_iff : (fs : Fields) (k : String) → (contains_key fs k ≡ false) ↔ (get fs k ≡ none)
unfolding contains_key
contains_key_iff fs k = ground arith
