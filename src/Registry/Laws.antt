-- ===== src/Registry/Laws.antt =====
-- What the registry says of a method that it finds.
use nano_rpc_gateway.Prelude.{String, List, [], ◌∷◌, some, ◌≡◌, arith, eq_iff}
use nano_rpc_gateway.Registry.{MethodSpec, find_method}

-- The entry found has the name that was asked for.
pub find_method-name :
    (name : String) (ms : List MethodSpec) (found : MethodSpec)
    → find_method name ms ≡ some found
    → found.name ≡ name
unfolding find_method
find_method-name name [] found h = cc
find_method-name name (m ∷ ms) found h =
    ground (arith, eq_iff m.name name, find_method-name name ms found)
