-- ===== src/Openrpc/Methods.antt =====
-- The methods that a document names against those that the gateway takes.
use mathlib.Core.List.{Memᴰ}
use mathlib.Core.List.Memᴰ
use package.text.Mathlib.Text.{◌==◌ as str_eq}
use nano_rpc_gateway.Prelude.{String, Bool, true, List, some, ◌≡◌, ◌⊎◌}
use nano_rpc_gateway.Json.{Value}
use nano_rpc_gateway.Registry.{MethodSpec, registry, find_method}
use nano_rpc_gateway.App.{Config}
use nano_rpc_gateway.App.Admission.{Enabled}
use nano_rpc_gateway.Openrpc.Document.{discover_method, openrpc_method}

-- The methods that a document can name: those of the registry that the configuration enables, each
-- with its entry, and `rpc.discover`, which is not in the registry, where it is asked for.
abbrev pub Names : Config → Bool → String → Value → Type 0
Names config discovery name entry =
    ((spec : MethodSpec) × (find_method name registry ≡ some spec)
      × Enabled config spec.scope
      × (entry ≡ openrpc_method spec))
    ⊎ ((discovery ≡ true) × (name ≡ "rpc.discover") × (entry ≡ discover_method))
